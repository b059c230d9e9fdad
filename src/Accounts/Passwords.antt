-- ===== src/Accounts/Passwords.antt =====
-- `provision`, `reset_password`, `bootstrap` and `require_role` of backend/app/accounts/service.py and
-- `change_password` of backend/app/accounts/profile.py. Hashes of new passwords are arguments.
pub mod Fencing
use fillable.Common.{
  ℕ, String, Bool, true, false, not, ◌&&◌, ◌||◌, Option, none, some, List, [], ◌∷◌, ◌==◌, leb,
  is_some, eq_option, if◌then◌else◌, ◌>>=◌, ◌>>◌, pure, gets, or_raise, raise, raise_if, modify,
  Outcome, ok, err,
}
use fillable.Common.Table.{find, update}
use fillable.Storage.Schema.{Account}
use fillable.Storage.Service.{account_key}
use fillable.Documents.Schema.{
  Db, User, Session, LoginAttempt, AppError, user_key, session_key, authentication_required,
  not_found, rate_limited, current_password_invalid, account_exists, invalid_password,
}
use fillable.Documents.Session.{Action, SessionState, active_user}
use fillable.Documents.Rows.{delete}
use fillable.Accounts.Service.{
  Password, attempt_key_of, delete_where, issue, read_session, lock_attempt, counted, by_email,
  max_attempts, has_lapsed,
}

abbrev password_fits : ℕ → Bool
password_fits length = leb 10 length && leb length 1024

abbrev new_user : ℕ → String → ℕ → User
new_user id login hash = record { id = id; email = login; password_hash = hash; is_active = true }

abbrev new_account : ℕ → Account
new_account id = record { user_id = id; override_bytes = none; used_bytes = 0; reserved_bytes = 0 }

-- `provision`: the keys of both tables are unique, and so is the login.
unfoldable pub provision : ℕ → String → ℕ → ℕ → Action ℕ
provision id login length hash = do
  raise_if (not (password_fits length)) invalid_password
  taken ← gets (λ db.
      is_some (find user_key id db.users)
      || is_some (by_email login db.users)
      || is_some (find account_key id db.storage.accounts))
  raise_if taken account_exists
  modify (λ db. record db {
    users = new_user id login hash ∷ db.users;
    storage = record db.storage { accounts = new_account id ∷ db.storage.accounts };
  })
  pure id

abbrev pub with_hash : ℕ → User → User
with_hash hash u = record u { password_hash = hash }

abbrev pub is_of : ℕ → Session → Bool
is_of user s = eq_option s.user_id (some user)

-- What both changes of a password do: the hash, every session of the user, and the bucket.
abbrev pub replaced : ℕ → ℕ → ℕ → Db → Db
replaced key user hash db = record db {
  users = update user_key user (with_hash hash) db.users;
  sessions = delete_where (is_of user) db.sessions;
  attempts = delete attempt_key_of key db.attempts;
}

unfoldable pub reset_password : ℕ → String → ℕ → ℕ → ℕ → Action Unit
reset_password now email key length hash = do
  raise_if (not (password_fits length)) invalid_password
  lock_attempt now key
  u ← or_raise (← gets (λ db. by_email email db.users)) not_found
  modify (replaced key u.id hash)

pub data Changed : Type 0 where
  limited refused : Changed
  changed : SessionState → Changed

abbrev change_to : ℕ → ℕ → ℕ → ℕ → ℕ → Action Changed
change_to now fresh key user hash = do
  modify (replaced key user hash)
  state ← issue now fresh (some user)
  pure (changed state)

abbrev verified : Password → Option User → Bool
verified password none = false
verified password (some u) = password.verify u.password_hash

abbrev try_password : ℕ → ℕ → ℕ → Password → ℕ → ℕ → Action Changed
try_password now fresh key password user hash = do
  modify (λ db. record db { attempts = update attempt_key_of key counted db.attempts })
  right ← gets (λ db. verified password (find user_key user db.users))
  if right then change_to now fresh key user hash else pure refused

-- The transaction of `change_password`; `key` is the bucket of the user's changes.
unfoldable pub change_attempt : ℕ → ℕ → SessionState → ℕ → Password → ℕ → Action Changed
change_attempt now fresh state key password hash = do
  bucket ← lock_attempt now key
  user ← active_user now state
  if leb max_attempts bucket.count
      then pure limited
      else try_password now fresh key password user hash

abbrev change_answer : Changed → Outcome AppError SessionState
change_answer limited = err rate_limited
change_answer refused = err current_password_invalid
change_answer (changed state) = ok state

abbrev change_answered : Outcome AppError (Changed × Db) → Db → Outcome AppError SessionState × Db
change_answered (err e) db = (err e, db)
change_answered (ok (r, db')) db = (change_answer r, db')

-- A failed attempt is committed before its error is raised.
unfoldable pub change_password :
    ℕ → ℕ → SessionState → ℕ → Password → ℕ → Db → Outcome AppError SessionState × Db
change_password now fresh state key password hash db =
    if is_some state.user
    then change_answered (change_attempt now fresh state key password hash db) db
    else (err authentication_required, db)

abbrev is_expired : ℕ → Session → Bool
is_expired now s = leb s.expires_at now

abbrev or_anonymous : ℕ → ℕ → Option SessionState × Db → Outcome AppError SessionState × Db
or_anonymous now fresh (some state, db) = (ok state, db)
or_anonymous now fresh (none, db) =
    elim (issue now fresh none
      (record db { sessions = delete_where (is_expired now) db.sessions })) [
        | err e ↦ (err e, db)
        | ok (state, db') ↦ (ok state, db')
      ]

unfoldable pub bootstrap : ℕ → ℕ → Option ℕ → Db → Outcome AppError SessionState × Db
bootstrap now fresh token db = or_anonymous now fresh (read_session now token db)
