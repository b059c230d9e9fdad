-- ===== src/Accounts/Passwords/Fencing.antt =====
-- Which sessions a change of the password ends (backend/app/accounts/service.py and profile.py).
use fillable.Common.{
  ℕ, ◌≡◌, ◌≢◌, String, true, false, some, List, [], ◌∷◌, arith, ok, err, Option-cases, inl, inr,
}
use fillable.Common.Table.{find, update, find-update}
use fillable.Documents.Schema.{Db, User, Session, user_key, session_key, authentication_required}
use fillable.Documents.Session.{SessionState, active_user}
use fillable.Accounts.Service.{Password, new_session, delete_where, issue, lock_attempt, by_email}
use fillable.Accounts.Passwords.{is_of, with_hash, reset_password, change_attempt, change_password}

find-delete_where :
    (user k : ℕ) (ss : List Session) {s : Session}
    → find session_key k (delete_where (is_of user) ss) ≡ some s
    → is_of user s ≡ false
find-delete_where user k [] h = cc
find-delete_where user k (x ∷ ss) {s} h = ground (arith, find-delete_where user k ss {s = s})

-- A user without a session that is found is nobody's.
ended-active_user :
    (later user : ℕ) (state : SessionState) (db : Db)
    → state.user ≡ some user
    → ((s : Session)
        → find session_key state.token_hash db.sessions ≡ some s
        → is_of user s ≡ false)
    → active_user later state db ≡ err authentication_required
unfolding active_user
ended-active_user later user state db u none_of =
    elim (Option-cases (find session_key state.token_hash db.sessions)) [
      | inl missing ↦ ground (arith, missing)
      | inr (s, found) ↦ let other = none_of s found in ground (arith, found, other)
    ]

-- After a reset of the password, no session of that account authenticates anybody, at any time.
pub reset_password-active_user :
    (now later key length hash : ℕ) (email : String) (state : SessionState) (db db' : Db) (u : User)
    → reset_password now email key length hash db ≡ ok (tt, db')
    → by_email email db.users ≡ some u
    → state.user ≡ some u.id
    → active_user later state db' ≡ err authentication_required
unfolding reset_password lock_attempt
reset_password-active_user now later key length hash email state db db' u h there own =
    let same : db'.sessions ≡ delete_where (is_of u.id) db.sessions = ground (arith, there) in
    ended-active_user later u.id state db' own (λ s found.
      find-delete_where u.id state.token_hash db.sessions {s = s} (ground (arith, same, found)))

-- What a change that succeeds leaves.
record HasChanged (now fresh user hash : ℕ) (next : SessionState) (db db' : Db) : Type 0 where
  users : db'.users ≡ update user_key user (with_hash hash) db.users
  sessions :
      db'.sessions ≡ new_session now fresh (some user) ∷ delete_where (is_of user) db.sessions
  token : next.token_hash ≡ fresh
  own : next.user ≡ some user
  row : User
  found : find user_key user db.users ≡ some row
  alive : row.is_active ≡ true

change_password-HasChanged :
    (now fresh key hash user : ℕ) (state next : SessionState) (password : Password) (db db' : Db)
    → change_password now fresh state key password hash db ≡ (ok next, db')
    → state.user ≡ some user
    → HasChanged now fresh user hash next db db'
unfolding change_password change_attempt lock_attempt issue active_user
change_password-HasChanged now fresh key hash user state next password db db' h own =
    elim (Option-cases (find user_key user db.users)) [
      | inl missing ↦ absurd (ground (arith, missing))
      | inr (row, found) ↦ record {
        users = ground (arith, found);
        sessions = ground (arith, found);
        token = ground (arith, found);
        own = ground (arith, found);
        row = row;
        found = found;
        alive = ground (arith, found);
      }
    ]

-- After a signed-in user's change of the password that succeeds, the new session authenticates the
-- user at once, and every other session of the user, with another token than the new one,
-- authenticates nobody at any time.
pub change_password-active_user :
    (now later fresh key hash user : ℕ) (state next other : SessionState) (password : Password)
    (db db' : Db)
    → change_password now fresh state key password hash db ≡ (ok next, db')
    → state.user ≡ some user
    → other.user ≡ some user
    → other.token_hash ≢ fresh
    → (active_user now next db' ≡ ok (user, db'))
      × (active_user later other db' ≡ err authentication_required)
unfolding active_user
change_password-active_user now later fresh key hash user state next other password db db' h own
      same apart =
    let c = change_password-HasChanged now fresh key hash user state next password db db' h own in
    let u = find-update user_key user user (with_hash hash) db.users (λ r e. e) in
    let row : find user_key user db'.users ≡ some (with_hash hash c.row) =
      ground (arith, c.users, c.found, u) in
    let first : find session_key next.token_hash db'.sessions
        ≡ some (new_session now fresh (some user)) =
      ground (arith, c.sessions, c.token) in
    (
      ground (arith, c.own, c.alive, row, first),
      ended-active_user later user other db' same (λ s found.
          find-delete_where user other.token_hash db.sessions {s = s}
            (ground (arith, c.sessions, found, apart))),
    )
