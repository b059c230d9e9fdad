-- ===== src/Accounts/Service.antt =====
-- `read_session`, `issue`, `lock_attempt`, `login` and `logout` of backend/app/accounts/service.py.
-- A token stands by its hash; a token that is missing or malformed is `none`. The fresh token of
-- `issue`, the password check of Argon2 and its rehash are arguments.
use fillable.Common.{
  ℕ, ◌+◌, ◌*◌, String, Bool, false, not, ◌&&◌, ◌||◌, Option, none, some, List, [], ◌∷◌, leb, ltb,
  is_some, str_eq, if◌then◌else◌, ◌>>=◌, ◌>>◌, pure, gets, or_raise, raise_if, modify, Outcome, ok,
  err,
}
use fillable.Common.Table.{find, update}
use fillable.Documents.Schema.{
  Db, User, Session, LoginAttempt, AppError, user_key, session_key, integrity, no_result, forbidden,
  rate_limited, invalid_credentials,
}
use fillable.Documents.Session.{Action, SessionState, idle_seconds}
use fillable.Documents.Rows.{delete}

abbrev pub auth_seconds : ℕ
auth_seconds = 12 * 60 * 60

abbrev pub anonymous_seconds : ℕ
anonymous_seconds = 15 * 60

abbrev pub attempt_key_of : LoginAttempt → ℕ
attempt_key_of a = a.key

-- DELETE … WHERE p
abbrev pub delete_where : {A : Type 0} → (A → Bool) → List A → List A
delete_where p [] = []
delete_where p (r ∷ rs) = if p r then delete_where p rs else r ∷ delete_where p rs

abbrev pub new_session : ℕ → ℕ → Option ℕ → Session
new_session now fresh user = record {
  token_hash = fresh;
  user_id = user;
  expires_at = now + (if is_some user then auth_seconds else anonymous_seconds);
  last_seen_at = now;
}

unfoldable pub issue : ℕ → ℕ → Option ℕ → Action SessionState
issue now fresh user = do
  taken ← gets (λ db. is_some (find session_key fresh db.sessions))
  raise_if taken integrity
  modify (λ db. record db { sessions = new_session now fresh user ∷ db.sessions })
  pure (record { token_hash = fresh; user = user })

abbrev pub active_account : Db → ℕ → Bool
active_account db user = elim (find user_key user db.users) [ none ↦ false | some u ↦ u.is_active ]

-- Expired, idle, or of an account that is gone or inactive.
abbrev pub is_over : ℕ → Db → Session → Bool
is_over now db s =
    leb s.expires_at now
    || leb (s.last_seen_at + idle_seconds) now
    || elim s.user_id [ none ↦ false | some u ↦ not (active_account db u) ]

abbrev pub seen_at : ℕ → Session → Session
seen_at now s = record s { last_seen_at = now }

abbrev pub read_row : ℕ → Db → Option Session → Option SessionState × Db
read_row now db none = (none, db)
read_row now db (some s) =
    if is_over now db s
    then (none, record db { sessions = delete session_key s.token_hash db.sessions })
    else (
      some (record { token_hash = s.token_hash; user = s.user_id }),
      record db { sessions = update session_key s.token_hash (seen_at now) db.sessions },
    )

unfoldable pub read_session : ℕ → Option ℕ → Db → Option SessionState × Db
read_session now none db = (none, db)
read_session now (some token) db = read_row now db (find session_key token db.sessions)

abbrev pub bucket_seconds : ℕ
bucket_seconds = 15 * 60

abbrev pub has_lapsed : ℕ → LoginAttempt → Bool
has_lapsed now a = leb a.expires_at now

abbrev pub or_insert : ℕ → ℕ → List LoginAttempt → List LoginAttempt
or_insert now key rows = elim (find attempt_key_of key rows) [
  | none ↦ record { key = key; count = 0; expires_at = now + bucket_seconds } ∷ rows
  | some _ ↦ rows
]

-- `lock_attempt`: the lapsed buckets go, and the key's own is made if it is not there.
unfoldable pub lock_attempt : ℕ → ℕ → Action LoginAttempt
lock_attempt now key = do
  modify
      (λ db. record db { attempts = or_insert now key (delete_where (has_lapsed now) db.attempts) })
  or_raise (← gets (λ db. find attempt_key_of key db.attempts)) no_result

abbrev pub counted : LoginAttempt → LoginAttempt
counted a = record a { count = a.count + 1 }

abbrev pub by_email : String → List User → Option User
by_email email [] = none
by_email email (u ∷ us) = if str_eq u.email email then some u else by_email email us

-- What a password does against a stored hash, and the hash that replaces it, if one is due.
pub record Password : Type 0 where
  pub verify : ℕ → Bool
  pub rehash : ℕ → Option ℕ

abbrev pub rehashed : Option ℕ → User → User
rehashed none u = u
rehashed (some h) u = record u { password_hash = h }

abbrev live_token : ℕ → Option Session → Bool
live_token now none = false
live_token now (some s) = ltb now s.expires_at

unfoldable pub sign_in : ℕ → ℕ → ℕ → ℕ → Password → User → Action SessionState
sign_in now fresh token key password u = do
  live ← gets (λ db. live_token now (find session_key token db.sessions))
  raise_if (not live) forbidden
  modify (λ db. record db {
    sessions = delete session_key token db.sessions;
    users = update user_key u.id (rehashed (password.rehash u.password_hash)) db.users;
    attempts = delete attempt_key_of key db.attempts;
  })
  issue now fresh (some u.id)

pub data Attempted : Type 0 where
  limited rejected : Attempted
  entered : SessionState → Attempted

abbrev enter : ℕ → ℕ → ℕ → ℕ → Password → User → Action Attempted
enter now fresh token key password u = do
  state ← sign_in now fresh token key password u
  pure (entered state)

abbrev pub try_account : ℕ → ℕ → ℕ → ℕ → Password → Option User → Action Attempted
try_account now fresh token key password none = pure rejected
try_account now fresh token key password (some u) =
    if password.verify u.password_hash && u.is_active
    then enter now fresh token key password u
    else pure rejected

abbrev pub max_attempts : ℕ
max_attempts = 5

abbrev count_and_check : ℕ → ℕ → ℕ → String → ℕ → Password → Action Attempted
count_and_check now fresh token email key password = do
  modify (λ db. record db { attempts = update attempt_key_of key counted db.attempts })
  account ← gets (λ db. by_email email db.users)
  try_account now fresh token key password account

abbrev pub check_password : ℕ → ℕ → ℕ → String → ℕ → Password → LoginAttempt → Action Attempted
check_password now fresh token email key password bucket =
    if leb max_attempts bucket.count
    then pure limited
    else count_and_check now fresh token email key password

-- The transaction of `login`; `email` is stripped and folded, and `key` is its `attempt_key`.
unfoldable pub login_attempt : ℕ → ℕ → ℕ → String → ℕ → Password → Action Attempted
login_attempt now fresh token email key password = do
  bucket ← lock_attempt now key
  check_password now fresh token email key password bucket

abbrev pub answer : Attempted → Outcome AppError SessionState
answer limited = err rate_limited
answer rejected = err invalid_credentials
answer (entered state) = ok state

abbrev pub answered : Outcome AppError (Attempted × Db) → Db → Outcome AppError SessionState × Db
answered (err e) db = (err e, db)
answered (ok (r, db')) db = (answer r, db')

-- A failed attempt is committed before its error is raised.
unfoldable pub login : ℕ → ℕ → ℕ → String → ℕ → Password → Db → Outcome AppError SessionState × Db
login now fresh token email key password db =
    answered (login_attempt now fresh token email key password db) db

unfoldable pub logout : ℕ → ℕ → ℕ → Action SessionState
logout now fresh token = do
  modify (λ db. record db { sessions = delete session_key token db.sessions })
  issue now fresh none
