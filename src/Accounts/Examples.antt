-- ===== src/Accounts/Examples.antt =====
-- Runs of the sessions and logins at concrete inputs (backend/app/accounts/service.py).
use fillable.Common.{◌≡◌, refl, true, false, none, some, [], ◌∷◌, ◌==◌, ok, err, arith}
use fillable.Storage.Schema
use fillable.Documents.Schema.{
  Db, User, Session, LoginAttempt, rate_limited, authentication_required,
}
use fillable.Documents.Session.{SessionState, active_user}
use fillable.Accounts.Service.{
  Password, login, login_attempt, lock_attempt, sign_in, issue, by_email, seen_at, new_session,
}
use fillable.Accounts.Passwords.{with_hash, reset_password, change_password, change_attempt}
use fillable.Accounts.Passwords.Fencing.{change_password-active_user}
use fillable.Accounts.Throttle.{guesses, guesses_limited}
use fillable.Accounts.Sessions.{login-active_user}

abbrev user : User
user = record { id = 7; email = "ann"; password_hash = 77; is_active = true }

abbrev session : Session
session = record { token_hash = 31; user_id = some 7; expires_at = 90000; last_seen_at = 50000 }

abbrev anonymous : Session
anonymous = record { token_hash = 32; user_id = none; expires_at = 90000; last_seen_at = 50000 }

abbrev bucket : LoginAttempt
bucket = record { key = 5; count = 3; expires_at = 50900 }

abbrev storage : fillable.Storage.Schema.Db
storage = record {
  default_limit = 200;
  settings_revision = 1;
  accounts = [];
  reservations = [];
  files = [];
}

abbrev db : Db
db = record {
  storage = storage;
  users = user ∷ [];
  sessions = session ∷ anonymous ∷ [];
  attempts = bucket ∷ [];
  resources = [];
  versions = [];
  leases = [];
  jobs = [];
  keep_latest = none;
  policy_revision = 0;
}

abbrev right : Password
right = record { verify = λ hash. hash == 77; rehash = λ _. some 78 }

abbrev wrong : Password
wrong = record { verify = λ _. false; rehash = λ _. none }

abbrev full : Db
full = record db { attempts = record bucket { count = 5 } ∷ [] }

guesses_limited_example :
    (login 50003 33 32 "ann" 5 right (guesses 32 5 "ann" wrong (50001 ∷ 50002 ∷ []) db)).0
    ≡ err rate_limited
guesses_limited_example =
    guesses_limited 32 5 "ann" wrong (50001 ∷ 50002 ∷ []) db bucket 50003 33 right (λ _. refl) refl
      (omega arith, (omega arith, tt)) (omega arith) (omega arith)

abbrev state : SessionState
state = record { token_hash = 31; user = some 7 }

abbrev seen : Db
seen = record db { sessions = seen_at 50010 session ∷ anonymous ∷ [] }

abbrev left : Db
left = record db { sessions = new_session 50010 34 none ∷ anonymous ∷ [] }

abbrev entered_db : Db
entered_db = record db {
  users = record user { password_hash = 78 } ∷ [];
  sessions = new_session 50010 33 (some 7) ∷ session ∷ [];
  attempts = [];
}

login-active_user_example :
    (u : User) × (by_email "ann" db.users ≡ some u)
    × (right.verify u.password_hash ≡ true)
    × (active_user 50010 (record { token_hash = 33; user = some 7 }) entered_db
        ≡ ok (u.id, entered_db))
unfolding login login_attempt lock_attempt sign_in issue
login-active_user_example =
    login-active_user 50010 33 32 5 "ann" right db entered_db
      (record { token_hash = 33; user = some 7 }) (refl, tt) refl

abbrev after_reset : Db
after_reset = record db { users = with_hash 79 user ∷ []; sessions = anonymous ∷ []; attempts = [] }

reset_run : reset_password 50001 "ann" 5 12 79 db ≡ ok (tt, after_reset)
unfolding reset_password lock_attempt
reset_run = refl

abbrev after_change : Db
after_change = record db {
  users = with_hash 79 user ∷ [];
  sessions = new_session 50001 33 (some 7) ∷ anonymous ∷ [];
  attempts = bucket ∷ [];
}

abbrev next_state : SessionState
next_state = record { token_hash = 33; user = some 7 }

change_run : change_password 50001 33 state 6 right 79 db ≡ (ok next_state, after_change)
unfolding change_password change_attempt lock_attempt active_user issue
change_run = refl

change_password-active_user_example :
    (active_user 50001 next_state after_change ≡ ok (7, after_change))
    × (active_user 50002 state after_change ≡ err authentication_required)
change_password-active_user_example =
    change_password-active_user 50001 50002 33 6 79 7 state next_state state right db after_change
      change_run refl refl (λ e. omega (arith, e))
