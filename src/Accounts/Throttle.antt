-- ===== src/Accounts/Throttle.antt =====
-- The throttling of `login` in backend/app/accounts/service.py.
use fillable.Common.{
  ℕ, ◌+◌, ◌≡◌, ◌≤◌, ◌<◌, ◌⊎◌, refl, String, false, some, List, [], ◌∷◌, ltb, arith, err, All,
  length, Bool-cases, Option-cases, inl, inr,
}
use fillable.Common.Table.{find, find-update}
use fillable.Documents.Schema.{Db, LoginAttempt, rate_limited}
use fillable.Accounts.Service.{
  Password, attempt_key_of, delete_where, has_lapsed, or_insert, lock_attempt, login_attempt, login,
  counted, by_email, max_attempts,
}

-- A bucket that has not lapsed stays.
find-delete_where :
    (now key : ℕ) (rows : List LoginAttempt) {a : LoginAttempt}
    → find attempt_key_of key rows ≡ some a
    → now < a.expires_at
    → find attempt_key_of key (delete_where (has_lapsed now) rows) ≡ some a
find-delete_where now key [] h l = cc
find-delete_where now key (r ∷ rs) {a} h l = ground (arith, find-delete_where now key rs {a = a})

find-or_insert :
    (now key : ℕ) (rows : List LoginAttempt) {a : LoginAttempt}
    → find attempt_key_of key rows ≡ some a
    → now < a.expires_at
    → find attempt_key_of key (or_insert now key (delete_where (has_lapsed now) rows)) ≡ some a
find-or_insert now key rows {a} h l =
    let kept = find-delete_where now key rows {a = a} h l in ground (arith, kept)

-- While the bucket of an account has not lapsed and has five attempts, a login is refused as rate
-- limited, whatever its password, changes no session and no account, and leaves the bucket as it
-- was.
pub login_limited :
    (now fresh token key : ℕ) (email : String) (password : Password) (db : Db) (a : LoginAttempt)
    → find attempt_key_of key db.attempts ≡ some a
    → now < a.expires_at
    → max_attempts ≤ a.count
    → (db' : Db) × (login now fresh token email key password db ≡ (err rate_limited, db'))
      × (db'.sessions ≡ db.sessions)
      × (db'.users ≡ db.users)
      × (find attempt_key_of key db'.attempts ≡ some a)
unfolding login login_attempt lock_attempt
login_limited now fresh token key email password db a found live full =
    let kept = find-or_insert now key db.attempts {a = a} found live in
    (
      record db { attempts = or_insert now key (delete_where (has_lapsed now) db.attempts) },
      ground (arith, kept),
      refl,
      refl,
      kept,
    )

-- A wrong password is counted, and changes no session and no account.
login_wrong :
    (now fresh token key : ℕ) (email : String) (password : Password) (db : Db) (a : LoginAttempt)
    → ((hash : ℕ) → password.verify hash ≡ false)
    → find attempt_key_of key db.attempts ≡ some a
    → now < a.expires_at
    → a.count < max_attempts
    → find attempt_key_of key (login now fresh token email key password db).1.attempts
      ≡ some (counted a)
unfolding login login_attempt lock_attempt
login_wrong now fresh token key email password db a wrong found live few =
    let kept = find-or_insert now key db.attempts {a = a} found live in
    let more =
      find-update attempt_key_of key key counted
        (or_insert now key (delete_where (has_lapsed now) db.attempts)) (λ _ e. e) in
    elim (Option-cases (by_email email db.users)) [
      | inl missing ↦ ground (arith, kept, more)
      | inr (u, there) ↦ ground (arith, kept, more, wrong u.password_hash)
    ]

-- Logins with one wrong password for one account at the given times.
abbrev pub guesses : ℕ → ℕ → String → Password → List ℕ → Db → Db
guesses token key email password [] db = db
guesses token key email password (now ∷ times) db =
    guesses token key email password times (login now 0 token email key password db).1

-- The bucket after them: every guess was counted, or the bucket is full.
guesses-count :
    (token key : ℕ) (email : String) (password : Password) (times : List ℕ) (db : Db)
    (a : LoginAttempt)
    → ((hash : ℕ) → password.verify hash ≡ false)
    → find attempt_key_of key db.attempts ≡ some a
    → All (λ t. t < a.expires_at) times
    → (b : LoginAttempt) × (find attempt_key_of key
          (guesses token key email password times db).attempts
        ≡ some b)
      × (b.expires_at ≡ a.expires_at)
      × ((a.count + length times ≤ b.count) ⊎ (max_attempts ≤ b.count))
guesses-count token key email password [] db a wrong found early =
    (a, found, refl, inl (omega arith))
guesses-count token key email password (now ∷ times) db a wrong found early =
    elim (Bool-cases (ltb a.count max_attempts)) [
      | inl few ↦
          let next =
            login_wrong now 0 token key email password db a wrong found early.0 (ground arith) in
          let (b, there, same, enough) =
            guesses-count token key email password times (login now 0 token email key password db).1
              (counted a) wrong next early.1 in
          (b, there, same, ground (arith, enough))
      | inr full ↦
          let (db', answer, _, _, kept) =
            login_limited now 0 token key email password db a found early.0 (ground arith) in
          let (b, there, same, enough) =
            guesses-count token key email password times (login now 0 token email key password db).1
              a wrong (ground (arith, answer, kept)) early.1 in
          (b, there, same, ground (arith, enough))
    ]

-- After wrong guesses of one password, made before the bucket of the account lapses and filling it
-- up to five attempts, a login before it lapses is refused as rate limited, whatever its password.
pub guesses_limited :
    (token key : ℕ) (email : String) (password : Password) (times : List ℕ) (db : Db)
    (a : LoginAttempt) (now fresh : ℕ) (right : Password)
    → ((hash : ℕ) → password.verify hash ≡ false)
    → find attempt_key_of key db.attempts ≡ some a
    → All (λ t. t < a.expires_at) times
    → max_attempts ≤ a.count + length times
    → now < a.expires_at
    → (login now fresh token email key right (guesses token key email password times db)).0
      ≡ err rate_limited
guesses_limited token key email password times db a now fresh right wrong found early many soon =
    let (b, there, same, enough) =
      guesses-count token key email password times db a wrong found early in
    let (db', answer, _, _, _) =
      login_limited now fresh token key email right (guesses token key email password times db) b
        there (ground (arith, same)) (ground (arith, enough)) in
    ground (arith, answer)
