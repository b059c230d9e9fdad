-- ===== src/Accounts/Sessions.antt =====
-- What a session of backend/app/accounts/service.py opens and when it ends.
use fillable.Common.{
  ℕ, ◌≡◌, ◌≢◌, refl, String, true, Option, none, some, List, [], ◌∷◌, arith, ok, err, Option-cases,
  inl, inr,
}
use fillable.Common.Table.{find, find-update, key-find, IsKeyed}
use fillable.Documents.Schema.{Db, User, user_key, session_key, authentication_required}
use fillable.Documents.Session.{SessionState, active_user}
use fillable.Documents.Rows.{find-delete}
use fillable.Accounts.Service.{
  Password, read_session, issue, logout, login, login_attempt, lock_attempt, sign_in, by_email,
  seen_at, rehashed,
}

-- When `read_session` returns the session of a signed-in user, `active_user` accepts it at that
-- moment as that user.
pub read_session-active_user :
    (now token user : ℕ) (state : SessionState) (db db' : Db)
    → read_session now (some token) db ≡ (some state, db')
    → state.user ≡ some user
    → active_user now state db' ≡ ok (user, db')
unfolding read_session active_user
read_session-active_user now token user state db db' h u =
    elim (Option-cases (find session_key token db.sessions)) [
      | inl missing ↦ absurd (ground arith)
      | inr (s, found) ↦
          let seen =
            find-update session_key s.token_hash s.token_hash (seen_at now) db.sessions
              (λ _ e. e) in
          let own = key-find session_key token db.sessions found in ground (arith, seen, own)
    ]

-- After a logout that drew another token than the old one, the old session authenticates nobody,
-- at any time.
pub logout-active_user :
    (now later fresh : ℕ) (state next : SessionState) (db db' : Db)
    → logout now fresh state.token_hash db ≡ ok (next, db')
    → fresh ≢ state.token_hash
    → active_user later state db' ≡ err authentication_required
unfolding logout issue active_user
logout-active_user now later fresh state next db db' h other =
    ground (arith, other, find-delete session_key state.token_hash db.sessions)

find-by_email :
    (email : String) (users : List User) {u : User}
    → IsKeyed user_key users
    → by_email email users ≡ some u
    → find user_key u.id users ≡ some u
find-by_email email [] keyed h = cc
find-by_email email (x ∷ us) {u} keyed h = ground (arith, find-by_email email us {u = u} keyed.1)

rehashed_id : (h : Option ℕ) (u : User) → (rehashed h u).id ≡ u.id
rehashed_id none u = refl
rehashed_id (some h) u = refl

rehashed_active : (h : Option ℕ) (u : User) → (rehashed h u).is_active ≡ u.is_active
rehashed_active none u = refl
rehashed_active (some h) u = refl

-- When the identities of the users are unique and a login succeeds, the password verifies against
-- the account of that email, and the new session authenticates it at once.
pub login-active_user :
    (now fresh token key : ℕ) (email : String) (password : Password) (db db' : Db)
    (state : SessionState)
    → IsKeyed user_key db.users
    → login now fresh token email key password db ≡ (ok state, db')
    → (u : User) × (by_email email db.users ≡ some u)
      × (password.verify u.password_hash ≡ true)
      × (active_user now state db' ≡ ok (u.id, db'))
unfolding login login_attempt lock_attempt sign_in issue active_user
login-active_user now fresh token key email password db db' state keyed h =
    elim (Option-cases (by_email email db.users)) [
      | inl missing ↦ absurd (ground arith)
      | inr (u, there) ↦
          let row = find-by_email email db.users {u = u} keyed there in
          let f = rehashed (password.rehash u.password_hash) in
          let kept =
            find-update user_key u.id u.id f db.users
              (λ r e. ground (arith, rehashed_id (password.rehash u.password_hash) r)) in
          let active = rehashed_active (password.rehash u.password_hash) u in
          (u, there, ground arith, ground (arith, row, kept, active))
    ]
