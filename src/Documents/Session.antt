-- ===== src/Documents/Session.antt =====
-- `active_user` of backend/app/accounts/profile.py, which every owner's transaction begins with, and
-- the rows of an owner.
use fillable.Common.{
  ℕ, ◌+◌, ◌*◌, Bool, true, false, not, ◌&&◌, Option, none, some, ◌==◌, ltb, eq_option, Tx, ◌>>=◌,
  ◌>>◌, or_raise, gets, raise_if, pure,
}
use fillable.Common.Table.{find}
use fillable.Documents.Schema.{
  Db, User, Session, Resource, ResourceState, AppError, authentication_required, not_found,
  user_key, session_key, resource_key,
}

abbrev pub Action : Type 0 → Type 0
Action A = Tx Db AppError A

abbrev pub idle_seconds : ℕ
idle_seconds = 30 * 60

-- `SessionState`: the token by its hash, and the identity of the user, if one is signed in.
pub record SessionState : Type 0 where
  pub token_hash : ℕ
  pub user : Option ℕ

-- expires_at > now, and last_seen_at > now - IDLE_SECONDS
abbrev pub is_live : ℕ → Session → Bool
is_live now s = ltb now s.expires_at && ltb now (s.last_seen_at + idle_seconds)

abbrev active_row : Option User → Bool
active_row none = false
active_row (some u) = u.is_active

abbrev live_row : ℕ → ℕ → Option Session → Bool
live_row now user none = false
live_row now user (some s) = eq_option s.user_id (some user) && is_live now s

unfoldable pub active_user : ℕ → SessionState → Action ℕ
active_user now state = do
  user ← or_raise state.user authentication_required
  account ← gets (λ db. find user_key user db.users)
  session ← gets (λ db. find session_key state.token_hash db.sessions)
  raise_if (not (active_row account && live_row now user session)) authentication_required
  pure user

abbrev pub is_active_state : ResourceState → Bool
is_active_state ResourceState.active = true
is_active_state _ = false

abbrev owned : ℕ → Option Resource → Bool
owned owner none = false
owned owner (some r) = r.owner_id == owner && is_active_state r.state

-- The active resource of an owner, or 404.
unfoldable pub resource : ℕ → ℕ → Action Resource
resource owner identity = do
  row ← or_raise (← gets (λ db. find resource_key identity db.resources)) not_found
  raise_if (not (row.owner_id == owner && is_active_state row.state)) not_found
  pure row
