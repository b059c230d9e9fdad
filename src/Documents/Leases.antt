-- ===== src/Documents/Leases.antt =====
-- `change` of backend/app/documents/leases.py: acquiring, renewing and releasing.
pub mod Exclusion
use fillable.Common.{
  ℕ, ◌+◌, Bool, true, false, not, ◌&&◌, ◌||◌, Option, none, some, List, [], ◌∷◌, ◌==◌, ltb,
  eq_option, if◌then◌else◌, ◌>>=◌, ◌>>◌, pure, gets, raise_if, modify, Outcome, ok, err,
}
use fillable.Common.Table.{find, update}
use fillable.Documents.Schema.{
  Db, Lease, Session, Resource, lease_key, session_key, revision_conflict, not_found, lease_lost,
  lease_busy,
}
use fillable.Documents.Session.{Action, SessionState, active_user, resource, is_live}
use fillable.Documents.Rows.{delete, is_visible}

abbrev pub lease_seconds : ℕ
lease_seconds = 60

pub data LeaseAction : Type 0 where
  acquire renew release : LeaseAction

pub record LeaseRequest : Type 0 where
  pub action : LeaseAction
  pub source_version_id : ℕ
  pub client_id : ℕ
  pub lease_id : Option ℕ

-- `LeaseInfo`; `active` is its status.
pub record LeaseInfo : Type 0 where
  pub active : Bool
  pub source_version_id : ℕ
  pub lease_id : Option ℕ
  pub expires_at : Option ℕ
  pub valid_for_seconds : ℕ

-- The row is the same editor's: session and browser tab.
abbrev pub is_same : SessionState → LeaseRequest → Option Lease → Bool
is_same state request none = false
is_same state request (some l) =
    l.session_hash == state.token_hash && l.client_id == request.client_id

abbrev pub is_generation : SessionState → LeaseRequest → Option Lease → Bool
is_generation state request none = false
is_generation state request (some l) =
    is_same state request (some l)
    && eq_option (some l.lease_id) request.lease_id
    && l.source_version_id == request.source_version_id

abbrev live_session : ℕ → ℕ → Option Session → Bool
live_session now owner none = false
live_session now owner (some s) = eq_option s.user_id (some owner) && is_live now s

-- The row is in force: not expired, and its session still signed in as the owner.
abbrev pub in_force : ℕ → ℕ → Db → Option Lease → Bool
in_force now owner db none = false
in_force now owner db (some l) =
    ltb now l.expires_at && live_session now owner (find session_key l.session_hash db.sessions)

abbrev is_renew : LeaseAction → Bool
is_renew LeaseAction.renew = true
is_renew _ = false

abbrev is_acquire : LeaseAction → Bool
is_acquire LeaseAction.acquire = true
is_acquire _ = false

abbrev pub is_release : LeaseAction → Bool
is_release LeaseAction.release = true
is_release _ = false

abbrev pub kept_token : LeaseRequest → ℕ → Option Lease → ℕ
kept_token request fresh none = fresh
kept_token request fresh (some l) =
    if l.source_version_id == request.source_version_id then l.lease_id else fresh

-- `identity_token`: the row's own while the same editor holds it at the same revision.
abbrev pub token_of : Bool → LeaseRequest → ℕ → Option Lease → ℕ
token_of held request fresh row = if held then kept_token request fresh row else fresh

abbrev pub lease_row : ℕ → ℕ → ℕ → SessionState → LeaseRequest → ℕ → Lease
lease_row now owner identity state request token = record {
  document_id = identity;
  owner_id = owner;
  source_version_id = request.source_version_id;
  session_hash = state.token_hash;
  client_id = request.client_id;
  lease_id = token;
  expires_at = now + lease_seconds;
}

abbrev pub write_lease : Option Lease → Lease → List Lease → List Lease
write_lease none l rows = l ∷ rows
write_lease (some _) l rows = update lease_key l.document_id (λ _. l) rows

abbrev released : LeaseRequest → LeaseInfo
released request = record {
  active = false;
  source_version_id = request.source_version_id;
  lease_id = request.lease_id;
  expires_at = none;
  valid_for_seconds = 0;
}

abbrev pub granted : ℕ → LeaseRequest → ℕ → LeaseInfo
granted now request token = record {
  active = true;
  source_version_id = request.source_version_id;
  lease_id = some token;
  expires_at = some (now + lease_seconds);
  valid_for_seconds = lease_seconds;
}

-- The branch of a release.
abbrev pub release_row : ℕ → LeaseRequest → Bool → Action LeaseInfo
release_row identity request generation = do
  modify
      (λ db. if generation then record db { leases = delete lease_key identity db.leases } else db)
  pure (released request)

-- The branch of an acquisition or a renewal; `fresh` is the identity that `uuid4` would draw.
unfoldable pub take_row :
    ℕ → ℕ → ℕ → ℕ → SessionState → LeaseRequest → Resource → Option Lease → Action LeaseInfo
take_row now fresh owner identity state request document row = do
  raise_if (not (document.current_version_id == request.source_version_id)) revision_conflict
  visible ← gets (λ db. is_visible db owner identity)
  raise_if (not visible) not_found
  live ← gets (λ db. in_force now owner db row)
  raise_if (is_renew request.action && not (live && is_generation state request row)) lease_lost
  raise_if (is_acquire request.action && live && not (is_same state request row)) lease_busy
  token ← pure (token_of (live && is_same state request row) request fresh row)
  modify (λ db. record db {
    leases = write_lease row (lease_row now owner identity state request token) db.leases;
  })
  pure (granted now request token)

unfoldable pub change : ℕ → ℕ → SessionState → ℕ → LeaseRequest → Action LeaseInfo
change now fresh state identity request = do
  owner ← active_user now state
  document ← resource owner identity
  row ← gets (λ db. find lease_key identity db.leases)
  if is_release request.action
      then release_row identity request (is_generation state request row)
      else take_row now fresh owner identity state request document row
