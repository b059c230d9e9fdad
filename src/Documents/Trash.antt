-- ===== src/Documents/Trash.antt =====
-- `owned`, `move`, `restore` and the transaction of `empty` of backend/app/documents/trash.py.
pub mod Recovery
use fillable.Common.{
  ℕ, ◌+◌, ◌*◌, Bool, true, false, not, ◌&&◌, ◌||◌, Option, none, some, List, [], ◌∷◌, ◌==◌, leb,
  is_none, if◌then◌else◌, ◌>>=◌, ◌>>◌, pure, gets, raise, raise_if, or_raise, modify,
}
use fillable.Common.Table.{find, update}
use fillable.Documents.Schema.{
  Db, Resource, ResourceState, resource_key, lease_key, authentication_required, not_found,
  operation_conflict, no_result, storage_error,
}
use fillable.Documents.Session.{Action, SessionState, active_user}
use fillable.Documents.Rows.{delete, update_where}
use fillable.Storage.Schema.{Account}
use fillable.Storage.Schema
use fillable.Storage.Service.{account_key}

abbrev pub is_trashed : ResourceState → Bool
is_trashed ResourceState.trashed = true
is_trashed _ = false

abbrev pub is_deleted : ResourceState → Bool
is_deleted ResourceState.deleted = true
is_deleted _ = false

abbrev pub is_active : ResourceState → Bool
is_active ResourceState.active = true
is_active _ = false

-- `lock_account` of the storage service, whose usage is not read here.
abbrev pub lock_owner : ℕ → Action Unit
lock_owner owner = do
  account ← gets (λ db. find account_key owner db.storage.accounts)
  raise_if (is_none account) (storage_error fillable.Storage.Schema.not_found)

unfoldable pub owned : ℕ → SessionState → ℕ → Action Resource
owned now state identity = do
  owner ← or_raise state.user authentication_required
  lock_owner owner
  _ ← active_user now state
  row ← or_raise (← gets (λ db. find resource_key identity db.resources)) not_found
  raise_if (not (row.owner_id == owner) || is_deleted row.state) not_found
  pure row

abbrev pub trash_seconds : ℕ
trash_seconds = 30 * 24 * 60 * 60

abbrev pub to_trash : ℕ → Resource → Resource
to_trash now r = record r {
  state = ResourceState.trashed;
  trashed_at = some now;
  purge_after = some (now + trash_seconds);
}

abbrev pub out_of_trash : Resource → Resource
out_of_trash r = record r { state = ResourceState.active; trashed_at = none; purge_after = none }

unfoldable pub move : ℕ → SessionState → ℕ → Action Unit
move now state identity = do
  row ← owned now state identity
  modify (λ db.
      if is_active row.state
      then record db {
        resources = update resource_key identity (to_trash now) db.resources;
        leases = delete lease_key identity db.leases;
      }
      else db)

-- `purge_after <= clock_timestamp()`; a row in the trash has one.
abbrev pub is_due : ℕ → Option ℕ → Action Bool
is_due now none = raise no_result
is_due now (some t) = pure (leb t now)

abbrev pub restore_row : ℕ → ℕ → Resource → Action Unit
restore_row now identity row = do
  due ← is_due now row.purge_after
  raise_if due operation_conflict
  modify (λ db. record db { resources = update resource_key identity out_of_trash db.resources })

unfoldable pub restore : ℕ → SessionState → ℕ → Action Unit
restore now state identity = do
  row ← owned now state identity
  if is_trashed row.state then restore_row now identity row else pure tt

abbrev pub is_trash_of : ℕ → Resource → Bool
is_trash_of owner r = r.owner_id == owner && is_trashed r.state

abbrev pub due_at : ℕ → Resource → Resource
due_at now r = record r { purge_after = some now }

-- The first transaction of `empty`: every document in the owner's trash is due at once.
unfoldable pub empty : ℕ → SessionState → Action Unit
empty now state = do
  owner ← or_raise state.user authentication_required
  lock_owner owner
  _ ← active_user now state
  modify
      (λ db. record db { resources = update_where (is_trash_of owner) (due_at now) db.resources })
