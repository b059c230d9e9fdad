-- ===== src/Storage/Finishing.antt =====
-- `_result`, `_finish` and `_clean` of `class Storage` in backend/app/storage/service.py.
use fillable.Common.{
  ℕ, ◌+◌, Bool, true, false, not, ◌&&◌, ◌||◌, Option, none, some, List, [], ◌∷◌, ◌==◌, is_some,
  if◌then◌else◌, ◌>>=◌, ◌>>◌, pure, gets, or_raise, raise_if, modify,
}
use fillable.Common.Table.{find, update}
use fillable.Storage.Schema.{
  Account, Reservation, ReservationState, StoredRow, FileState, in_bounds, not_found, integrity,
  no_result,
}
use fillable.Storage.Service.{
  Policy, Env, Operation, StoredFile, Action, reservation_key, file_key, lock_account, minus,
  write_account, write_reservation, capacity, operation,
}

-- `_result`: the ready file of an operation.
abbrev pub file_of : ℕ → List StoredRow → Option StoredRow
file_of op [] = none
file_of op (f ∷ fs) = if f.reservation_id == op then some f else file_of op fs

abbrev pub is_ready : FileState → Bool
is_ready FileState.ready = true
is_ready _ = false

unfoldable pub result : ℕ → ℕ → Action StoredFile
result op owner = do
  row ← or_raise (← gets (λ db. file_of op db.files)) not_found
  raise_if (not (row.owner_id == owner && is_ready row.state)) not_found
  pure (record {
    id = row.id;
    owner_id = row.owner_id;
    size_bytes = row.size_bytes;
    digest = row.digest;
  })

-- The foreign key (reservation_id, id, owner_id) of `stored_files`.
abbrev references : StoredRow → Option Reservation → Bool
references f none = false
references f (some r) = r.file_id == f.id && r.owner_id == f.owner_id

-- INSERT into stored_files under its keys and CHECK constraints.
unfoldable pub insert_file : StoredRow → Action Unit
insert_file f = do
  taken ←
      gets
        (λ db. is_some (find file_key f.id db.files) || is_some (file_of f.reservation_id db.files))
  linked ← gets (λ db. references f (find reservation_key f.reservation_id db.reservations))
  raise_if (taken || not linked || not (in_bounds f.size_bytes)) integrity
  modify (λ db. record db { files = f ∷ db.files })

abbrev pub in_state : Env → ReservationState → Reservation → Reservation
in_state env state row = record row { state = state; updated_at = env.now }

abbrev pub staged_row : Operation → ℕ → ℕ → StoredRow
staged_row op size digest = record {
  id = op.file_id;
  owner_id = op.owner_id;
  reservation_id = op.id;
  size_bytes = size;
  digest = digest;
  state = FileState.staged;
  ready_at = none;
  deleted_at = none;
}

-- The first transaction of `_finish`: the file's row, staged.
unfoldable pub finish_staged : Env → Operation → ℕ → ℕ → Action Unit
finish_staged env op size digest = do
  lock_account op.owner_id
  operation op
  insert_file (staged_row op size digest)
  write_reservation op.id (in_state env ReservationState.staged)

abbrev pub made_ready : Env → StoredRow → StoredRow
made_ready env f = record f { state = FileState.ready; ready_at = some env.now }

-- The second, in two halves about `fs.publish` and the caller's `finalize`, which work inside it.
unfoldable pub finish_check : Policy → Env → Operation → Action (Account × Reservation)
finish_check policy env op = do
  (account, usage) ← lock_account op.owner_id
  row ← operation op
  capacity policy env usage 0
  pure (account, row)

unfoldable pub finish_commit : Env → Operation → ℕ → Account → Reservation → Action Unit
finish_commit env op size account row = do
  modify (λ db. record db { files = update file_key op.file_id (made_ready env) db.files })
  reserved ← minus account.reserved_bytes row.allocated_bytes
  write_account
      (record account { used_bytes = account.used_bytes + size; reserved_bytes = reserved })
  write_reservation op.id (in_state env ReservationState.committed)

-- The transactions of `_clean` before and after `fs.clean`. The first gives back nothing when the
-- operation is aborted already, and otherwise whether it is committed.
abbrev pub is_committed : ReservationState → Bool
is_committed ReservationState.committed = true
is_committed _ = false

abbrev pub is_aborted : ReservationState → Bool
is_aborted ReservationState.aborted = true
is_aborted _ = false

unfoldable pub clean_mark : Env → Operation → Action (Option Bool)
clean_mark env op = do
  lock_account op.owner_id
  row ← or_raise (← gets (λ db. find reservation_key op.id db.reservations)) no_result
  let mark : Action (Option Bool) = do
    write_reservation op.id (in_state env ReservationState.cleanup_pending)
    pure (some false)
  if is_aborted row.state
      then pure none
      else if is_committed row.state
      then pure (some true)
      else mark

abbrev pub made_deleted : Env → StoredRow → StoredRow
made_deleted env f = record f { state = FileState.deleted; deleted_at = some env.now }

-- UPDATE stored_files WHERE reservation_id
abbrev pub update_file_of : ℕ → (StoredRow → StoredRow) → List StoredRow → List StoredRow
update_file_of op f [] = []
update_file_of op f (r ∷ rs) = (if r.reservation_id == op then f r else r) ∷ update_file_of op f rs

unfoldable pub clean_release : Env → Operation → Action Unit
clean_release env op = do
  (account, _) ← lock_account op.owner_id
  row ← operation op
  reserved ← minus account.reserved_bytes row.allocated_bytes
  write_account (record account { reserved_bytes = reserved })
  modify (λ db. record db { files = update_file_of op.id (made_deleted env) db.files })
  write_reservation op.id (in_state env ReservationState.aborted)
