-- ===== src/Storage/Maintenance/Batches.antt =====
-- `reconcile` and `reconcile_accounts` of backend/app/storage/maintenance.py: a page of operations or of
-- accounts, each in transactions of its own. Audit rows are left out.
pub mod Books
use fillable.Common.{
  ℕ, ◌+◌, Bool, true, false, not, ◌&&◌, Option, none, some, List, [], ◌∷◌, ◌++◌, ◌==◌, leb, map,
  take, Outcome, ok, err, if◌then◌else◌,
}
use fillable.Common.Queries.{page, next_cursor, order_by}
use fillable.Storage.Schema.{
  Account, Reservation, StoredRow, FileState, Error, invalid_request, storage_failure, integrity,
  no_result,
}
use fillable.Storage.Service.{Policy, account_key, reservation_key}
use fillable.Storage.World.{World, Method, ◌>>=◌, ◌>>◌, done, in_db}
use fillable.Storage.Reading.{read}
use fillable.Storage.Recovering.{recover}
use fillable.Storage.Store.{Surroundings}
use fillable.Storage.Maintenance.{Deletion, delete_file, Status, reconcile_account}

pub data OperationStatus : Type 0 where
  deleted checked recovered busy : OperationStatus
  failed : Error → OperationStatus

-- What one operation meets: faults, locks and clocks of its three methods.
pub record Visit : Type 0 where
  pub deletion : Deletion
  pub read_lock : Option Error
  pub recovery : Surroundings

-- The file of a reservation; the column is unique.
abbrev pub file_of_operation : ℕ → List StoredRow → Option StoredRow
file_of_operation op [] = none
file_of_operation op (f ∷ fs) = if f.reservation_id == op then some f else file_of_operation op fs

abbrev or_busy : OperationStatus → Bool → OperationStatus
or_busy status true = status
or_busy status false = busy

-- The database's own errors are a `storage_failure`.
abbrev failure : Error → OperationStatus
failure integrity = failed storage_failure
failure no_result = failed storage_failure
failure e = failed e

abbrev pub status_of : Outcome Error OperationStatus → OperationStatus
status_of (ok status) = status
status_of (err e) = failure e

module _ (policy : Policy) (sha256 : List ℕ → ℕ) where
  abbrev pub recover_as : OperationStatus → Visit → Reservation → Method OperationStatus
  recover_as status v op = do
    done_there ← recover policy v.recovery op.owner_id op.id
    done (or_busy status done_there)

  abbrev pub visit_file : Visit → Reservation → Option StoredRow → Method OperationStatus
  visit_file v op none = recover_as recovered v op
  visit_file v op (some f) = elim f.state [
    | FileState.pending_delete ↦ (do delete_file v.deletion op.owner_id f.id; done deleted)
    | FileState.ready ↦ (do read sha256 v.read_lock op.owner_id f.id; recover_as checked v op)
    | FileState.staged ↦ recover_as recovered v op
    | FileState.deleted ↦ recover_as recovered v op
  ]

  abbrev pub visit_operation : Visit → Reservation → World → OperationStatus × World
  visit_operation v op w =
      let (r, w') = visit_file v op (file_of_operation op.id w.db.files) w in (status_of r, w')

  unfoldable pub visit_all :
      (ℕ → Visit) → List Reservation → World → List (ℕ × OperationStatus) × World
  visit_all visits [] w = ([], w)
  visit_all visits (op ∷ ops) w =
      let (status, w₁) = visit_operation (visits op.id) op w in
      let (rest, w₂) = visit_all visits ops w₁ in ((op.id, status) ∷ rest, w₂)

-- `account_result`: the status, or `storage_failure`.
abbrev pub account_status : Outcome Error Status → Option Status
account_status (ok status) = some status
account_status (err e) = none

unfoldable pub account_results : List ℕ → World → List (ℕ × Option Status) × World
account_results [] w = ([], w)
account_results (owner ∷ owners) w =
    let (r, w₁) = in_db (reconcile_account owner) w in
    let (rest, w₂) = account_results owners w₁ in ((owner, account_status r) ∷ rest, w₂)

abbrev pub self : ℕ → ℕ
self n = n

abbrev is_in : ℕ → List ℕ → Bool
is_in n [] = false
is_in n (x ∷ xs) = if x == n then true else is_in n xs

abbrev pub owners_of : List Reservation → List ℕ
owners_of [] = []
owners_of (op ∷ ops) =
    let rest = owners_of ops in if is_in op.owner_id rest then rest else op.owner_id ∷ rest

pub record Reconciled : Type 0 where
  pub operations : List (ℕ × OperationStatus)
  pub accounts : List (ℕ × Option Status)
  pub next : Option ℕ

abbrev pub batch_fits : ℕ → Bool
batch_fits batch = leb 1 batch && leb batch 500

unfoldable pub reconcile :
    Policy → (List ℕ → ℕ) → (ℕ → Visit) → Option ℕ → ℕ → World → Outcome Error Reconciled × World
reconcile policy sha256 visits after batch w =
    if not (batch_fits batch)
    then (err invalid_request, w)
    else (let rows = page reservation_key after batch w.db.reservations in
        let ops = take batch rows in
        let (results, w₁) = visit_all policy sha256 visits ops w in
        let (accounts, w₂) = account_results (order_by self (owners_of ops)) w₁ in
        (
          ok (record {
            operations = results;
            accounts = accounts;
            next = next_cursor reservation_key batch rows;
          }),
          w₂,
        ))

unfoldable pub reconcile_accounts :
    Option ℕ → ℕ → World → Outcome Error (List (ℕ × Option Status) × Option ℕ) × World
reconcile_accounts after batch w =
    if not (batch_fits batch)
    then (err invalid_request, w)
    else (let rows = page account_key after batch w.db.accounts in
        let (results, w') = account_results (map account_key (take batch rows)) w in
        (ok (results, next_cursor account_key batch rows), w'))
