-- ===== src/Storage/Maintenance.antt =====
-- `delete_file`, `reconcile_account` and `capacity` of backend/app/storage/maintenance.py, and the
-- operator's changes of backend/app/storage/quotas.py. Audit rows are written and never read by
-- this code: they are left out.
pub mod Marking
pub mod Books
pub mod Reconciling
pub mod Batches
use fillable.Common.{
  ℕ, ◌+◌, ◌-◌, Bool, true, false, not, ◌&&◌, ◌||◌, Option, none, some, ◌==◌, leb, ltb, max,
  eq_option, if◌then◌else◌, Tx, ok, err, or_raise, pure, raise, raise_if, gets, modify, Outcome,
}
use fillable.Common.Table.{find, update, sum}
use fillable.Storage.Schema.{
  Account, Reservation, StoredRow, FileState, Db, Error, active, in_bounds, max_bytes,
  optional_in_bounds, not_found, no_result, operation_in_progress, integrity, invalid_request,
}
use fillable.Storage.Service.{
  Action, Policy, Env, account_key, file_key, lock_account, minus, write_account, allocated_active,
  promised_active,
}
use fillable.Storage.Finishing.{made_deleted}
use fillable.Storage.Accounting.{charged, reserved_for, used_for}
use fillable.Storage.World.{World, Method, in_db, in_fs, done, throw}
use fillable.Storage.World.{◌>>=◌, ◌>>◌}
use fillable.Storage.Store.{fails}
use fillable.Storage.Reading.{read_outcome}
use fillable.Storage.FileSystem.{remove as remove_links}

abbrev is_deleted : FileState → Bool
is_deleted FileState.deleted = true
is_deleted _ = false

abbrev pub made_pending : StoredRow → StoredRow
made_pending f = record f { state = FileState.pending_delete }

abbrev pub owned_file : ℕ → ℕ → Db → Option StoredRow
owned_file owner file db = elim (find file_key file db.files) [
  | none ↦ none
  | some f ↦ if f.owner_id == owner then some f else none
]

-- What the mark does by the file's state: `false` means that it was deleted already. `authorize` is
-- the caller's callback, which may refuse.
abbrev pub mark : Option Error → StoredRow → Action (Option StoredRow)
mark authorize f = elim f.state [
  | FileState.deleted ↦ pure none
  | FileState.staged ↦ raise operation_in_progress
  | FileState.pending_delete ↦ pure (some f)
  | FileState.ready ↦ elim authorize [
    | some e ↦ raise e
    | none ↦ λ db. ok (some f, record db { files = update file_key f.id made_pending db.files })
  ]
]

unfoldable pub delete_mark : Option Error → ℕ → ℕ → Action (Option StoredRow)
delete_mark authorize owner file db = elim (lock_account owner db) [
  | err e ↦ err e
  | ok (_, db₁) ↦ elim (owned_file owner file db₁) [
    | none ↦ err no_result
    | some f ↦ mark authorize f db₁
  ]
]

unfoldable pub delete_commit : Env → ℕ → ℕ → ℕ → Action Unit
delete_commit env owner file size db = elim (lock_account owner db) [
  | err e ↦ err e
  | ok ((account, _), db₁) ↦
      let db₂ : Db = record db₁ { files = update file_key file (made_deleted env) db₁.files } in
      if ltb account.used_bytes size
      then err integrity
      else write_account (record account { used_bytes = account.used_bytes - size }) db₂
]

-- The surroundings of one `delete_file`.
pub record Deletion : Type 0 where
  pub lock : Option Error
  pub authorize : Option Error
  pub remove : Option Error
  pub env : Env

-- `delete_file`: nothing is released before both links are gone.
abbrev pub unlink : Deletion → ℕ → ℕ → Option StoredRow → Method Bool
unlink d owner file none = done false
unlink d owner file (some row) = do
  fails d.remove
  in_fs (remove_links row.reservation_id owner file)
  in_db (delete_commit d.env owner file row.size_bytes)
  done true

abbrev pub present : Option StoredRow → Method Unit
present none = throw not_found
present (some _) = done tt

unfoldable pub delete_file : Deletion → ℕ → ℕ → Method Bool
delete_file d owner file w = read_outcome (
    (do
      present (owned_file owner file w.db)
      fails d.lock
      row ← in_db (delete_mark d.authorize owner file)
      unlink d owner file row)
      w)

pub data Status : Type 0 where
  checked repaired repair_required : Status

-- `reconcile_account`: raise an undercount, keep an overcount and report it.
unfoldable pub reconciled : Account → ℕ → ℕ → Db → Outcome Error (Status × Db)
reconciled account used reserved db =
    if used == account.used_bytes && reserved == account.reserved_bytes
    then ok (checked, db)
    else (elim (write_account
        (record account {
          used_bytes = max used account.used_bytes;
          reserved_bytes = max reserved account.reserved_bytes;
        })
        db) [
          | err e ↦ err e
          | ok (_, db') ↦ ok (
            (if ltb used account.used_bytes || ltb reserved account.reserved_bytes
                then repair_required
                else repaired),
            db',
          )
        ])

unfoldable pub reconcile_account : ℕ → Action Status
reconcile_account owner db = elim (lock_account owner db) [
  | err e ↦ err e
  | ok ((account, _), db₁) ↦
      reconciled account (sum (used_for owner) db₁.files)
        (sum (reserved_for owner) db₁.reservations) db₁
]

pub record Capacity : Type 0 where
  pub disk_available_bytes : ℕ
  pub active_allocated_bytes : ℕ
  pub outstanding_bytes : ℕ
  pub staging_limit_bytes : ℕ
  pub headroom_bytes : ℕ
  pub writable : Bool

-- `capacity`, the report of the operator command.
unfoldable pub capacity_report : Policy → Env → Db → Capacity
capacity_report policy env db =
    let allocated = sum allocated_active db.reservations in
    let promised = sum promised_active db.reservations in
    record {
      disk_available_bytes = env.available;
      active_allocated_bytes = allocated;
      outstanding_bytes = promised;
      staging_limit_bytes = policy.staging_bytes;
      headroom_bytes = policy.disk_headroom_bytes;
      writable = leb (promised + policy.disk_headroom_bytes) env.available;
    }

-- `set_default` of quotas.py: the limit and its revision after it.
unfoldable pub set_default : ℕ → Action (ℕ × ℕ)
set_default amount db =
    if not (in_bounds amount)
    then err invalid_request
    else if amount == db.default_limit
    then ok ((amount, db.settings_revision), db)
    else ok (
      (amount, db.settings_revision + 1),
      record db { default_limit = amount; settings_revision = db.settings_revision + 1 },
    )

-- `set_override` of quotas.py: the account before and after it share their charges.
unfoldable pub set_override : ℕ → Option ℕ → Action Account
set_override owner amount db =
    if not (optional_in_bounds amount) then err invalid_request else elim (lock_account owner db) [
      | err e ↦ err e
      | ok ((account, _), db₁) ↦
          let account' : Account = record account { override_bytes = amount } in
          if eq_option account.override_bytes amount
          then ok (account, db₁)
          else elim (write_account account' db₁) [
            | err e ↦ err e
            | ok (_, db') ↦ ok (account', db')
          ]
    ]
