-- ===== src/Storage/Maintenance/Reconciling.antt =====
-- Reconciliation of the counters (`reconcile_account` of backend/app/storage/maintenance.py).
use fillable.Common.{ℕ, ◌≡◌, ◌<◌, ◌⊎◌, refl, some, ok, arith, max, ◌↔◌}
use fillable.Common.Table.{find, sum, find-update, key-find}
use fillable.Storage.Schema.{Account, Db}
use fillable.Storage.Service.{account_key, lock_account, write_account}
use fillable.Storage.Accounting.{reserved_for, used_for}
use fillable.Storage.Accounting.Links.{IsBooked}
use fillable.Storage.Maintenance.{Status, checked, repair_required, reconciled, reconcile_account}

reconcile_lem :
    (owner : ℕ) (db db' : Db) (status : Status) {a : Account}
    → find account_key owner db.accounts ≡ some a
    → reconcile_account owner db ≡ ok (status, db')
    → reconciled a (sum (used_for owner) db.files) (sum (reserved_for owner) db.reservations) db
      ≡ ok (status, db')
unfolding reconcile_account lock_account
reconcile_lem owner db db' status f h = ground arith

module _ (owner used reserved : ℕ) (a : Account) (db db' : Db) (status : Status)
    (f : find account_key owner db.accounts ≡ some a)
    (h : reconciled a used reserved db ≡ ok (status, db')) where
  raised : Account
  raised = record a {
    used_bytes = max used a.used_bytes;
    reserved_bytes = max reserved a.reserved_bytes;
  }

  reconciled_account : find account_key owner db'.accounts ≡ some raised
  unfolding raised reconciled write_account
  reconciled_account = ground (
    arith,
    key-find account_key owner db.accounts f,
    find-update account_key a.user_id owner (λ _. raised) db.accounts (λ r e. refl),
  )

  reconciled_rows : (db'.files ≡ db.files) × (db'.reservations ≡ db.reservations)
  unfolding reconciled write_account
  reconciled_rows = (ground arith, ground arith)

  reconciled_checked : (status ≡ checked) ↔ ((used ≡ a.used_bytes) × (reserved ≡ a.reserved_bytes))
  unfolding reconciled write_account
  reconciled_checked = ((λ e. ground arith), (λ e. ground arith))

  reconciled_required :
      (status ≡ repair_required) ↔ ((used < a.used_bytes) ⊎ (reserved < a.reserved_bytes))
  unfolding reconciled write_account
  reconciled_required = ((λ e. ground arith), (λ e. ground arith))

-- For an account that is found, a reconciliation that succeeds sets each counter to the larger of
-- what it was and what the rows sum to, changes no file and no reservation, answers `checked`
-- exactly when both counters were right, and `repair_required` exactly when one was above its sum.
pub reconcile_account_raises :
    (owner : ℕ) (db db' : Db) (status : Status) {a : Account}
    → find account_key owner db.accounts ≡ some a
    → reconcile_account owner db ≡ ok (status, db')
    → let used = sum (used_for owner) db.files in
      let reserved = sum (reserved_for owner) db.reservations in
      (find account_key owner db'.accounts
        ≡ some (record a {
          used_bytes = max used a.used_bytes;
          reserved_bytes = max reserved a.reserved_bytes;
        }))
      × (db'.files ≡ db.files)
      × (db'.reservations ≡ db.reservations)
      × ((status ≡ checked) ↔ ((used ≡ a.used_bytes) × (reserved ≡ a.reserved_bytes)))
      × ((status ≡ repair_required) ↔ ((used < a.used_bytes) ⊎ (reserved < a.reserved_bytes)))
unfolding raised
reconcile_account_raises owner db db' status {a} f h =
    let used = sum (used_for owner) db.files in
    let reserved = sum (reserved_for owner) db.reservations in
    let e = reconcile_lem owner db db' status {a = a} f h in
    let rows = reconciled_rows owner used reserved a db db' status f e in
    (
      reconciled_account owner used reserved a db db' status f e,
      rows.0,
      rows.1,
      reconciled_checked owner used reserved a db db' status f e,
      reconciled_required owner used reserved a db db' status f e,
    )

-- On books that balance, the reconciliation of an account that is found answers `checked` and
-- changes nothing.
pub reconcile_account-checked :
    (owner : ℕ) (db : Db) {a : Account}
    → IsBooked db
    → find account_key owner db.accounts ≡ some a
    → reconcile_account owner db ≡ ok (checked, db)
unfolding reconcile_account reconciled lock_account
reconcile_account-checked owner db {a} v f =
    ground (arith, v.books.used owner a, v.books.reserved owner a)
