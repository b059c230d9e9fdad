-- ===== src/Storage/Accounting.antt =====
-- The books of backend/app/storage/service.py: what an account is charged against the rows that
-- explain the charge.
pub mod Shapes
pub mod Links
pub mod Steps
pub mod Finishes
pub mod Ends
use fillable.Common.{
  ℕ, ◌+◌, ◌≡◌, ◌≢◌, Bool, true, false, ◌&&◌, Option, some, List, ◌==◌, if◌then◌else◌, arith, eq_iff,
  refl,
}
use fillable.Common.Table.{find, update, sum, IsKeyed, key-find, find-update, IsKeyed-update}
use fillable.Storage.Schema.{Account, Reservation, StoredRow, FileState, Db, active}
use fillable.Storage.Service.{account_key, reservation_key, file_key}

-- Ready files, and those whose deletion is pending, are charged as used.
abbrev pub charged : FileState → Bool
charged FileState.ready = true
charged FileState.pending_delete = true
charged _ = false

abbrev pub reserved_for : ℕ → Reservation → ℕ
reserved_for owner r = if r.owner_id == owner && active r.state then r.allocated_bytes else 0

abbrev pub used_for : ℕ → StoredRow → ℕ
used_for owner f = if f.owner_id == owner && charged f.state then f.size_bytes else 0

-- Primary keys are unique, and every account's two counters are the sums that
-- `reconcile_account` would compute.
pub record IsAccounted (db : Db) : Type 0 where
  pub accounts_keyed : IsKeyed account_key db.accounts
  pub reservations_keyed : IsKeyed reservation_key db.reservations
  pub files_keyed : IsKeyed file_key db.files
  pub reserved :
      (owner : ℕ) (a : Account)
      → find account_key owner db.accounts ≡ some a
      → a.reserved_bytes ≡ sum (reserved_for owner) db.reservations
  pub used :
      (owner : ℕ) (a : Account)
      → find account_key owner db.accounts ≡ some a
      → a.used_bytes ≡ sum (used_for owner) db.files

-- The rows of every other owner weigh what they did.
abbrev pub OthersKeep : {A : Type 0} → (ℕ → A → ℕ) → ℕ → List A → List A → Type 0
OthersKeep w owner rs rs' = (o : ℕ) → o ≢ owner → sum (w o) rs' ≡ sum (w o) rs

-- A transaction that rewrites one account keeps the books if that account balances after it.
abbrev pub rewritten : Db → Account → List Reservation → List StoredRow → Db
rewritten db b rs fs = record db {
  accounts = update account_key b.user_id (λ _. b) db.accounts;
  reservations = rs;
  files = fs;
}

module _ (db : Db) (b : Account) (rs : List Reservation) (fs : List StoredRow)
    (valid : IsAccounted db) where
  pub rewritten-IsAccounted :
      IsKeyed reservation_key rs
      → IsKeyed file_key fs
      → b.reserved_bytes ≡ sum (reserved_for b.user_id) rs
      → b.used_bytes ≡ sum (used_for b.user_id) fs
      → OthersKeep reserved_for b.user_id db.reservations rs
      → OthersKeep used_for b.user_id db.files fs
      → IsAccounted (rewritten db b rs fs)
  rewritten-IsAccounted kr kf br bu or ou = record {
    accounts_keyed =
        IsKeyed-update account_key b.user_id (λ _. b) db.accounts (λ r e. refl)
          valid.accounts_keyed;
    reservations_keyed = kr;
    files_keyed = kf;
    reserved = λ o c e. ground (
      arith,
      find-update account_key b.user_id o (λ _. b) db.accounts (λ r e. refl),
      valid.reserved o c,
      or o,
      br,
    );
    used = λ o c e. ground (
      arith,
      find-update account_key b.user_id o (λ _. b) db.accounts (λ r e. refl),
      valid.used o c,
      ou o,
      bu,
    );
  }
