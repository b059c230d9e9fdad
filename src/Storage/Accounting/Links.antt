-- ===== src/Storage/Accounting/Links.antt =====
-- The links from stored files to the reservations that made them (backend/app/storage/).
use fillable.Common.{
  ℕ, ◌≡◌, ◌≢◌, none, some, ◌∷◌, arith, Bool, true, false, not, inl, inr, refl, List, [], All, ◌==◌,
  Bool-cases,
}
use fillable.Common.Table.{find, update, sum, find-update}
use fillable.Storage.Schema.{Reservation, ReservationState, StoredRow, FileState, Db, active}
use fillable.Storage.Service.{Env, reservation_key, file_key}
use fillable.Storage.Finishing.{is_committed, made_ready, made_deleted, update_file_of}
use fillable.Storage.Accounting.{used_for, IsAccounted}

abbrev pub agree : ReservationState → FileState → Bool
agree r FileState.staged = active r
agree r FileState.ready = is_committed r
agree r FileState.pending_delete = is_committed r
agree r FileState.deleted = not (active r)

-- The foreign key to the reservation, and the states.
pub record IsLinked (rs : List Reservation) (f : StoredRow) : Type 0 where
  pub row : Reservation
  pub found : find reservation_key f.reservation_id rs ≡ some row
  pub file : row.file_id ≡ f.id
  pub owner : row.owner_id ≡ f.owner_id
  pub agrees : agree row.state f.state ≡ true

-- An update that keeps a row's identities.
pub record SameRow (r s : Reservation) : Type 0 where
  pub id : s.id ≡ r.id
  pub file : s.file_id ≡ r.file_id
  pub owner : s.owner_id ≡ r.owner_id

-- The file's row after an update that leaves its keys.
pub record SameFile (f h : StoredRow) : Type 0 where
  pub id : h.id ≡ f.id
  pub owner : h.owner_id ≡ f.owner_id
  pub reservation : h.reservation_id ≡ f.reservation_id

module _ (rs : List Reservation) (k : ℕ) (g : Reservation → Reservation)
    (same : (r : Reservation) → SameRow r (g r)) (f : StoredRow) (l : IsLinked rs f) where
  IsLinked-update_ne : k ≢ f.reservation_id → IsLinked (update reservation_key k g rs) f
  IsLinked-update_ne ne = record {
    row = l.row;
    found = ground (
      arith,
      l.found,
      find-update reservation_key k f.reservation_id g rs (λ r e. ground (arith, (same r).id)),
    );
    file = l.file;
    owner = l.owner;
    agrees = l.agrees;
  }

  IsLinked-update_self :
      (h : StoredRow)
      → SameFile f h
      → k ≡ f.reservation_id
      → agree (g l.row).state h.state ≡ true
      → IsLinked (update reservation_key k g rs) h
  IsLinked-update_self h s e a = record {
    row = g l.row;
    found = ground (
      arith,
      l.found,
      s.reservation,
      find-update reservation_key k f.reservation_id g rs (λ r e. ground (arith, (same r).id)),
    );
    file = ground (arith, l.file, s.id, (same l.row).file);
    owner = ground (arith, l.owner, s.owner, (same l.row).owner);
    agrees = a;
  }

-- A row that was active and stays so changes no file's link.
module _ (rs : List Reservation) (k : ℕ) (g : Reservation → Reservation)
    (same : (r : Reservation) → SameRow r (g r)) {r₀ : Reservation}
    (found : find reservation_key k rs ≡ some r₀) (was : active r₀.state ≡ true) where
  pub All-IsLinked-active :
      (fs : List StoredRow)
      → active (g r₀).state ≡ true
      → All (IsLinked rs) fs
      → All (IsLinked (update reservation_key k g rs)) fs
  All-IsLinked-active [] stays l = tt
  All-IsLinked-active (f ∷ fs) stays l = (
    elim (Bool-cases (k == f.reservation_id)) [
      | inl e ↦
          IsLinked-update_self rs k g same f l.0 f
            (record { id = refl; owner = refl; reservation = refl }) (ground arith)
            (ground (arith, l.0.found, l.0.agrees))
      | inr e ↦ IsLinked-update_ne rs k g same f l.0 (ground arith)
    ],
    All-IsLinked-active fs stays l.1,
  )

  -- Committing the row and making its file ready, together.
  pub All-IsLinked-commit :
      (env : Env) (fid : ℕ) (fs : List StoredRow)
      → is_committed (g r₀).state ≡ true
      → r₀.file_id ≡ fid
      → All (λ x. file_key x ≡ fid → x.reservation_id ≡ k) fs
      → All (IsLinked rs) fs
      → All (IsLinked (update reservation_key k g rs)) (update file_key fid (made_ready env) fs)
  All-IsLinked-commit env fid [] done same_file at l = tt
  All-IsLinked-commit env fid (f ∷ fs) done same_file at l = (
    elim (Bool-cases (f.id == fid)) [
      | inl e ↦ rw e (
          IsLinked-update_self rs k g same f l.0 (made_ready env f)
            (record { id = refl; owner = refl; reservation = refl }) (ground arith)
            (ground (arith, l.0.found)))
      | inr e ↦
          rw e (
            IsLinked-update_ne rs k g same f l.0
              (λ c. absurd (ground (arith, l.0.found, l.0.file))))
    ],
    All-IsLinked-commit env fid fs done same_file at.1 l.1,
  )

  -- Aborting the row and deleting its file, together.
  pub All-IsLinked-release :
      (env : Env) (fs : List StoredRow)
      → active (g r₀).state ≡ false
      → All (IsLinked rs) fs
      → All (IsLinked (update reservation_key k g rs)) (update_file_of k (made_deleted env) fs)
  All-IsLinked-release env [] gone l = tt
  All-IsLinked-release env (f ∷ fs) gone l = (
    elim (Bool-cases (f.reservation_id == k)) [
      | inl e ↦ rw e (
          IsLinked-update_self rs k g same f l.0 (made_deleted env f)
            (record { id = refl; owner = refl; reservation = refl }) (ground arith)
            (ground (arith, l.0.found)))
      | inr e ↦ rw e (IsLinked-update_ne rs k g same f l.0 (ground arith))
    ],
    All-IsLinked-release env fs gone l.1,
  )

pub All-IsLinked-insert :
    (rs : List Reservation) (r : Reservation) (fs : List StoredRow)
    → find reservation_key r.id rs ≡ none
    → All (IsLinked rs) fs
    → All (IsLinked (r ∷ rs)) fs
All-IsLinked-insert rs r [] free l = tt
All-IsLinked-insert rs r (f ∷ fs) free l = (
  record {
    row = l.0.row;
    found = ground (arith, l.0.found);
    file = l.0.file;
    owner = l.0.owner;
    agrees = l.0.agrees;
  },
  All-IsLinked-insert rs r fs free l.1,
)

-- Deleting the file of an active row changes no charge: the file was never charged.
pub used-release :
    (env : Env) (rs : List Reservation) (k owner : ℕ) {r : Reservation} (fs : List StoredRow)
    → find reservation_key k rs ≡ some r
    → active r.state ≡ true
    → All (IsLinked rs) fs
    → sum (used_for owner) (update_file_of k (made_deleted env) fs) ≡ sum (used_for owner) fs
used-release env rs k owner [] e a l = refl
used-release env rs k owner {r} (f ∷ fs) e a l =
    ground (arith, l.0.found, l.0.agrees, used-release env rs k owner {r = r} fs e a l.1)

-- The books balance and the files hang on their reservations.
pub record IsBooked (db : Db) : Type 0 where
  pub books : IsAccounted db
  pub links : All (IsLinked db.reservations) db.files
