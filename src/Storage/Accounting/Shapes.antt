-- ===== src/Storage/Accounting/Shapes.antt =====
-- What each transaction of backend/app/storage/service.py has written when it commits.
use fillable.Common.{
  ℕ, ◌+◌, ◌-◌, ◌≡◌, ◌≤◌, none, some, ◌∷◌, ok, arith, Option-cases, Bool, true, inl, inr,
}
use fillable.Common.Table.{find, update}
use fillable.Storage.Schema.{
  Account, Reservation, ReservationState, FileState, Db, active, max_bytes,
}
use fillable.Storage.Quota.{QuotaUsage}
use fillable.Storage.Service.{
  Policy, Env, Operation, account_key, reservation_key, file_key, lock_account, write_account,
  write_reservation, capacity, operation,
}
use fillable.Storage.Reserving.{
  Fresh, Request, or_zero, new_reservation, insert_reservation, reserve, growth_to, advanced,
  advance,
}
use fillable.Storage.Finishing.{
  in_state, made_ready, made_deleted, update_file_of, insert_file, finish_staged, finish_check,
  finish_commit, clean_release,
}

abbrev pub charge : Account → ℕ → Account
charge a n = record a { reserved_bytes = a.reserved_bytes + n }

-- The account and the row that an operation's transaction has locked.
pub record Locked (db : Db) (op : Operation) (a : Account) (r : Reservation) : Type 0 where
  pub account : find account_key op.owner_id db.accounts ≡ some a
  pub row : find reservation_key op.id db.reservations ≡ some r
  pub owner : r.owner_id ≡ op.owner_id
  pub is_active : active r.state ≡ true

module _ (policy : Policy) (env : Env) where
  pub reserve_lem :
      (fresh : Fresh) (request : Request) (a : Account) (u : QuotaUsage) (db db' : Db)
      (r : Reservation × Bool)
      → reserve policy env fresh request a u db ≡ ok (r, db')
      → (find reservation_key fresh.id db.reservations ≡ none)
        × (r ≡ (new_reservation policy env fresh request, true))
        × (db' ≡ record db {
          accounts =
              update account_key a.user_id (λ _. charge a (or_zero request.expected)) db.accounts;
          reservations = new_reservation policy env fresh request ∷ db.reservations;
        })
  unfolding reserve capacity insert_reservation write_account
  reserve_lem fresh request a u db db' r h = ground arith

  pub advance_lem :
      (op : Operation) (size : ℕ) (written : Bool) (db db' : Db) (x : Unit)
      → advance policy env op size written db ≡ ok (x, db')
      → (a : Account) × (r : Reservation) × Locked db op a r
        × (db' ≡ record db {
          accounts = update account_key a.user_id (λ _. charge a (growth_to size r)) db.accounts;
          reservations =
              update reservation_key op.id (advanced policy env size written) db.reservations;
        })
  unfolding advance capacity lock_account operation write_account write_reservation
  advance_lem op size written db db' x h =
      elim (Option-cases (find account_key op.owner_id db.accounts)) [
        | inl e ↦ absurd (ground arith)
        | inr (a, e) ↦ elim (Option-cases (find reservation_key op.id db.reservations)) [
          | inl f ↦ absurd (ground arith)
          | inr (r, f) ↦ (a, r, ground arith, ground arith)
        ]
      ]

module _ (env : Env) where
  pub finish_staged_lem :
      (op : Operation) (size digest : ℕ) (db db' : Db) (x : Unit)
      → finish_staged env op size digest db ≡ ok (x, db')
      → (a : Account) × (r : Reservation) × Locked db op a r
        × (r.file_id ≡ op.file_id)
        × (find file_key op.file_id db.files ≡ none)
        × (size ≤ max_bytes)
        × (db' ≡ record db {
          reservations =
              update reservation_key op.id (in_state env ReservationState.staged) db.reservations;
          files =
              record {
                id = op.file_id;
                owner_id = op.owner_id;
                reservation_id = op.id;
                size_bytes = size;
                digest = digest;
                state = FileState.staged;
                ready_at = none;
                deleted_at = none;
              }
              ∷ db.files;
        })
  unfolding finish_staged lock_account operation insert_file write_reservation
  finish_staged_lem op size digest db db' x h =
      elim (Option-cases (find account_key op.owner_id db.accounts)) [
        | inl e ↦ absurd (ground arith)
        | inr (a, e) ↦ elim (Option-cases (find reservation_key op.id db.reservations)) [
          | inl f ↦ absurd (ground arith)
          | inr (r, f) ↦
              (a, r, ground arith, ground arith, ground arith, ground arith, ground arith)
        ]
      ]

  pub finish_check_lem :
      (policy : Policy) (op : Operation) (db db' : Db) (x : Account × Reservation)
      → finish_check policy env op db ≡ ok (x, db')
      → Locked db op x.0 x.1 × (db' ≡ db)
  unfolding finish_check capacity lock_account operation
  finish_check_lem policy op db db' x h = (ground arith, ground arith)

  pub finish_commit_lem :
      (op : Operation) (size : ℕ) (a : Account) (r : Reservation) (db db' : Db) (x : Unit)
      → finish_commit env op size a r db ≡ ok (x, db')
      → (r.allocated_bytes ≤ a.reserved_bytes)
        × (db' ≡ record db {
          accounts =
              update account_key a.user_id
                (λ _. record a {
                  used_bytes = a.used_bytes + size;
                  reserved_bytes = a.reserved_bytes - r.allocated_bytes;
                })
                db.accounts;
          reservations =
              update reservation_key op.id
                (in_state env ReservationState.committed)
                db.reservations;
          files = update file_key op.file_id (made_ready env) db.files;
        })
  unfolding finish_commit write_account write_reservation
  finish_commit_lem op size a r db db' x h = ground arith

  pub clean_release_lem :
      (op : Operation) (db db' : Db) (x : Unit)
      → clean_release env op db ≡ ok (x, db')
      → (a : Account) × (r : Reservation) × Locked db op a r
        × (r.allocated_bytes ≤ a.reserved_bytes)
        × (db' ≡ record db {
          accounts =
              update account_key a.user_id
                (λ _. record a { reserved_bytes = a.reserved_bytes - r.allocated_bytes })
                db.accounts;
          reservations =
              update reservation_key op.id (in_state env ReservationState.aborted) db.reservations;
          files = update_file_of op.id (made_deleted env) db.files;
        })
  unfolding clean_release lock_account operation write_account write_reservation
  clean_release_lem op db db' x h = elim (Option-cases (find account_key op.owner_id db.accounts)) [
    | inl e ↦ absurd (ground arith)
    | inr (a, e) ↦ elim (Option-cases (find reservation_key op.id db.reservations)) [
      | inl f ↦ absurd (ground arith)
      | inr (r, f) ↦ (a, r, ground arith, ground arith, ground arith)
    ]
  ]
