-- ===== src/Storage/Accounting/Steps.antt =====
-- The books under `_begin` and `_advance` of backend/app/storage/service.py.
use fillable.Common.{ℕ, ◌+◌, ◌≡◌, some, ◌∷◌, ok, arith, Option-cases, Bool, inl, inr, refl, List}
use fillable.Common.Table.{find, update, sum, sum-update, key-find, IsKeyed-update, IsKeyed}
use fillable.Storage.Schema.{Account, Reservation, Db}
use fillable.Storage.Quota.{QuotaUsage}
use fillable.Storage.Service.{
  Policy, Env, Operation, account_key, reservation_key, lock_account, usage_of,
}
use fillable.Storage.Reserving.{
  Fresh, Request, or_zero, new_reservation, reserve, replay, begin, by_key, growth_to, advanced,
  advance,
}
use fillable.Storage.Accounting.{reserved_for, rewritten-IsAccounted}
use fillable.Storage.Accounting.Links.{IsBooked, SameRow, All-IsLinked-active, All-IsLinked-insert}
use mathlib.Core.Path.{subst}
use fillable.Storage.Accounting.Shapes.{charge, reserve_lem, advance_lem}

-- Rewriting one row moves its owner's sum by what that row weighed and weighs.
module _ (rs : List Reservation) (f : Reservation → Reservation) (r : Reservation)
    (k owner : ℕ) where
  pub reserved-update :
      IsKeyed reservation_key rs
      → find reservation_key k rs ≡ some r
      → sum (reserved_for owner) (update reservation_key k f rs) + reserved_for owner r
        ≡ sum (reserved_for owner) rs + reserved_for owner (f r)
  reserved-update u h = sum-update reservation_key (reserved_for owner) k f rs u h

abbrev pub same_row :
    {r s : Reservation}
    → s.id ≡ r.id
    → s.file_id ≡ r.file_id
    → s.owner_id ≡ r.owner_id
    → SameRow r s
same_row a b c = record { id = a; file = b; owner = c }

module _ (policy : Policy) (env : Env) where
  pub reserve-IsBooked :
      (fresh : Fresh) (request : Request) (a : Account) (u : QuotaUsage) (db db' : Db)
      (r : Reservation × Bool)
      → IsBooked db
      → find account_key request.owner db.accounts ≡ some a
      → reserve policy env fresh request a u db ≡ ok (r, db')
      → IsBooked db'
  reserve-IsBooked fresh request a u db db' r v e h =
      let (free, _, shape) = reserve_lem policy env fresh request a u db db' r h in
      let own : a.user_id ≡ request.owner = key-find account_key request.owner db.accounts e in
      let new = new_reservation policy env fresh request in
      rw shape (record {
        books =
            rewritten-IsAccounted db (charge a (or_zero request.expected)) (new ∷ db.reservations)
              db.files v.books (free, v.books.reservations_keyed) v.books.files_keyed
              (ground (arith, v.books.reserved a.user_id a))
              (ground (arith, v.books.used a.user_id a)) (λ o ne. ground arith) (λ o ne. refl);
        links = All-IsLinked-insert db.reservations new db.files free v.links;
      })

  -- A replay of the key writes nothing, and a new reservation is charged to the account.
  pub begin-IsBooked :
      (fresh : Fresh) (request : Request) (db db' : Db) (r : Reservation × Bool)
      → IsBooked db
      → begin policy env fresh request db ≡ ok (r, db')
      → IsBooked db'
  unfolding begin lock_account replay
  begin-IsBooked fresh request db db' r v h =
      elim (Option-cases (find account_key request.owner db.accounts)) [
        | inl e ↦ absurd (ground arith)
        | inr (a, e) ↦ elim (Option-cases (by_key request.owner request.key db.reservations)) [
          | inl new ↦ reserve-IsBooked fresh request a (usage_of db a) db db' r v e (ground arith)
          | inr (row, old) ↦ subst IsBooked (ground arith) v
        ]
      ]

  pub advance-IsBooked :
      (op : Operation) (size : ℕ) (written : Bool) (db db' : Db) (x : Unit)
      → IsBooked db
      → advance policy env op size written db ≡ ok (x, db')
      → IsBooked db'
  advance-IsBooked op size written db db' x v h =
      let (a, r, l, shape) = advance_lem policy env op size written db db' x h in
      let own : a.user_id ≡ op.owner_id = key-find account_key op.owner_id db.accounts l.account in
      let f = advanced policy env size written in
      let rs' = update reservation_key op.id f db.reservations in
      rw shape (record {
        books =
            rewritten-IsAccounted db (charge a (growth_to size r)) rs' db.files v.books
              (IsKeyed-update reservation_key op.id f db.reservations (λ r e. ground arith)
                v.books.reservations_keyed)
              v.books.files_keyed
              (ground (
                arith,
                l.account,
                l.owner,
                l.is_active,
                v.books.reserved a.user_id a,
                reserved-update db.reservations f r op.id a.user_id v.books.reservations_keyed
                    l.row,
              ))
              (ground (arith, l.account, v.books.used a.user_id a))
              (λ o ne. ground (
                arith,
                l.owner,
                reserved-update db.reservations f r op.id o v.books.reservations_keyed l.row,
              ))
              (λ o ne. refl);
        links =
            All-IsLinked-active db.reservations op.id f
              (λ r. same_row (ground arith) (ground arith) (ground arith)) l.row l.is_active
              db.files (ground arith) v.links;
      })
