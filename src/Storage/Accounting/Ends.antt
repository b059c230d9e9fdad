-- ===== src/Storage/Accounting/Ends.antt =====
-- The books under the transactions of `_clean` (backend/app/storage/service.py).
use fillable.Common.{
  ℕ, ◌-◌, ◌≡◌, some, ok, arith, Option-cases, Bool, true, Option, inl, inr, refl, Bool-cases,
}
use fillable.Common.Table.{find, update, key-find, IsKeyed-update}
use fillable.Storage.Schema.{Reservation, ReservationState, Db, active}
use fillable.Storage.Service.{
  Env, Operation, account_key, reservation_key, lock_account, write_reservation,
}
use fillable.Storage.Finishing.{in_state, made_deleted, update_file_of, clean_mark, clean_release}
use fillable.Storage.Accounting.{rewritten-IsAccounted}
use fillable.Storage.Accounting.Links.{
  IsBooked, All-IsLinked-active, All-IsLinked-release, used-release,
}
use mathlib.Core.Path.{subst}
use fillable.Storage.Accounting.Shapes.{clean_release_lem}
use fillable.Storage.Accounting.Steps.{reserved-update, same_row}
use fillable.Storage.Accounting.Finishes.{IsKeyed-update_file_of}

module _ (env : Env) where
  moved-IsBooked :
      (k : ℕ) (s : ReservationState) (r : Reservation) (db : Db)
      → IsBooked db
      → find reservation_key k db.reservations ≡ some r
      → active r.state ≡ true
      → active s ≡ true
      → IsBooked
          (record db { reservations = update reservation_key k (in_state env s) db.reservations })
  moved-IsBooked k s r db v e a a' =
      let f = in_state env s in
      record {
        books = record {
          accounts_keyed = v.books.accounts_keyed;
          reservations_keyed =
              IsKeyed-update reservation_key k f db.reservations (λ r e. e)
                v.books.reservations_keyed;
          files_keyed = v.books.files_keyed;
          reserved = λ o c found. ground (
            arith,
            v.books.reserved o c,
            reserved-update db.reservations f r k o v.books.reservations_keyed e,
          );
          used = v.books.used;
        };
        links =
            All-IsLinked-active db.reservations k f (λ r. same_row refl refl refl) e a db.files a'
              v.links;
      }

  pub clean_mark-IsBooked :
      (op : Operation) (db db' : Db) (x : Option Bool)
      → IsBooked db
      → clean_mark env op db ≡ ok (x, db')
      → IsBooked db'
  unfolding clean_mark lock_account write_reservation
  clean_mark-IsBooked op db db' x v h =
      elim (Option-cases (find account_key op.owner_id db.accounts)) [
        | inl e ↦ absurd (ground arith)
        | inr (a, e) ↦ elim (Option-cases (find reservation_key op.id db.reservations)) [
          | inl f ↦ absurd (ground arith)
          | inr (r, f) ↦ elim (Bool-cases (active r.state)) [
            | inl yes_active ↦
                subst IsBooked (ground arith)
                  (moved-IsBooked op.id ReservationState.cleanup_pending r db v f yes_active refl)
            | inr ended ↦ subst IsBooked (ground arith) v
          ]
        ]
      ]

  pub clean_release-IsBooked :
      (op : Operation) (db db' : Db) (x : Unit)
      → IsBooked db
      → clean_release env op db ≡ ok (x, db')
      → IsBooked db'
  clean_release-IsBooked op db db' x v h =
      let (a, r, l, enough, shape) = clean_release_lem env op db db' x h in
      let own : a.user_id ≡ op.owner_id = key-find account_key op.owner_id db.accounts l.account in
      let g = in_state env ReservationState.aborted in
      rw shape (record {
        books =
            rewritten-IsAccounted db
              (record a { reserved_bytes = a.reserved_bytes - r.allocated_bytes })
              (update reservation_key op.id g db.reservations)
              (update_file_of op.id (made_deleted env) db.files) v.books
              (IsKeyed-update reservation_key op.id g db.reservations (λ r e. e)
                v.books.reservations_keyed)
              (IsKeyed-update_file_of op.id env db.files v.books.files_keyed)
              (ground (
                arith,
                l.account,
                l.owner,
                l.is_active,
                v.books.reserved a.user_id a,
                reserved-update db.reservations g r op.id a.user_id v.books.reservations_keyed
                    l.row,
              ))
              (ground (
                arith,
                l.account,
                v.books.used a.user_id a,
                used-release env db.reservations op.id a.user_id {r = r} db.files l.row l.is_active
                    v.links,
              ))
              (λ o ne. ground (
                arith,
                l.owner,
                reserved-update db.reservations g r op.id o v.books.reservations_keyed l.row,
              ))
              (λ o ne.
                used-release env db.reservations op.id o {r = r} db.files l.row l.is_active
                  v.links);
        links =
            All-IsLinked-release db.reservations op.id g (λ r. same_row refl refl refl) l.row
              l.is_active env db.files refl v.links;
      })
