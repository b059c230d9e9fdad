-- ===== src/Storage/Accounting/Finishes.antt =====
-- The books under the two transactions of `_finish` (backend/app/storage/service.py).
use fillable.Common.{ℕ, ◌+◌, ◌-◌, ◌≡◌, none, some, ◌∷◌, ok, arith, refl, List, []}
use fillable.Common.Table.{
  find, find-update, update, sum-update, key-find, IsKeyed-update, IsKeyed, All-keyed, All-find,
}
use fillable.Storage.Schema.{Account, Reservation, ReservationState, StoredRow, FileState, Db}
use fillable.Storage.Service.{Env, Operation, account_key, reservation_key, file_key}
use fillable.Storage.Finishing.{
  in_state, made_ready, made_deleted, update_file_of, finish_staged, finish_commit,
}
use fillable.Storage.Accounting.{used_for, rewritten-IsAccounted}
use fillable.Storage.Accounting.Links.{IsBooked, IsLinked, All-IsLinked-active, All-IsLinked-commit}
use fillable.Storage.Accounting.Shapes.{Locked, finish_staged_lem, finish_commit_lem}
use fillable.Storage.Accounting.Steps.{reserved-update, same_row}

file-update_file_of :
    (k j : ℕ) (env : Env) (fs : List StoredRow)
    → find file_key j fs ≡ none
    → find file_key j (update_file_of k (made_deleted env) fs) ≡ none
file-update_file_of k j env [] h = refl
file-update_file_of k j env (f ∷ fs) h = ground (arith, file-update_file_of k j env fs)

pub IsKeyed-update_file_of :
    (k : ℕ) (env : Env) (fs : List StoredRow)
    → IsKeyed file_key fs
    → IsKeyed file_key (update_file_of k (made_deleted env) fs)
IsKeyed-update_file_of k env [] u = tt
IsKeyed-update_file_of k env (f ∷ fs) u =
    ground (arith, file-update_file_of k f.id env fs u.0, IsKeyed-update_file_of k env fs u.1)

module _ (env : Env) where
  pub finish_staged-IsBooked :
      (op : Operation) (size digest : ℕ) (db db' : Db) (x : Unit)
      → IsBooked db
      → finish_staged env op size digest db ≡ ok (x, db')
      → IsBooked db'
  finish_staged-IsBooked op size digest db db' x v h =
      let (a, r, l, same_file, free, _, shape) = finish_staged_lem env op size digest db db' x h in
      let f = in_state env ReservationState.staged in
      let found = reserved-update db.reservations f r op.id in
      rw shape (record {
        books = record {
          accounts_keyed = v.books.accounts_keyed;
          reservations_keyed =
              IsKeyed-update reservation_key op.id f db.reservations (λ r e. e)
                v.books.reservations_keyed;
          files_keyed = (free, v.books.files_keyed);
          reserved = λ o c e.
              ground (
                arith,
                l.is_active,
                v.books.reserved o c,
                found o v.books.reservations_keyed l.row,
              );
          used = λ o c e. ground (arith, v.books.used o c);
        };
        links = (
          record {
            row = f r;
            found = ground (
              arith,
              l.row,
              find-update reservation_key op.id op.id f db.reservations (λ r e. e),
            );
            file = same_file;
            owner = l.owner;
            agrees = refl;
          },
          All-IsLinked-active db.reservations op.id f (λ r. same_row refl refl refl) l.row
              l.is_active db.files refl v.links,
        );
      })

  -- The file's row is the staged one that the first transaction has written.
  pub finish_commit-IsBooked :
      (op : Operation) (size : ℕ) (a : Account) (r : Reservation) (f : StoredRow) (db db' : Db)
      (x : Unit)
      → IsBooked db
      → Locked db op a r
      → find file_key op.file_id db.files ≡ some f
      → f.reservation_id ≡ op.id
      → f.size_bytes ≡ size
      → f.state ≡ FileState.staged
      → finish_commit env op size a r db ≡ ok (x, db')
      → IsBooked db'
  finish_commit-IsBooked op size a r f db db' x v l e er es et h =
      let (enough, shape) = finish_commit_lem env op size a r db db' x h in
      let own : a.user_id ≡ op.owner_id = key-find account_key op.owner_id db.accounts l.account in
      let k : f.id ≡ op.file_id = key-find file_key op.file_id db.files e in
      let link = All-find file_key (IsLinked db.reservations) op.file_id db.files v.links e in
      let rid : r.file_id ≡ op.file_id = ground (arith, link.found, link.file, l.row) in
      let fown : f.owner_id ≡ op.owner_id =
        ground (arith, link.found, link.owner, l.row, l.owner) in
      let g = in_state env ReservationState.committed in
      let b : Account = record a {
        used_bytes = a.used_bytes + size;
        reserved_bytes = a.reserved_bytes - r.allocated_bytes;
      } in
      let files_sum = λ (o : ℕ).
        sum-update file_key (used_for o) op.file_id (made_ready env) db.files {r = f}
          v.books.files_keyed e in
      let rows_sum =
        λ (o : ℕ). reserved-update db.reservations g r op.id o v.books.reservations_keyed l.row in
      rw shape (record {
        books =
            rewritten-IsAccounted db b (update reservation_key op.id g db.reservations)
              (update file_key op.file_id (made_ready env) db.files) v.books
              (IsKeyed-update reservation_key op.id g db.reservations (λ r e. e)
                v.books.reservations_keyed)
              (IsKeyed-update file_key op.file_id (made_ready env) db.files (λ r e. e)
                v.books.files_keyed)
              (ground (
                arith,
                l.account,
                l.owner,
                l.is_active,
                v.books.reserved a.user_id a,
                rows_sum a.user_id,
              ))
              (ground (arith, l.account, v.books.used a.user_id a, files_sum a.user_id))
              (λ o ne. ground (arith, l.owner, rows_sum o)) (λ o ne. ground (arith, files_sum o));
        links =
            All-IsLinked-commit db.reservations op.id g (λ r. same_row refl refl refl) l.row
              l.is_active env op.file_id db.files refl rid
              (All-keyed file_key (λ x. x.reservation_id ≡ op.id) op.file_id db.files
                v.books.files_keyed e er)
              v.links;
      })
  -- Moving an active row to another active state changes no charge.
