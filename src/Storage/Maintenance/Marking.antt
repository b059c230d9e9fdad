-- ===== src/Storage/Maintenance/Marking.antt =====
-- The books under the two transactions of `delete_file` (backend/app/storage/maintenance.py).
use fillable.Common.{
  ℕ, ◌-◌, ◌≡◌, ◌≤◌, refl, true, Option, none, some, List, ok, arith, Option-cases, inl, inr, All,
}
use fillable.Common.Table.{
  find, update, sum-update, key-find, IsKeyed-update, All-keyed, All-update,
}
use fillable.Storage.Schema.{Account, Reservation, StoredRow, FileState, Db, Error}
use fillable.Storage.Service.{Env, account_key, file_key, lock_account, write_account}
use fillable.Storage.Finishing.{made_deleted}
use fillable.Storage.Accounting.{used_for, rewritten-IsAccounted}
use fillable.Storage.Accounting.Links.{IsLinked, IsBooked, agree}
use fillable.Storage.Maintenance.{mark, made_pending, delete_mark, delete_commit}

-- A file's state moves within what its reservation allows.
module _ (g : StoredRow → StoredRow) (k : ℕ) (f : StoredRow) (db : Db) (v : IsBooked db)
    (found : find file_key k db.files ≡ some f) (g_id : (x : StoredRow) → (g x).id ≡ x.id)
    (g_owner : (x : StoredRow) → (g x).owner_id ≡ x.owner_id)
    (g_res : (x : StoredRow) → (g x).reservation_id ≡ x.reservation_id) where
  moved_links :
      (s : FileState)
      → f.state ≡ s
      → ((x : StoredRow)
          → x.state ≡ s
          → IsLinked db.reservations x
          → IsLinked db.reservations (g x))
      → All (IsLinked db.reservations) (update file_key k g db.files)
  moved_links s e step =
      All-update file_key (λ x. x.state ≡ s) (IsLinked db.reservations) k g db.files step
        (All-keyed file_key (λ x. x.state ≡ s) k db.files {r = f} v.books.files_keyed found e)
        v.links

  -- A move that keeps the weight of the file keeps the sums.
  same_weight :
      ((o : ℕ) → used_for o (g f) ≡ used_for o f)
      → All (IsLinked db.reservations) (update file_key k g db.files)
      → IsBooked (record db { files = update file_key k g db.files })
  same_weight w links = record {
    books = record {
      accounts_keyed = v.books.accounts_keyed;
      reservations_keyed = v.books.reservations_keyed;
      files_keyed =
          IsKeyed-update file_key k g db.files (λ r e. ground (arith, g_id r)) v.books.files_keyed;
      reserved = v.books.reserved;
      used = λ o a e. ground (
        arith,
        v.books.used o a,
        w o,
        sum-update file_key (used_for o) k g db.files {r = f} v.books.files_keyed found,
      );
    };
    links = links;
  }

relink :
    (rs : List Reservation) (x y : StoredRow) (l : IsLinked rs x)
    → y.id ≡ x.id
    → y.owner_id ≡ x.owner_id
    → y.reservation_id ≡ x.reservation_id
    → agree l.row.state y.state ≡ true
    → IsLinked rs y
relink rs x y l a b c d = record {
  row = l.row;
  found = ground (arith, c, l.found);
  file = ground (arith, a, l.file);
  owner = ground (arith, b, l.owner);
  agrees = d;
}

-- What marking has done: nothing to a file on its way out, and a ready file is now pending.
pub data Marked (file : ℕ) (f : StoredRow) (db db' : Db) (x : Option StoredRow) : Type 0 where
  gone : f.state ≡ FileState.deleted → x ≡ none → db' ≡ db → Marked file f db db' x
  going : f.state ≡ FileState.pending_delete → x ≡ some f → db' ≡ db → Marked file f db db' x
  marked :
      f.state ≡ FileState.ready
      → x ≡ some f
      → db' ≡ record db { files = update file_key file made_pending db.files }
      → Marked file f db db' x

mark_lem :
    (authorize : Option Error) (file : ℕ) (f : StoredRow) (db db' : Db) (x : Option StoredRow)
    (s : FileState)
    → f.state ≡ s
    → f.id ≡ file
    → mark authorize f db ≡ ok (x, db')
    → Marked file f db db' x
mark_lem authorize file f db db' x FileState.deleted e k h = gone e (ground arith) (ground arith)
mark_lem authorize file f db db' x FileState.staged e k h = absurd (ground arith)
mark_lem authorize file f db db' x FileState.pending_delete e k h =
    going e (ground arith) (ground arith)
mark_lem authorize file f db db' x FileState.ready e k h = marked e (ground arith) (ground arith)

pub delete_mark_lem :
    (authorize : Option Error) (owner file : ℕ) (db db' : Db) (x : Option StoredRow)
    → delete_mark authorize owner file db ≡ ok (x, db')
    → (f : StoredRow) × (find file_key file db.files ≡ some f)
      × (f.owner_id ≡ owner)
      × Marked file f db db' x
unfolding delete_mark lock_account
delete_mark_lem authorize owner file db db' x h =
    elim (Option-cases (find account_key owner db.accounts)) [
      | inl e ↦ absurd (ground arith)
      | inr (a, e) ↦ elim (Option-cases (find file_key file db.files)) [
        | inl n ↦ absurd (ground arith)
        | inr (f, n) ↦ (
          f,
          n,
          ground arith,
          mark_lem authorize file f db db' x f.state refl (key-find file_key file db.files n)
              (ground arith),
        )
      ]
    ]

-- Marking a file for deletion changes no charge.
pub delete_mark-IsBooked :
    (authorize : Option Error) (owner file : ℕ) (db db' : Db) (x : Option StoredRow)
    → IsBooked db
    → delete_mark authorize owner file db ≡ ok (x, db')
    → IsBooked db'
delete_mark-IsBooked authorize owner file db db' x v h =
    let (f, found, _, m) = delete_mark_lem authorize owner file db db' x h in after f found m
  where
    after :
        (f : StoredRow)
        → find file_key file db.files ≡ some f
        → Marked file f db db' x
        → IsBooked db'
    after f found (gone _ _ e) = rw e v
    after f found (going _ _ e) = rw e v
    after f found (marked s _ e) = rw e (
        same_weight made_pending file f db v found (λ x. refl) (λ x. refl) (λ x. refl)
          (λ o. ground arith)
          (moved_links made_pending file f db v found (λ x. refl) (λ x. refl) (λ x. refl)
            FileState.ready s
            (λ x e l.
              relink db.reservations x (made_pending x) l refl refl refl
                (ground (arith, l.agrees)))))

delete_commit_lem :
    (env : Env) (owner file size : ℕ) (db db' : Db) (x : Unit)
    → delete_commit env owner file size db ≡ ok (x, db')
    → (a : Account) × (find account_key owner db.accounts ≡ some a)
      × (size ≤ a.used_bytes)
      × (db' ≡ record db {
        accounts =
            update account_key a.user_id
              (λ _. record a { used_bytes = a.used_bytes - size })
              db.accounts;
        files = update file_key file (made_deleted env) db.files;
      })
unfolding delete_commit lock_account write_account
delete_commit_lem env owner file size db db' x h =
    elim (Option-cases (find account_key owner db.accounts)) [
      | inl e ↦ absurd (ground arith)
      | inr (a, e) ↦ (a, e, ground arith, ground arith)
    ]

-- Once both links are gone, the file's bytes are no longer charged.
pub delete_commit-IsBooked :
    (env : Env) (owner file size : ℕ) (f : StoredRow) (db db' : Db) (x : Unit)
    → IsBooked db
    → find file_key file db.files ≡ some f
    → f.owner_id ≡ owner
    → f.size_bytes ≡ size
    → f.state ≡ FileState.pending_delete
    → delete_commit env owner file size db ≡ ok (x, db')
    → IsBooked db'
delete_commit-IsBooked env owner file size f db db' x v found fo fs st h =
    let (a, fa, enough, shape) = delete_commit_lem env owner file size db db' x h in
    let own : a.user_id ≡ owner = key-find account_key owner db.accounts fa in
    let g = made_deleted env in
    let weights = λ (o : ℕ).
      sum-update file_key (used_for o) file g db.files {r = f} v.books.files_keyed found in
    rw shape (record {
      books =
          rewritten-IsAccounted db (record a { used_bytes = a.used_bytes - size }) db.reservations
            (update file_key file g db.files) v.books v.books.reservations_keyed
            (IsKeyed-update file_key file g db.files (λ r e. e) v.books.files_keyed)
            (ground (arith, fa, v.books.reserved a.user_id a))
            (ground (arith, fa, v.books.used a.user_id a, weights a.user_id)) (λ o ne. refl)
            (λ o ne. ground (arith, weights o));
      links =
          moved_links g file f db v found (λ x. refl) (λ x. refl) (λ x. refl)
            FileState.pending_delete st
            (λ x e l. relink db.reservations x (g x) l refl refl refl (ground (arith, l.agrees)));
    })
