-- ===== src/Storage/Maintenance/Books.antt =====
-- The books under `delete_file` of backend/app/storage/maintenance.py.
use fillable.Common.{ℕ, ◌≡◌, refl, Bool, true, false, Option, none, some, ok, err, arith, Outcome}
use fillable.Common.Table.{find, find-update}
use fillable.Storage.Schema.{StoredRow, FileState, Db, Error}
use fillable.Storage.Service.{file_key}
use fillable.Storage.Accounting.Links.{IsBooked}
use fillable.Storage.World.{World, in_db, in_fs}
use fillable.Storage.World.Triple.{
  Triple, Post, Triple-bind, Triple-done, Triple-throw, Triple-in_db, Triple-in_fs,
}
use fillable.Storage.FileSystem.{remove as remove_links}
use fillable.Storage.Reading.{read_outcome}
use fillable.Storage.Store.{fails}
use fillable.Storage.Maintenance.{
  Deletion, present, made_pending, owned_file, delete_mark, delete_commit, delete_file, unlink,
}
use fillable.Storage.Maintenance.Marking.{
  Marked, gone, going, marked, delete_commit-IsBooked, delete_mark-IsBooked, delete_mark_lem,
}

-- After the mark the file's row is pending deletion, with the size that was read.
record IsPending (owner file : ℕ) (x : Option StoredRow) (db : Db) : Type 0 where
  at :
      (f : StoredRow)
      → x ≡ some f
      → (g : StoredRow) × (find file_key file db.files ≡ some g)
        × (g.owner_id ≡ owner)
        × (g.size_bytes ≡ f.size_bytes)
        × (g.state ≡ FileState.pending_delete)

mark-IsPending :
    (owner file : ℕ) (f : StoredRow) (db db' : Db) (x : Option StoredRow)
    → find file_key file db.files ≡ some f
    → f.owner_id ≡ owner
    → Marked file f db db' x
    → IsPending owner file x db'
mark-IsPending owner file f db db' x found o (gone s e _) = record {
  at = λ g p. absurd (ground arith);
}
mark-IsPending owner file f db db' x found o (going s e q) = record {
  at = λ g p. (f, ground arith, o, ground arith, s);
}
mark-IsPending owner file f db db' x found o (marked s e q) = record {
  at = λ g p. (
    made_pending f,
    ground (arith, q, find-update file_key file file made_pending db.files (λ r e. e)),
    o,
    ground arith,
    refl,
  );
}

abbrev Booked : World → Type 0
Booked w = IsBooked w.db

abbrev Going : ℕ → ℕ → Option StoredRow → World → Type 0
Going owner file x w = Booked w × IsPending owner file x w.db

module _ (d : Deletion) (owner file : ℕ) where
  fails-Booked :
      (P : World → Type 0) (x : Option Error)
      → ((w : World) → P w → Booked w)
      → Triple P (fails x) (λ _. P) Booked
  fails-Booked P none h = Triple-done tt (λ w p. p)
  fails-Booked P (some e) h = Triple-throw e h

  present-Booked : (x : Option StoredRow) → Triple Booked (present x) (λ _. Booked) Booked
  present-Booked none = Triple-throw _ (λ w p. p)
  present-Booked (some _) = Triple-done tt (λ w p. p)

  unlink-Booked :
      (x : Option StoredRow)
      → Triple (Going owner file x) (unlink d owner file x) (λ _. Booked) Booked
  unlink-Booked none = Triple-done false (λ w p. p.0)
  unlink-Booked (some f) =
      Triple-bind _ _ (fails-Booked (Going owner file (some f)) d.remove (λ w p. p.0)) λ _.
        Triple-bind {Q = λ _. Going owner file (some f)}
          (in_fs (remove_links f.reservation_id owner file)) _
          (Triple-in_fs _ (λ w p. p.0) (λ w a fs p e. p))
          λ _.
            Triple-bind {Q = λ _. Booked} (in_db (delete_commit d.env owner file f.size_bytes)) _
              (Triple-in_db _ (λ w p. p.0)
                (λ w a db p e.
                  let (g, found, o, s, st) = p.1.at f refl in
                  delete_commit-IsBooked d.env owner file f.size_bytes g w.db db a p.0 found o s st
                    e))
              λ _. Triple-done true (λ w p. p)

  outcome-Booked :
      (r : Outcome Error Bool × World) → Post (λ _. Booked) Booked r → Booked (read_outcome r).1
  outcome-Booked (ok b, w) h = h
  outcome-Booked (err e, w) h = h

  -- On books that balance, `delete_file`, whether it completes, is refused or fails half way,
  -- leaves the counters of every account equal to the sums over its rows, with keys and links
  -- intact.
  pub delete_file-IsBooked :
      (w : World) → IsBooked w.db → IsBooked (delete_file d owner file w).1.db
  unfolding delete_file
  delete_file-IsBooked w v =
      let steps : Triple Booked _ (λ _. Booked) Booked =
        Triple-bind (present (owned_file owner file w.db)) _ (present-Booked _) λ _.
          Triple-bind (fails d.lock) _ (fails-Booked Booked d.lock (λ w p. p)) λ _.
            Triple-bind {Q = Going owner file} (in_db (delete_mark d.authorize owner file)) _
              (Triple-in_db _ (λ w p. p)
                (λ w x db p e.
                  let (f, found, o, m) = delete_mark_lem d.authorize owner file w.db db x e in
                  (
                    delete_mark-IsBooked d.authorize owner file w.db db x p e,
                    mark-IsPending owner file f w.db db x found o m,
                  )))
              λ x. unlink-Booked x in
      outcome-Booked _ (steps.at w v)
