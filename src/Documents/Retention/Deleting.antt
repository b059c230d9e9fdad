-- ===== src/Documents/Retention/Deleting.antt =====
-- The storage's books under `prune` (backend/app/documents/retention.py).
use fillable.Common.{ℕ, Option, List, [], ◌∷◌, Option-cases, Bool-cases, inl, inr, ◌&&◌, leb, take}
use fillable.Common.Queries.{page}
use fillable.Documents.Schema.{Db, Version, version_key}
use fillable.Documents.Retention.Policy.{candidates}
use fillable.Documents.Retention.Prune.{
  Archive, storage_of, with_answer, prune_version, prune, prune_each,
}
use fillable.Storage.Accounting.Links.{IsBooked}
use fillable.Storage.Maintenance.{Deletion}
use fillable.Storage.Maintenance.Books.{delete_file-IsBooked}

prune_each-IsBooked :
    (around : ℕ → Deletion) (read : Db) (vs : List Version) (a : Archive)
    → IsBooked a.db.storage
    → IsBooked (prune_each around read vs a).2.db.storage
unfolding prune_each prune_version
prune_each-IsBooked around read [] a v = v
prune_each-IsBooked around read (c ∷ cs) a v =
    let d = with_answer (around c.id) c a.db in
    prune_each-IsBooked around read cs (prune_version (around c.id) c a).1
      (delete_file-IsBooked d c.owner_id c.file_id (storage_of a) v)

-- Pruning keeps the storage's books.
pub prune-IsBooked :
    (around : ℕ → Deletion) (after : Option ℕ) (batch : ℕ) (a : Archive)
    → IsBooked a.db.storage
    → IsBooked (prune around after batch a).1.db.storage
unfolding prune
prune-IsBooked around after batch a v = elim (Bool-cases (leb 1 batch && leb batch 100)) [
  | inr no_batch ↦ rw no_batch v
  | inl allowed ↦ elim (Option-cases a.db.keep_latest) [
    | inl unset ↦ rw (allowed, unset) v
    | inr (keep, policy) ↦
        let rows = take batch (page version_key after batch (candidates keep a.db)) in
        rw (allowed, policy) (prune_each-IsBooked around a.db rows a v)
  ]
]
