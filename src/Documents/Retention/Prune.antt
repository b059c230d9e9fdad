-- ===== src/Documents/Retention/Prune.antt =====
-- `prune` of backend/app/documents/retention.py, which calls `delete_file` with `authorize`.
use fillable.Common.{
  ℕ, ◌+◌, Bool, true, false, not, ◌&&◌, Option, none, some, List, [], ◌∷◌, leb, take, if◌then◌else◌,
  Outcome, ok, err,
}
use fillable.Common.Table.{find}
use fillable.Common.Queries.{page, next_cursor}
use fillable.Documents.Schema.{Db, Version, version_key}
use fillable.Documents.Rows.{is_ready}
use fillable.Storage.Schema.{
  StoredRow, Db as StorageDb, Error, no_result, storage_failure, integrity, invalid_request,
}
use fillable.Storage.Service.{file_key}
use fillable.Storage.World.{World}
use fillable.Storage.Maintenance.{owned_file, Deletion, delete_mark, delete_file}
use fillable.Storage.FileSystem.{Files}
use fillable.Documents.Retention.Policy.{authorize, candidates}

-- The documents' database beside the files.
pub record Archive : Type 0 where
  pub db : Db
  pub files : Files

abbrev pub storage_of : Archive → World
storage_of a = record { db = a.db.storage; files = a.files }

abbrev pub with_storage : Archive → World → Archive
with_storage a w = record { db = record a.db { storage = w.db }; files = w.files }

abbrev pub refused : Outcome Error (Unit × Db) → Option Error
refused (err e) = some e
refused (ok _) = none

-- `delete_file` with `authorize` as its callback, which answers in the transaction of the mark.
abbrev pub with_answer : Deletion → Version → Db → Deletion
with_answer d c db = record d { authorize = refused (authorize d.env.now c db) }

abbrev pub granted_rows : Db → Outcome Error (Unit × Db) → Db
granted_rows db (err e) = db
granted_rows db (ok (_, db')) = db'

-- The callback is asked for a ready file only.
abbrev pub asked_rows : ℕ → Version → Db → Option StoredRow → Db
asked_rows now c db none = db
asked_rows now c db (some f) = if is_ready f.state then granted_rows db (authorize now c db) else db

abbrev pub marked_rows : ℕ → Version → Db → Outcome Error (Option StoredRow × StorageDb) → Db
marked_rows now c db (err e) = db
marked_rows now c db (ok _) = asked_rows now c db (owned_file c.owner_id c.file_id db.storage)

-- What the callback wrote is committed with the mark.
unfoldable pub callback_rows : Deletion → Version → Db → Db
callback_rows d c db = elim d.lock [
  | some e ↦ db
  | none ↦
      marked_rows d.env.now c db
        (delete_mark (with_answer d c db).authorize c.owner_id c.file_id db.storage)
]

-- One candidate: `delete_file` on the storage, and the rows that `authorize` wrote.
unfoldable pub prune_version : Deletion → Version → Archive → Outcome Error Bool × Archive
prune_version d c a =
    let (r, w) = delete_file (with_answer d c a.db) c.owner_id c.file_id (storage_of a) in
    (r, with_storage (record a { db = callback_rows d c a.db }) w)

pub data PruneStatus : Type 0 where
  pruned already_deleted : PruneStatus
  failed : Error → PruneStatus

-- The database's own errors are a `storage_failure`.
abbrev pub prune_status : Outcome Error Bool → PruneStatus
prune_status (ok true) = PruneStatus.pruned
prune_status (ok false) = PruneStatus.already_deleted
prune_status (err integrity) = PruneStatus.failed storage_failure
prune_status (err no_result) = PruneStatus.failed storage_failure
prune_status (err e) = PruneStatus.failed e

abbrev size_of : Db → Version → ℕ
size_of db v = elim (find file_key v.file_id db.storage.files) [ none ↦ 0 | some f ↦ f.size_bytes ]

abbrev pub removed_by : Outcome Error Bool → ℕ → ℕ
removed_by (ok true) size = size
removed_by _ size = 0

-- Each candidate in its own surroundings; the sizes are those of the query.
unfoldable pub prune_each :
    (ℕ → Deletion) → Db → List Version → Archive → List (ℕ × PruneStatus) × ℕ × Archive
prune_each around read [] a = ([], 0, a)
prune_each around read (v ∷ vs) a =
    let (r, a₁) = prune_version (around v.id) v a in
    let (results, removed, a₂) = prune_each around read vs a₁ in
    ((v.id, prune_status r) ∷ results, removed_by r (size_of read v) + removed, a₂)

pub record Pruned : Type 0 where
  pub versions : List (ℕ × PruneStatus)
  pub bytes_removed : ℕ
  pub next_cursor : Option ℕ

unfoldable pub prune : (ℕ → Deletion) → Option ℕ → ℕ → Archive → Outcome Error Pruned × Archive
prune around after batch a =
    if not (leb 1 batch && leb batch 100) then (err invalid_request, a) else elim a.db.keep_latest [
      | none ↦ (ok (record { versions = []; bytes_removed = 0; next_cursor = none }), a)
      | some keep ↦
          let rows = page version_key after batch (candidates keep a.db) in
          let (results, removed, a') = prune_each around a.db (take batch rows) a in
          (
            ok (record {
              versions = results;
              bytes_removed = removed;
              next_cursor = next_cursor version_key batch rows;
            }),
            a',
          )
    ]
