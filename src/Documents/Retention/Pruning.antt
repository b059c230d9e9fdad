-- ===== src/Documents/Retention/Pruning.antt =====
-- The whole of `prune` (backend/app/documents/retention.py), which spares what is protected.
use mathlib.Core.Path.{subst}
use fillable.Common.{
  Outcome-cases, ℕ, ◌≡◌, ◌≢◌, ◌∙◌, ap, sym, ◌==◌, refl, Bool, Option, none, some, List, [], ◌∷◌,
  arith, Outcome, ok, err, Bool-cases, Option-cases, inl, inr, take, leb, ◌&&◌,
}
use fillable.Common.Table.{find, key-find}
use fillable.Common.Queries.{page}
use fillable.Documents.Schema.{Db, Version, version_key}
use fillable.Documents.Rows.{is_ready}
use fillable.Documents.Retention.Policy.{authorize, candidates}
use fillable.Documents.Retention.Prune.{
  Archive, storage_of, with_answer, refused, granted_rows, asked_rows, callback_rows, prune_version,
  prune_each, prune,
}
use fillable.Documents.Retention.Sparing.{
  IsProtected, IsProtected-authorize, authorize-IsAuthorized,
}
use fillable.Storage.Schema.{not_found, no_result, StoredRow, FileState, Error, Db as StorageDb}
use fillable.Storage.Service.{file_key, account_key, lock_account, write_account}
use fillable.Storage.Finishing.{made_deleted}
use fillable.Storage.World.{World}
use fillable.Storage.Maintenance.{
  owned_file, made_pending, Deletion, unlink, delete_commit, delete_mark, delete_file,
}
use fillable.Storage.Reading.{read_outcome}
use fillable.Documents.Retention.Protection.{
  IsProtected-pruned, Spared, Spared-storage, find-update_other,
}

-- `delete_file` touches no other row than its file's.
module _ (owner k file : ℕ) where
  delete_commit-other :
      (d : Deletion) (size : ℕ) (db db' : StorageDb)
      → file ≢ k
      → delete_commit d.env owner k size db ≡ ok (tt, db')
      → find file_key file db'.files ≡ find file_key file db.files
  unfolding delete_commit lock_account write_account
  delete_commit-other d size db db' apart h =
      let u =
        find-update_other k file (made_deleted d.env) db.files (λ r e. e) (λ e. apart (sym e)) in
      ground (arith, u)

  unlink-other :
      (d : Deletion) (row : Option StoredRow) (w : World)
      → file ≢ k
      → find file_key file (unlink d owner k row w).1.db.files ≡ find file_key file w.db.files
  unfolding fillable.Storage.FileSystem.remove
  unlink-other d none w apart = refl
  unlink-other d (some row) w apart = elim (Option-cases d.remove) [
    | inr (e, q) ↦ ground (arith, q)
    | inl q ↦ elim (Outcome-cases (delete_commit d.env owner k row.size_bytes w.db)) [
      | inl (e, failed) ↦ ground (arith, q, failed)
      | inr ((_, db'), went) ↦
          let u = delete_commit-other d row.size_bytes w.db db' apart went in
          ground (arith, q, went, u)
    ]
  ]

module _ (owner k file : ℕ) (d : Deletion) (w : World) where
  delete_mark-other :
      (row : Option StoredRow) (db' : StorageDb)
      → file ≢ k
      → delete_mark d.authorize owner k w.db ≡ ok (row, db')
      → find file_key file db'.files ≡ find file_key file w.db.files
  unfolding delete_mark lock_account
  delete_mark-other row db' apart h = elim (Option-cases (find file_key k w.db.files)) [
    | inl missing ↦ absurd (ground (arith, missing))
    | inr (g, found) ↦
        let own = key-find file_key k w.db.files found in
        let u =
          find-update_other g.id file made_pending w.db.files (λ r e. e)
            (λ e. apart (sym e ∙ own)) in
        ground (arith, found, u)
  ]

  read_outcome-same : (x : Outcome Error Bool × World) → (read_outcome x).1 ≡ x.1
  read_outcome-same (ok b, w) = refl
  read_outcome-same (err e, w) = refl

  delete_file-other :
      file ≢ k
      → find file_key file (delete_file d owner k w).1.db.files ≡ find file_key file w.db.files
  unfolding delete_file
  delete_file-other apart = elim (Option-cases (owned_file owner k w.db)) [
    | inl missing ↦ ground (arith, missing)
    | inr (g, there) ↦ elim (Option-cases d.lock) [
      | inr (x, held) ↦ ground (arith, there, held)
      | inl free ↦ elim (Outcome-cases (delete_mark d.authorize owner k w.db)) [
        | inl (e, failed) ↦ ground (arith, there, free, failed)
        | inr ((row, db), went) ↦
            let w' : World = record w { db = db } in
            let first = delete_mark-other row db apart went in
            let last = unlink-other owner k file d row w' apart in
            let same = read_outcome-same (unlink d owner k row w') in
            ground (arith, there, free, went, first, last, same)
      ]
    ]
  ]

  -- A mark that fails leaves everything.
  delete_file-failed :
      (e : Error) → delete_mark d.authorize owner k w.db ≡ err e → (delete_file d owner k w).1 ≡ w
  unfolding delete_file
  delete_file-failed e h = elim (Option-cases (owned_file owner k w.db)) [
    | inl missing ↦ ground (arith, missing)
    | inr (g, there) ↦ elim (Option-cases d.lock) [
      | inr (x, held) ↦ ground (arith, there, held)
      | inl free ↦ ground (arith, there, free, h)
    ]
  ]

-- The mark of a ready file fails with its callback.
delete_mark-refused :
    (owner k : ℕ) (f : StoredRow) (refusal : Error) (db : StorageDb)
    → find file_key k db.files ≡ some f
    → f.state ≡ FileState.ready
    → (e : Error) × (delete_mark (some refusal) owner k db ≡ err e)
unfolding delete_mark lock_account
delete_mark-refused owner k f refusal db found ready =
    elim (Option-cases (find account_key owner db.accounts)) [
      | inl missing ↦ (not_found, ground (arith, missing))
      | inr (account, there) ↦ elim (Bool-cases (f.owner_id == owner)) [
        | inl own ↦ (refusal, ground (arith, there, found, own, ready))
        | inr foreign ↦ (no_result, ground (arith, there, found, foreign))
      ]
    ]

module _ (file : ℕ) (f : StoredRow) (d : Deletion) (c : Version) where
  granted-Spared :
      (db : Db) (o : Outcome Error (Unit × Db))
      → authorize d.env.now c db ≡ o
      → Spared file f db
      → Spared file f (granted_rows db o) × ((granted_rows db o).storage ≡ db.storage)
  granted-Spared db (err e) q s = (s, refl)
  granted-Spared db (ok (_, db')) q (at, ready, v) =
      let same = (authorize-IsAuthorized d.env.now c db db' q).1 in
      subst (λ x. Spared file f x × (x.storage ≡ db.storage)) same
        ((at, ready, IsProtected-pruned d.env.now file c db v), refl)

  asked-Spared :
      (db : Db) (o : Option StoredRow)
      → Spared file f db
      → Spared file f (asked_rows d.env.now c db o)
        × ((asked_rows d.env.now c db o).storage ≡ db.storage)
  asked-Spared db none s = (s, refl)
  asked-Spared db (some g) s = elim (Bool-cases (is_ready g.state)) [
    | inl asked ↦ rw asked (granted-Spared db (authorize d.env.now c db) refl s)
    | inr other ↦ rw other (s, refl)
  ]

  callback-Spared :
      (db : Db)
      → Spared file f db
      → Spared file f (callback_rows d c db) × ((callback_rows d c db).storage ≡ db.storage)
  unfolding callback_rows
  callback-Spared db s = elim (Option-cases d.lock) [
    | inr (e, held) ↦ rw held (s, refl)
    | inl free ↦
        elim (Outcome-cases
          (delete_mark (with_answer d c db).authorize c.owner_id c.file_id db.storage)) [
            | inl (e, failed) ↦ rw (free, failed) (s, refl)
            | inr (x, went) ↦
                rw (free, went) (asked-Spared db (owned_file c.owner_id c.file_id db.storage) s)
          ]
  ]

  -- The candidate's own file is not protected, or the mark fails.
  own-same :
      (a : Archive)
      → Spared file f a.db
      → file ≡ c.file_id
      → (delete_file (with_answer d c a.db) c.owner_id c.file_id (storage_of a)).1 ≡ storage_of a
  own-same a (at, ready, v) here = elim (Outcome-cases (authorize d.env.now c a.db)) [
    | inr ((_, db₁), allowed) ↦
        absurd
          (IsProtected-authorize d.env.now c a.db db₁ (subst (IsProtected a.db) here v) allowed)
    | inl (refusal, q) ↦
        let (e, failed) =
          delete_mark-refused c.owner_id c.file_id f refusal a.db.storage
            (subst (λ k. find file_key k a.db.storage.files ≡ some f) here at) ready in
        delete_file-failed c.owner_id c.file_id file (with_answer d c a.db) (storage_of a) e
          (ap (λ x. delete_mark (refused x) c.owner_id c.file_id a.db.storage) q ∙ failed)
  ]

  prune_version-Spared :
      (a : Archive) → Spared file f a.db → Spared file f (prune_version d c a).1.db
  unfolding prune_version
  prune_version-Spared a s =
      let d' = with_answer d c a.db in
      let w = (delete_file d' c.owner_id c.file_id (storage_of a)).1 in
      let (kept, same) = callback-Spared a.db s in
      let untouched : find file_key file w.db.files ≡ find file_key file a.db.storage.files =
        elim (Bool-cases (file == c.file_id)) [
          | inr apart ↦
              delete_file-other c.owner_id c.file_id file d' (storage_of a)
                (λ e. ground (arith, apart, e))
          | inl here ↦ ap (λ x. find file_key file x.db.files) (own-same a s (ground (arith, here)))
        ] in
      Spared-storage file f (callback_rows d c a.db) w.db kept
        (untouched ∙ ap (λ x. find file_key file x.files) (sym same))

module _ (file : ℕ) (f : StoredRow) where
  prune_each-Spared :
      (around : ℕ → Deletion) (read : Db) (vs : List Version) (a : Archive)
      → Spared file f a.db
      → Spared file f (prune_each around read vs a).2.db
  unfolding prune_each
  prune_each-Spared around read [] a s = s
  prune_each-Spared around read (v ∷ vs) a s =
      prune_each-Spared around read vs (prune_version (around v.id) v a).1
        (prune_version-Spared file f (around v.id) v a s)

-- A run of `prune`, whatever it answers and whatever faults come on the way, leaves the row of
-- every ready file as it was that a document was made from, or that is the file of a first
-- version, of a current version or of one of the latest versions that the policy keeps.
pub prune-spares :
    (around : ℕ → Deletion) (after : Option ℕ) (batch file : ℕ) (a : Archive) (f : StoredRow)
    → find file_key file a.db.storage.files ≡ some f
    → f.state ≡ FileState.ready
    → IsProtected a.db file
    → find file_key file (prune around after batch a).1.db.storage.files ≡ some f
unfolding prune
prune-spares around after batch file a f at ready v =
    elim (Bool-cases (leb 1 batch && leb batch 100)) [
      | inr refused ↦ ground (arith, refused)
      | inl allowed ↦ elim (Option-cases a.db.keep_latest) [
        | inl unset ↦ ground (arith, allowed, unset)
        | inr (keep, policy) ↦
            let rows = page version_key after batch (candidates keep a.db) in
            let spared = prune_each-Spared file f around a.db (take batch rows) a (at, ready, v) in
            rw (allowed, policy) spared.0
      ]
    ]
