-- ===== src/Documents/Deletion/Sparing.antt =====
-- Whose files the deletion of backend/app/documents/deletion.py takes.
use mathlib.Core.Path.{subst}
use fillable.Common.{
  ℕ, ◌≡◌, ◌≢◌, ◌⊎◌, refl, Bool, true, false, Option, none, some, arith, ltb, ok, Bool-cases,
  Option-cases, inl, inr,
}
use fillable.Common.Table.{find, key-find}
use fillable.Documents.Schema.{Db, Resource, Version, resource_key, version_key}
use fillable.Documents.Session.{SessionState, active_user}
use fillable.Documents.Rows.{find-update_where, exists-find, file_key, exists}
use fillable.Documents.Trash.{is_deleted, is_trashed}
use fillable.Documents.Deletion.{
  request_deletion, mark_row, deleted_in, shares_original, shares_version, is_selected, is_doomed,
  to_pending,
}

-- What a deletion did: nothing, or the whole change, once no other document shares a file.
abbrev Deleted : ℕ → ℕ → Resource → Db → Db → Type 0
Deleted owner identity row db db' =
    (db' ≡ db)
    ⊎ ((db' ≡ deleted_in owner identity row.original_file_id db)
        × (exists (shares_original owner identity row.original_file_id db) db.resources ≡ false)
        × (exists (shares_version owner identity row.original_file_id db) db.versions ≡ false))

pub mark_row-Deleted :
    (owner identity : ℕ) (row : Resource) (db db' : Db)
    → mark_row owner identity row db ≡ ok (tt, db')
    → Deleted owner identity row db db'
unfolding mark_row
mark_row-Deleted owner identity row db db' h = elim (Bool-cases (is_deleted row.state)) [
  | inl gone ↦ inl (ground arith)
  | inr there ↦ inr (ground arith, ground arith, ground arith)
]

pub request_deletion-shape :
    (now owner identity : ℕ) (state : Option SessionState) (expired_only : Bool) (db db' : Db)
    (row : Resource)
    → find resource_key identity db.resources ≡ some row
    → request_deletion now owner identity state expired_only db ≡ ok (tt, db')
    → (db' ≡ db) ⊎ (mark_row owner identity row db ≡ ok (tt, db'))
unfolding request_deletion active_user
request_deletion-shape now owner identity none false db db' row found h = inr (ground arith)
request_deletion-shape now owner identity none true db db' row found h =
    elim (Bool-cases (is_trashed row.state)) [
      | inr kept ↦ inl (ground arith)
      | inl inside ↦ elim (Option-cases row.purge_after) [
        | inl never ↦ absurd (ground arith)
        | inr (t, q) ↦ elim (Bool-cases (ltb now t)) [
          | inl early ↦ inl (ground arith)
          | inr due ↦ inr (ground arith)
        ]
      ]
    ]
request_deletion-shape now owner identity (some s) false db db' row found h = inr (ground arith)
request_deletion-shape now owner identity (some s) true db db' row found h =
    elim (Bool-cases (is_trashed row.state)) [
      | inr kept ↦ inl (ground arith)
      | inl inside ↦ elim (Option-cases row.purge_after) [
        | inl never ↦ absurd (ground arith)
        | inr (t, q) ↦ elim (Bool-cases (ltb now t)) [
          | inl early ↦ inl (ground arith)
          | inr due ↦ inr (ground arith)
        ]
      ]
    ]

-- A file that the deletion would take belongs to no other document.
module _ (owner identity original : ℕ) (db : Db) (file : ℕ)
    (free : is_selected owner identity original db file ≡ false) where
  pub deleted_in-spares :
      find file_key file (deleted_in owner identity original db).storage.files
      ≡ find file_key file db.storage.files
  unfolding deleted_in
  deleted_in-spares =
      let u =
        find-update_where file_key (is_doomed owner identity original db) to_pending file
          db.storage.files (λ _. refl) in
      elim (Option-cases (find file_key file db.storage.files)) [
        | inl missing ↦ ground (arith, u)
        | inr (f, found) ↦ ground (arith, u, key-find file_key file db.storage.files found)
      ]

-- A deletion that succeeds, requested or by expiry, leaves the row of the original file of every
-- other document that is found as it was.
pub request_deletion-spares_original :
    (now owner identity other : ℕ) (state : Option SessionState) (expired_only : Bool) (db db' : Db)
    (row r : Resource)
    → find resource_key identity db.resources ≡ some row
    → find resource_key other db.resources ≡ some r
    → other ≢ identity
    → request_deletion now owner identity state expired_only db ≡ ok (tt, db')
    → find file_key r.original_file_id db'.storage.files
      ≡ find file_key r.original_file_id db.storage.files
unfolding shares_original
request_deletion-spares_original now owner identity other state expired_only db db' row r found
      there different h =
    elim (request_deletion-shape now owner identity state expired_only db db' row found h) [
      | inl same ↦ ground arith
      | inr marked ↦ elim (mark_row-Deleted owner identity row db db' marked) [
        | inl same ↦ ground arith
        | inr (changed, originals, files) ↦
            let own = key-find resource_key other db.resources there in
            let alone =
              exists-find resource_key (shares_original owner identity row.original_file_id db)
                other db.resources {r = r} there originals in
            ground (
              arith,
              changed,
              deleted_in-spares owner identity row.original_file_id db r.original_file_id
                  (ground (arith, own, alone)),
            )
      ]
    ]

-- A deletion that succeeds, requested or by expiry, leaves the row of the file of every version of
-- another document as it was.
pub request_deletion-spares_version :
    (now owner identity version : ℕ) (state : Option SessionState) (expired_only : Bool)
    (db db' : Db) (row : Resource) (v : Version)
    → find resource_key identity db.resources ≡ some row
    → find version_key version db.versions ≡ some v
    → v.document_id ≢ identity
    → request_deletion now owner identity state expired_only db ≡ ok (tt, db')
    → find file_key v.file_id db'.storage.files ≡ find file_key v.file_id db.storage.files
unfolding shares_version
request_deletion-spares_version now owner identity version state expired_only db db' row v found
      there different h =
    elim (request_deletion-shape now owner identity state expired_only db db' row found h) [
      | inl same ↦ ground arith
      | inr marked ↦ elim (mark_row-Deleted owner identity row db db' marked) [
        | inl same ↦ ground arith
        | inr (changed, originals, files) ↦
            let apart =
              exists-find version_key (shares_version owner identity row.original_file_id db)
                version db.versions {r = v} there files in
            ground (
              arith,
              changed,
              deleted_in-spares owner identity row.original_file_id db v.file_id
                  (ground (arith, apart)),
            )
      ]
    ]

-- A file that another document holds, as its original or by a version.
abbrev pub IsElsewhere : ℕ → Db → ℕ → Type 0
IsElsewhere identity db file =
    ((other : ℕ) × (r : Resource) × (find resource_key other db.resources ≡ some r)
      × (other ≢ identity)
      × (r.original_file_id ≡ file))
    ⊎ ((version : ℕ) × (v : Version) × (find version_key version db.versions ≡ some v)
        × (v.document_id ≢ identity)
        × (v.file_id ≡ file))

-- A deletion that succeeds, requested or by expiry, of a document that is found leaves the row of
-- every file as it was that another document was made from or that a version of another document
-- has.
pub request_deletion-spares :
    (now owner identity file : ℕ) (state : Option SessionState) (expired_only : Bool) (db db' : Db)
    (row : Resource)
    → find resource_key identity db.resources ≡ some row
    → IsElsewhere identity db file
    → request_deletion now owner identity state expired_only db ≡ ok (tt, db')
    → find file_key file db'.storage.files ≡ find file_key file db.storage.files
request_deletion-spares now owner identity file state expired_only db db' row found
      (inl (other, r, there, apart, same)) h =
    subst (λ x. find file_key x db'.storage.files ≡ find file_key x db.storage.files) same
      (request_deletion-spares_original now owner identity other state expired_only db db' row r
        found there apart h)
request_deletion-spares now owner identity file state expired_only db db' row found
      (inr (version, v, there, apart, same)) h =
    subst (λ x. find file_key x db'.storage.files ≡ find file_key x db.storage.files) same
      (request_deletion-spares_version now owner identity version state expired_only db db' row v
        found there apart h)
