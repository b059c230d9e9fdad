-- ===== src/Documents/Deletion.antt =====
-- The transaction of `purge` of backend/app/documents/deletion.py, which records the intent; the
-- bytes go by `delete_file` (Storage/Maintenance), one file at a time.
pub mod Sparing
use fillable.Common.{
  ℕ, Bool, true, false, not, ◌&&◌, ◌||◌, Option, none, some, List, [], ◌∷◌, ◌==◌, ltb,
  if◌then◌else◌, ◌>>=◌, ◌>>◌, pure, gets, raise, raise_if, or_raise, modify,
}
use fillable.Common.Table.{find, update}
use fillable.Documents.Schema.{
  Db, Resource, ResourceState, Version, Job, resource_key, lease_key, not_found, operation_conflict,
  no_result,
}
use fillable.Documents.Session.{Action, SessionState, active_user}
use fillable.Documents.Rows.{delete, update_where, exists, is_ready, file_key}
use fillable.Documents.Trash.{is_trashed, is_deleted, lock_owner}
use fillable.Storage.Schema.{StoredRow, FileState}

abbrev pub version_with : ℕ → ℕ → Version → Bool
version_with identity file v = v.document_id == identity && v.file_id == file

-- `retained`: the document's original and the files of its versions.
abbrev pub is_retained : ℕ → ℕ → List Version → ℕ → Bool
is_retained identity original versions file =
    file == original || exists (version_with identity file) versions

abbrev retained_row : ℕ → ℕ → ℕ → List Version → Option StoredRow → Bool
retained_row owner identity original versions none = false
retained_row owner identity original versions (some f) =
    f.owner_id == owner && is_retained identity original versions f.id

-- file IN (selected)
unfoldable pub is_selected : ℕ → ℕ → ℕ → Db → ℕ → Bool
is_selected owner identity original db file =
    retained_row owner identity original db.versions (find file_key file db.storage.files)

unfoldable pub shares_original : ℕ → ℕ → ℕ → Db → Resource → Bool
shares_original owner identity original db r =
    not (r.id == identity) && is_selected owner identity original db r.original_file_id

unfoldable pub shares_version : ℕ → ℕ → ℕ → Db → Version → Bool
shares_version owner identity original db v =
    not (v.document_id == identity) && is_selected owner identity original db v.file_id

abbrev pub wiped_job : Job → Job
wiped_job j = record j { field_snapshot = none }

-- `document_model={}`; no model is `none`.
abbrev pub wiped_version : Version → Version
wiped_version v = record v { document_model = none; field_review = none; unsupported_count = 0 }

abbrev pub to_deleted : Resource → Resource
to_deleted r = record r { state = ResourceState.deleted }

abbrev pub is_doomed : ℕ → ℕ → ℕ → Db → StoredRow → Bool
is_doomed owner identity original db f =
    is_selected owner identity original db f.id && is_ready f.state

abbrev pub to_pending : StoredRow → StoredRow
to_pending f = record f { state = FileState.pending_delete }

abbrev job_of_document : ℕ → Job → Bool
job_of_document identity j = j.document_id == identity

abbrev pub version_of_document : ℕ → Version → Bool
version_of_document identity v = v.document_id == identity

unfoldable pub deleted_in : ℕ → ℕ → ℕ → Db → Db
deleted_in owner identity original db = record db {
  leases = delete lease_key identity db.leases;
  jobs = update_where (job_of_document identity) wiped_job db.jobs;
  versions = update_where (version_of_document identity) wiped_version db.versions;
  resources = update resource_key identity to_deleted db.resources;
  storage = record db.storage {
    files = update_where (is_doomed owner identity original db) to_pending db.storage.files;
  };
}

-- An expiry leaves alone what is not in the trash or not due; a row in the trash has a deadline.
abbrev skips : ℕ → Bool → Resource → Action Bool
skips now false row = pure false
skips now true row =
    if is_trashed row.state
    then elim row.purge_after [ none ↦ raise no_result | some t ↦ pure (ltb now t) ]
    else pure true

abbrev signed_in : ℕ → Option SessionState → Action Unit
signed_in now none = pure tt
signed_in now (some state) = do _ ← active_user now state; pure tt

unfoldable pub mark_row : ℕ → ℕ → Resource → Action Unit
mark_row owner identity row = do
  shared ← gets (λ db.
      exists (shares_original owner identity row.original_file_id db) db.resources
      || exists (shares_version owner identity row.original_file_id db) db.versions)
  raise_if shared operation_conflict
  modify
      (λ db. if is_deleted row.state then db else deleted_in owner identity row.original_file_id db)

unfoldable pub request_deletion : ℕ → ℕ → ℕ → Option SessionState → Bool → Action Unit
request_deletion now owner identity state expired_only = do
  lock_owner owner
  signed_in now state
  row ← or_raise (← gets (λ db. find resource_key identity db.resources)) not_found
  raise_if (not (row.owner_id == owner)) not_found
  skip ← skips now expired_only row
  if skip then pure tt else mark_row owner identity row
