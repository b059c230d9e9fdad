-- ===== src/Documents/Copies.antt =====
-- `finalize` of `create` of backend/app/documents/copies.py, and `copy_intent` of
-- backend/app/jobs/service.py. The identities that `uuid5` derives from the stored file are the arguments
-- `target` and `version`; what `bind` made of the model and `rebase_discovery` (Fields/Rebase) of a
-- snapshot are arguments too.
pub mod Independent
use fillable.Common.{
  ℕ, String, Bool, true, false, not, ◌&&◌, ◌||◌, Option, none, some, List, [], ◌∷◌, ◌==◌, is_some,
  if◌then◌else◌, ◌>>=◌, ◌>>◌, pure, gets, raise, raise_if, modify, Outcome, ok, err,
}
use fillable.Common.Table.{find}
use fillable.Documents.Schema.{
  Db, AppError, Resource, ResourceState, Version, Job, JobStatus, Snapshot, resource_key,
  version_key, job_key, operation_conflict, integrity,
}
use fillable.Documents.Session.{Action, SessionState, active_user, resource}
use fillable.Documents.RevisionCommit.{insert_version}
use fillable.Jobs.Service.{intent, new_job, job_of}

pub record CopyRequest : Type 0 where
  pub source_version_id : ℕ
  pub title : String

-- The model and the review of the copy, bound to its version, the count of what was not
-- supported, and the name of the file that the source was made from.
pub record Copied : Type 0 where
  pub document : ℕ
  pub review : Option ℕ
  pub unsupported : ℕ
  pub original_filename : String

abbrev is_success : JobStatus → Bool
is_success JobStatus.succeeded = true
is_success _ = false

-- The succeeded job of a version, of which there is one at most.
abbrev pub source_job : ℕ → ℕ → List Job → Option Job
source_job owner version [] = none
source_job owner version (j ∷ js) =
    if j.owner_id == owner && j.source_version_id == version && is_success j.status
    then some j
    else source_job owner version js

abbrev pub copied_job : ℕ → ℕ → ℕ → ℕ → ℕ → Option ℕ → Snapshot → Job
copied_job now fresh owner target version summary snapshot =
    record (new_job now fresh owner target version) {
      status = JobStatus.succeeded;
      summary = summary;
      field_snapshot = some snapshot;
    }

-- INSERT under the primary key and the unique pair of document and version.
abbrev insert_job : Job → Action Unit
insert_job j = do
  taken ← gets (λ db.
      is_some (find job_key j.id db.jobs)
      || is_some (job_of j.document_id j.source_version_id db.jobs))
  raise_if taken integrity
  modify (λ db. record db { jobs = j ∷ db.jobs })

abbrev insert_rebased : ℕ → ℕ → ℕ → ℕ → ℕ → Option ℕ → Outcome AppError Snapshot → Action Unit
insert_rebased now fresh owner target version summary (err e) = raise e
insert_rebased now fresh owner target version summary (ok snapshot) =
    insert_job (copied_job now fresh owner target version summary snapshot)

abbrev pub plain_intent : ℕ → ℕ → ℕ → ℕ → ℕ → Action Unit
plain_intent now fresh owner target version = do _ ← intent now fresh owner target version; pure tt

abbrev pub copy_job :
    ℕ → ℕ → ℕ → ℕ → ℕ → (Snapshot → Outcome AppError Snapshot) → Option Job → Action Unit
copy_job now fresh owner target version rebase none = plain_intent now fresh owner target version
copy_job now fresh owner target version rebase (some j) = elim j.field_snapshot [
  | none ↦ plain_intent now fresh owner target version
  | some s ↦ insert_rebased now fresh owner target version j.summary (rebase s)
]

unfoldable pub copy_intent :
    ℕ → ℕ → ℕ → ℕ → ℕ → ℕ → (Snapshot → Outcome AppError Snapshot) → Action Unit
copy_intent now fresh owner source_version target version rebase = do
  source ← gets (λ db. source_job owner source_version db.jobs)
  copy_job now fresh owner target version rebase source

abbrev pub new_document : ℕ → ℕ → ℕ → ℕ → ℕ → String → String → Resource
new_document now target owner file version title original_filename = record {
  id = target;
  owner_id = owner;
  kind = "document";
  title = title;
  state = ResourceState.active;
  original_filename = original_filename;
  original_file_id = file;
  current_version_id = version;
  trashed_at = none;
  purge_after = none;
  updated_at = now;
}

abbrev pub first_version : ℕ → ℕ → ℕ → ℕ → Copied → Version
first_version version target owner file copied = record {
  id = version;
  document_id = target;
  owner_id = owner;
  file_id = file;
  parent_version_id = none;
  restored_from_version_id = none;
  number = 1;
  document_model = some copied.document;
  field_review = copied.review;
  unsupported_count = copied.unsupported;
}

abbrev insert_document : Resource → Action Unit
insert_document r = do
  taken ← gets (λ db. is_some (find resource_key r.id db.resources))
  raise_if taken integrity
  modify (λ db. record db { resources = r ∷ db.resources })

-- `finalize`, in the transaction that commits the file.
unfoldable pub finalize :
    ℕ
    → ℕ
    → ℕ
    → ℕ
    → SessionState
    → ℕ
    → ℕ
    → CopyRequest
    → ℕ
    → Copied
    → (Snapshot → Outcome AppError Snapshot)
    → Action Unit
finalize now fresh target version state owner identity request file copied rebase = do
  _ ← active_user now state
  source ← resource owner identity
  raise_if (not (source.current_version_id == request.source_version_id)) operation_conflict
  insert_document
      (new_document now target owner file version request.title copied.original_filename)
  insert_version (first_version version target owner file copied)
  copy_intent now fresh owner request.source_version_id target version rebase
