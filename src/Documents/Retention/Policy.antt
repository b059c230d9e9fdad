-- ===== src/Documents/Retention/Policy.antt =====
-- The policy and the candidates of backend/app/documents/retention.py, and `authorize`.
use fillable.Common.{
  ℕ, ◌+◌, Bool, true, false, not, ◌&&◌, ◌||◌, Option, none, some, List, ◌==◌, leb, eq_option,
  if◌then◌else◌, Tx, ok, err, ◌>>◌, gets, raise_if, modify,
}
use fillable.Common.Table.{find, update}
use fillable.Common.Queries.{where_rows}
use fillable.Documents.Schema.{Db, Resource, Version, Job, JobStatus, resource_key, version_key}
use fillable.Documents.Session.{is_active_state}
use fillable.Documents.Rows.{update_where, exists, is_ready}
use fillable.Storage.Schema.{Error, protected_version, invalid_request}
use fillable.Storage.Service.{file_key}

abbrev pub max_keep : ℕ
max_keep = 10000

abbrev within_keep : Option ℕ → Bool
within_keep none = true
within_keep (some n) = leb 1 n && leb n max_keep

-- `configure`; the answer is the policy after it.
unfoldable pub configure : Option ℕ → Tx Db Error (Option ℕ × ℕ)
configure amount = do
  raise_if (not (within_keep amount)) invalid_request
  modify (λ db.
      if eq_option db.keep_latest amount
      then db
      else record db { keep_latest = amount; policy_revision = db.policy_revision + 1 })
  gets (λ db. (db.keep_latest, db.policy_revision))

abbrev has_ready_file : Db → Version → Bool
has_ready_file db v = elim (find file_key v.file_id db.storage.files) [
  | none ↦ false
  | some f ↦ is_ready f.state
]

-- The conditions of `candidates` on a version, its document and the document's current version.
abbrev pub is_old : ℕ → Version → Resource → Version → Bool
is_old keep v r current =
    is_active_state r.state
    && leb 2 v.number
    && not (v.id == r.current_version_id)
    && not (v.file_id == r.original_file_id)
    && leb (v.number + keep) current.number

abbrev old_of : ℕ → Version → Resource → Option Version → Bool
old_of keep v r none = false
old_of keep v r (some current) = is_old keep v r current

abbrev old_in : Db → ℕ → Version → Option Resource → Bool
old_in db keep v none = false
old_in db keep v (some r) = old_of keep v r (find version_key r.current_version_id db.versions)

unfoldable pub is_candidate : Db → ℕ → Version → Bool
is_candidate db keep v =
    has_ready_file db v && old_in db keep v (find resource_key v.document_id db.resources)

unfoldable pub candidates : ℕ → Db → List Version
candidates keep db = where_rows (is_candidate db keep) db.versions

abbrev pub eligible : Db → ℕ → Version → Option Version → Bool
eligible db keep candidate none = false
eligible db keep candidate (some v) = v.file_id == candidate.file_id && is_candidate db keep v

abbrev pub is_shared : Version → Resource → Bool
is_shared candidate r =
    not (r.id == candidate.document_id) && r.original_file_id == candidate.file_id

abbrev pub is_referenced : Version → Version → Bool
is_referenced candidate v =
    v.file_id == candidate.file_id
    && (not (v.document_id == candidate.document_id) || not (v.id == candidate.id))

abbrev pub emptied : Version → Version
emptied v = record v { document_model = none; field_review = none }

abbrev job_of_version : ℕ → Job → Bool
job_of_version version j = j.source_version_id == version

abbrev pub outdated : ℕ → Job → Job
outdated now j = record j {
  field_snapshot = none;
  status = JobStatus.stale;
  lease_until = none;
  updated_at = now;
}

abbrev pub pruned_in : ℕ → Version → Db → Db
pruned_in now candidate db = record db {
  versions = update version_key candidate.id emptied db.versions;
  jobs = update_where (job_of_version candidate.id) (outdated now) db.jobs;
}

abbrev owns_document : Version → Option Resource → Bool
owns_document candidate none = false
owns_document candidate (some r) = r.owner_id == candidate.owner_id

abbrev is_protected : Db → Version → ℕ → Bool
is_protected db candidate keep =
    not (eligible db keep candidate (find version_key candidate.id db.versions))
    || exists (is_shared candidate) db.resources
    || exists (is_referenced candidate) db.versions

-- `authorize`, the callback in the transaction that marks the file.
unfoldable pub authorize : ℕ → Version → Tx Db Error Unit
authorize now candidate db =
    if not (owns_document candidate (find resource_key candidate.document_id db.resources))
    then err protected_version
    else elim db.keep_latest [
      | none ↦ err protected_version
      | some keep ↦
          if is_protected db candidate keep
          then err protected_version
          else ok (tt, pruned_in now candidate db)
    ]
