-- ===== src/Jobs/Service.antt =====
-- `intent`, `submit`, `status` and `fields` of backend/app/jobs/service.py.
use fillable.Common.{
  ℕ, ◌+◌, Bool, true, false, not, ◌&&◌, Option, none, some, List, [], ◌∷◌, ◌==◌, leb, if◌then◌else◌,
  is_none, ok, err, ◌>>=◌, gets, raise, pure,
}
use fillable.Common.Table.{update, count}
use fillable.Documents.Schema.{
  Job, JobStatus, Snapshot, rate_limited, stale_field_snapshot, job_key,
}
use fillable.Documents.Session.{Action, SessionState, active_user, resource}

-- The row of a document's revision; the pair is unique.
abbrev pub job_of : ℕ → ℕ → List Job → Option Job
job_of document version [] = none
job_of document version (j ∷ js) =
    if j.document_id == document && j.source_version_id == version
    then some j
    else job_of document version js

abbrev pub is_pending : JobStatus → Bool
is_pending JobStatus.queued = true
is_pending JobStatus.running = true
is_pending _ = false

abbrev pub occupies : ℕ → Job → Bool
occupies owner j = j.owner_id == owner && is_pending j.status

-- A failed job, and a success whose snapshot is gone, are run again.
abbrev pub repeatable : Job → Bool
repeatable j = elim j.status [
  | JobStatus.failed ↦ true
  | JobStatus.succeeded ↦ is_none j.field_snapshot
  | _ ↦ false
]

abbrev pub requeued : ℕ → Job → Job
requeued now j = record j {
  status = JobStatus.queued;
  attempt = j.attempt + 1;
  retry_until = j.attempt + 3;
  lease_until = none;
  dispatched_at = none;
  failed_code = false;
  summary = none;
  field_snapshot = none;
  updated_at = now;
}

abbrev pub new_job : ℕ → ℕ → ℕ → ℕ → ℕ → Job
new_job now fresh owner document version = record {
  id = fresh;
  document_id = document;
  owner_id = owner;
  source_version_id = version;
  status = JobStatus.queued;
  attempt = 1;
  retry_until = 3;
  lease_until = none;
  dispatched_at = none;
  failed_code = false;
  summary = none;
  field_snapshot = none;
  updated_at = now;
}

abbrev pub max_pending : ℕ
max_pending = 5

-- The write of `intent` once its row and the limit are known.
abbrev pub enqueue : ℕ → ℕ → ℕ → ℕ → ℕ → Option Job → Action Job
enqueue now fresh owner document version none = λ db. ok (
  new_job now fresh owner document version,
  record db { jobs = new_job now fresh owner document version ∷ db.jobs },
)
enqueue now fresh owner document version (some j) =
    λ db. ok (requeued now j, record db { jobs = update job_key j.id (requeued now) db.jobs })

abbrev pub settled : Option Job → Bool
settled none = false
settled (some j) = not (repeatable j)

abbrev pub or_new : Job → Option Job → Job
or_new d none = d
or_new d (some j) = j

unfoldable pub intent : ℕ → ℕ → ℕ → ℕ → ℕ → Action Job
intent now fresh owner document version db =
    let row = job_of document version db.jobs in
    if settled row
    then ok (or_new (new_job now fresh owner document version) row, db)
    else if leb max_pending (count (occupies owner) db.jobs)
    then err rate_limited
    else enqueue now fresh owner document version row db

unfoldable pub submit : ℕ → ℕ → SessionState → ℕ → Action Job
submit now fresh state identity = do
  owner ← active_user now state
  document ← resource owner identity
  intent now fresh owner identity document.current_version_id

-- `ProcessingInfo.status`, with `not_started` for no row.
pub data Progress : Type 0 where
  not_started : Progress
  started : JobStatus → Progress

unfoldable pub status : ℕ → ℕ → Action Progress
status owner identity = do
  document ← resource owner identity
  row ← gets (λ db. job_of identity document.current_version_id db.jobs)
  pure (elim row [ none ↦ not_started | some j ↦ started j.status ])

abbrev pub published : ℕ → Job → Action (Progress × Option Snapshot)
published version j = elim j.status [
  | JobStatus.succeeded ↦ elim j.field_snapshot [
    | none ↦ pure (not_started, none)
    | some s ↦
        if s.source_version_id == version
        then pure (started JobStatus.succeeded, some s)
        else raise stale_field_snapshot
  ]
  | other ↦ pure (started other, none)
]

unfoldable pub fields : ℕ → ℕ → Action (Progress × Option Snapshot)
fields owner identity = do
  document ← resource owner identity
  row ← gets (λ db. job_of identity document.current_version_id db.jobs)
  elim row [ none ↦ pure (not_started, none) | some j ↦ published document.current_version_id j ]
