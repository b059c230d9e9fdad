-- ===== src/Jobs/Worker.antt =====
-- `claim` and `finish` of backend/app/jobs/worker.py, and `process` around them. What the worker
-- makes of the file between the two, `inspect_file`, is an argument: a summary and a snapshot, or
-- none after any exception.
use fillable.Common.{
  ℕ, ◌+◌, Bool, true, false, not, ◌||◌, Option, none, some, ◌==◌, leb, ltb, if◌then◌else◌, Outcome,
  ok, err,
}
use fillable.Common.Table.{find, update}
use fillable.Documents.Schema.{
  Db, Job, JobStatus, Snapshot, Resource, Version, AppError, stale_field_snapshot, no_result,
  job_key, resource_key, user_key, version_key,
}
use fillable.Documents.Session.{Action, is_active_state}

abbrev pub lease_seconds : ℕ
lease_seconds = 45

-- The document with its owner's flag, and the job, both locked.
pub record Locked : Type 0 where
  pub owner_active : Bool
  pub document : Resource
  pub job : Job

abbrev lock_document : Db → Job → Option Resource → Outcome AppError (Option Locked)
lock_document db j none = err no_result
lock_document db j (some d) = elim (find user_key d.owner_id db.users) [
  | none ↦ err no_result
  | some u ↦ ok (some (record { owner_active = u.is_active; document = d; job = j }))
]

-- `locked` only reads; its `.one()` raises where the document or its owner is missing.
unfoldable pub locked : ℕ → Db → Outcome AppError (Option Locked)
locked identity db = elim (find job_key identity db.jobs) [
  | none ↦ ok none
  | some j ↦ lock_document db j (find resource_key j.document_id db.resources)
]

abbrev pub is_stale : Locked → Bool
is_stale l =
    not l.owner_active
    || not (is_active_state l.document.state)
    || not (l.document.current_version_id == l.job.source_version_id)

abbrev pub is_queued : JobStatus → Bool
is_queued JobStatus.queued = true
is_queued _ = false

abbrev pub is_running : JobStatus → Bool
is_running JobStatus.running = true
is_running _ = false

abbrev pub staled : ℕ → Job → Job
staled now j = record j { status = JobStatus.stale; lease_until = none; updated_at = now }

abbrev pub claimed : ℕ → Job → Job
claimed now j = record j {
  status = JobStatus.running;
  lease_until = some (now + lease_seconds);
  updated_at = now;
}

-- What a claimed job hands to `inspect_file`.
pub record Claim : Type 0 where
  pub owner_id : ℕ
  pub file_id : ℕ
  pub source_version_id : ℕ

abbrev claim_file : ℕ → Job → Db → Option Version → Outcome AppError (Option Claim × Db)
claim_file now j db none = err no_result
claim_file now j db (some v) = ok (
  some (record {
    owner_id = j.owner_id;
    file_id = v.file_id;
    source_version_id = j.source_version_id;
  }),
  record db { jobs = update job_key j.id (claimed now) db.jobs },
)

abbrev pub claim_locked : ℕ → ℕ → Db → Option Locked → Outcome AppError (Option Claim × Db)
claim_locked now attempt db none = ok (none, db)
claim_locked now attempt db (some l) =
    if not (l.job.attempt == attempt) || not (is_queued l.job.status)
    then ok (none, db)
    else if is_stale l
    then ok (none, record db { jobs = update job_key l.job.id (staled now) db.jobs })
    else claim_file now l.job db (find version_key l.job.source_version_id db.versions)

abbrev pub claim_after :
    ℕ → ℕ → Db → Outcome AppError (Option Locked) → Outcome AppError (Option Claim × Db)
claim_after now attempt db (err e) = err e
claim_after now attempt db (ok l) = claim_locked now attempt db l

unfoldable pub claim : ℕ → ℕ → ℕ → Action (Option Claim)
unfolding locked
claim now identity attempt db = claim_after now attempt db (locked identity db)

pub record Inspection : Type 0 where
  pub summary : ℕ
  pub snapshot : Snapshot

abbrev pub succeeded_with : ℕ → Inspection → Job → Job
succeeded_with now i j = record j {
  lease_until = none;
  updated_at = now;
  status = JobStatus.succeeded;
  summary = some i.summary;
  field_snapshot = some i.snapshot;
  failed_code = false;
}

abbrev pub retried : ℕ → Job → Job
retried now j = record j {
  lease_until = none;
  updated_at = now;
  status = JobStatus.queued;
  attempt = j.attempt + 1;
  dispatched_at = none;
}

abbrev pub given_up : ℕ → Job → Job
given_up now j = record j {
  lease_until = none;
  updated_at = now;
  status = JobStatus.failed;
  failed_code = true;
}

-- `job["lease_until"] <= now()`; a running job has a lease.
abbrev pub expired_by : ℕ → Option ℕ → Bool
expired_by now none = true
expired_by now (some t) = leb t now

-- The new row of a job whose result is in time.
abbrev pub outcome : ℕ → Locked → Option Inspection → Outcome AppError (Job → Job)
outcome now l result = if is_stale l then ok (staled now) else elim result [
  | some i ↦
      if i.snapshot.source_version_id == l.job.source_version_id
      then ok (succeeded_with now i)
      else err stale_field_snapshot
  | none ↦ ok (if ltb l.job.attempt l.job.retry_until then retried now else given_up now)
]

abbrev pub finish_locked :
    ℕ → ℕ → Option Inspection → Db → Option Locked → Outcome AppError (Unit × Db)
finish_locked now attempt result db none = ok (tt, db)
finish_locked now attempt result db (some l) =
    if not (l.job.attempt == attempt)
      || not (is_running l.job.status)
      || expired_by now l.job.lease_until
    then ok (tt, db)
    else elim (outcome now l result) [
      | err e ↦ err e
      | ok f ↦ ok (tt, record db { jobs = update job_key l.job.id f db.jobs })
    ]

abbrev pub finish_after :
    ℕ → ℕ → Option Inspection → Db → Outcome AppError (Option Locked) → Outcome AppError (Unit × Db)
finish_after now attempt result db (err e) = err e
finish_after now attempt result db (ok l) = finish_locked now attempt result db l

unfoldable pub finish : ℕ → ℕ → ℕ → Option Inspection → Action Unit
unfolding locked
finish now identity attempt result db = finish_after now attempt result db (locked identity db)

-- `process`: claim, inspect, finish; a `ValueError` or a database error ends it quietly.
abbrev pub committed : {A : Type 0} → Outcome AppError (A × Db) → Db → Db
committed (ok (a, db')) db = db'
committed (err e) db = db

abbrev pub proceed :
    ℕ → (Claim → Option Inspection) → ℕ → ℕ → Db → Outcome AppError (Option Claim × Db) → Db
proceed later inspect identity attempt db (err e) = db
proceed later inspect identity attempt db (ok (none, db')) = db'
proceed later inspect identity attempt db (ok (some c, db')) =
    committed (finish later identity attempt (inspect c) db') db'

unfoldable pub process : ℕ → ℕ → (Claim → Option Inspection) → ℕ → ℕ → Db → Db
process now later inspect identity attempt db =
    proceed later inspect identity attempt db (claim now identity attempt db)
