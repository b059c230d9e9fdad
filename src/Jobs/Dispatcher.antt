-- ===== src/Jobs/Dispatcher.antt =====
-- `advance` and one round of `dispatch` of backend/app/jobs/dispatcher.py. The Redis queue is not
-- the source of truth: what it answers for a job is an argument.
use fillable.Common.{
  ℕ, ◌+◌, Bool, true, false, ◌&&◌, Option, none, some, List, [], ◌∷◌, ◌==◌, leb, ltb, if◌then◌else◌,
}
use fillable.Common.Table.{find, update}
use fillable.Documents.Schema.{Db, Job, JobStatus, job_key}
use fillable.Jobs.Worker.{is_queued, is_running}

-- The row of `advance`: a retry, or the failure after the last.
abbrev pub advanced : ℕ → Job → Job
advanced now j =
    if ltb j.attempt j.retry_until
    then record j {
      status = JobStatus.queued;
      attempt = j.attempt + 1;
      failed_code = false;
      lease_until = none;
      dispatched_at = none;
      updated_at = now;
    }
    else record j {
      status = JobStatus.failed;
      failed_code = true;
      lease_until = none;
      dispatched_at = none;
      updated_at = now;
    }

-- A running job whose lease ran out: the last attempt has failed, any other is queued again.
abbrev pub lost : ℕ → Job → Job
lost now j =
    if leb j.retry_until j.attempt
    then record j {
      status = JobStatus.failed;
      failed_code = true;
      lease_until = none;
      updated_at = now;
    }
    else record j {
      status = JobStatus.queued;
      attempt = j.attempt + 1;
      lease_until = none;
      updated_at = now;
    }

-- `row["lease_until"] < now()`
abbrev pub overdue : ℕ → Job → Bool
overdue now j = is_running j.status && elim j.lease_until [ none ↦ false | some t ↦ ltb t now ]

-- What the queue holds under the attempt's name.
pub data QueueState : Type 0 where
  -- the server cannot be reached, or fails on the way
  unreachable : QueueState
  absent : QueueState
  -- queued, deferred, scheduled, or started less than a lease ago
  busy : QueueState
  -- ended, or started too long ago
  dead : QueueState

pub record Counts : Type 0 where
  pub examined : ℕ
  pub enqueued : ℕ
  pub failed : ℕ

abbrev pub recover : ℕ → Job → Db → Db
recover now j db =
    if overdue now j then record db { jobs = update job_key j.id (lost now) db.jobs } else db

abbrev pub dispatched : ℕ → Job → Job
dispatched now j = record j { dispatched_at = some now }

-- `advance` only if the row is still queued at the attempt that the dead queue entry ran.
abbrev pub advance_dead : ℕ → ℕ → Option Job → Db → Counts → Db × Counts
advance_dead now attempt none db c = (db, c)
advance_dead now attempt (some j) db c =
    if is_queued j.status && j.attempt == attempt
    then (
      record db { jobs = update job_key j.id (advanced now) db.jobs },
      (if ltb j.attempt j.retry_until then c else record c { failed = c.failed + 1 }),
    )
    else (db, c)

-- UPDATE … WHERE id AND attempt
abbrev pub note_dispatch : ℕ → ℕ → ℕ → Db → Db
note_dispatch now identity attempt db = record db {
  jobs =
      update job_key identity (λ j. if j.attempt == attempt then dispatched now j else j) db.jobs;
}

-- What follows the queue's answer, and whether the round goes on.
abbrev pub ask : ℕ → ℕ → Job → QueueState → Db → Counts → Db × Counts × Bool
ask now identity j unreachable db c = (db, record c { failed = c.failed + 1 }, false)
ask now identity j absent db c =
    (note_dispatch now identity j.attempt db, record c { enqueued = c.enqueued + 1 }, true)
ask now identity j busy db c = (note_dispatch now identity j.attempt db, c, true)
ask now identity j dead db c =
    let (db', c') = advance_dead now j.attempt (find job_key identity db.jobs) db c in
    (db', c', true)

abbrev pub enqueue : ℕ → ℕ → QueueState → Option Job → Db → Counts → Db × Counts × Bool
enqueue now identity queue none db c = (db, c, false)
enqueue now identity queue (some j) db c =
    if is_queued j.status then ask now identity j queue db c else (db, c, true)

abbrev pub gave_up : ℕ → Job → Bool
gave_up now j = overdue now j && leb j.retry_until j.attempt

-- One identity of the round. The row is there, or `.one()` raises and the round ends.
abbrev pub visit_row : ℕ → ℕ → QueueState → Option Job → Db → Counts → Db × Counts × Bool
visit_row now identity queue none db c = (db, c, false)
visit_row now identity queue (some j) db c =
    let db' = recover now j db in
    if gave_up now j
    then (db', record c { failed = c.failed + 1 }, true)
    else enqueue now identity queue (find job_key identity db'.jobs) db' c

unfoldable pub visit : ℕ → QueueState → ℕ → Db → Counts → Db × Counts × Bool
visit now queue identity db c =
    visit_row now identity queue (find job_key identity db.jobs) db
      (record c { examined = c.examined + 1 })

-- The loop over the identities that the first query selected; it stops at a queue failure.
unfoldable pub dispatch : ℕ → (ℕ → QueueState) → List ℕ → Db → Counts → Db × Counts
dispatch now queue [] db c = (db, c)
dispatch now queue (k ∷ ks) db c =
    let (db', c', go_on) = visit now (queue k) k db c in
    let rest = dispatch now queue ks db' c' in if go_on then rest else (db', c')
