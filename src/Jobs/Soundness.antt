-- ===== src/Jobs/Soundness.antt =====
-- The CHECK constraints of backend/app/jobs/schema.py, and which writes of a row keep them.
use fillable.Common.{
  ℕ, ◌+◌, ◌≡◌, ◌≤◌, refl, Bool, true, false, Option, none, some, List, [], ◌∷◌, All, arith, ◌==◌,
  is_some, not, ◌&&◌, ◌<◌, ◌∙◌, sym,
}
use mathlib.Core.Path.{subst}
use fillable.Common.Table.{find, update, IsKeyed, IsKeyed-update, All-keyed, All-update}
use fillable.Documents.Schema.{Job, JobStatus, Snapshot, job_key}
use fillable.Jobs.Service.{job_of, requeued, new_job}
use fillable.Jobs.Worker.{
  Inspection, is_running, is_queued, staled, claimed, succeeded_with, retried, given_up,
}
use fillable.Jobs.Dispatcher.{advanced, lost, overdue}

-- The code of a failure, by the status: a failed row has it, a stale one may.
abbrev pub code_agrees : JobStatus → Bool → Bool
code_agrees JobStatus.failed code = code
code_agrees JobStatus.stale code = true
code_agrees _ code = not code

abbrev is_succeeded : JobStatus → Bool
is_succeeded JobStatus.succeeded = true
is_succeeded _ = false

-- Only a success has a snapshot, and it is the revision's own.
abbrev pub snapshot_agrees : JobStatus → ℕ → Option Snapshot → Bool
snapshot_agrees status version none = true
snapshot_agrees status version (some s) = is_succeeded status && s.source_version_id == version

pub record IsSound (j : Job) : Type 0 where
  pub attempts : 1 ≤ j.attempt
  pub ordered : j.attempt ≤ j.retry_until
  pub bounded : j.retry_until ≤ j.attempt + 2
  pub leased : is_some j.lease_until ≡ is_running j.status
  pub coded : code_agrees j.status j.failed_code ≡ true
  pub bound : snapshot_agrees j.status j.source_version_id j.field_snapshot ≡ true

pub record IsValid (jobs : List Job) : Type 0 where
  pub keyed : IsKeyed job_key jobs
  pub sound : All IsSound jobs

-- The rows that the code writes.
module _ (now : ℕ) (j : Job) (v : IsSound j) where
  pub requeued-IsSound : IsSound (requeued now j)
  requeued-IsSound = ground arith

  pub staled-IsSound : is_succeeded j.status ≡ false → IsSound (staled now j)
  staled-IsSound n = ground arith

  pub claimed-IsSound : is_queued j.status ≡ true → IsSound (claimed now j)
  claimed-IsSound q = ground arith

  pub succeeded_with-IsSound :
      (i : Inspection)
      → i.snapshot.source_version_id ≡ j.source_version_id
      → IsSound (succeeded_with now i j)
  succeeded_with-IsSound i e = ground arith

  pub retried-IsSound :
      is_running j.status ≡ true → j.attempt < j.retry_until → IsSound (retried now j)
  retried-IsSound r l = ground arith

  pub given_up-IsSound : is_running j.status ≡ true → IsSound (given_up now j)
  given_up-IsSound r = ground arith

  pub lost-IsSound : overdue now j ≡ true → IsSound (lost now j)
  lost-IsSound o = ground arith

  pub advanced-IsSound : is_queued j.status ≡ true → IsSound (advanced now j)
  advanced-IsSound q = ground arith

new_job-IsSound :
    (now fresh owner document version : ℕ) → IsSound (new_job now fresh owner document version)
new_job-IsSound now fresh owner document version = ground arith

-- Rewriting the row of a key.
pub update-IsValid :
    (f : Job → Job) (jobs : List Job) (k : ℕ) {j : Job}
    → IsValid jobs
    → find job_key k jobs ≡ some j
    → ((x : Job) → (f x).id ≡ x.id)
    → IsSound (f j)
    → IsValid (update job_key k f jobs)
update-IsValid f jobs k {j} v found same s = record {
  keyed = IsKeyed-update job_key k f jobs (λ r e. same r ∙ e) v.keyed;
  sound =
      All-update job_key (λ x. x ≡ j) IsSound k f jobs
        (λ x e _. subst (λ y. IsSound (f y)) (sym e) s)
        (All-keyed job_key (λ x. x ≡ j) k jobs {r = j} v.keyed found refl) v.sound;
}

pub find-job_of :
    (document version : ℕ) (jobs : List Job) {j : Job}
    → IsKeyed job_key jobs
    → job_of document version jobs ≡ some j
    → find job_key j.id jobs ≡ some j
find-job_of document version [] u e = cc
find-job_of document version (x ∷ js) {j} u e =
    ground (arith, find-job_of document version js {j = j} u.1)

pub new_job-IsValid :
    (now fresh owner document version : ℕ) (jobs : List Job)
    → IsValid jobs
    → find job_key fresh jobs ≡ none
    → IsValid (new_job now fresh owner document version ∷ jobs)
new_job-IsValid now fresh owner document version jobs v free = record {
  keyed = (free, v.keyed);
  sound = (new_job-IsSound now fresh owner document version, v.sound);
}
