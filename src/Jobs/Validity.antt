-- ===== src/Jobs/Validity.antt =====
-- The rows that the service and the worker of backend/app/jobs/ write keep the CHECK constraints
-- of schema.py.
use fillable.Common.{
  ℕ, ◌≡◌, refl, Option, none, some, ok, err, Outcome, arith, ◌==◌, ltb, not, ◌&&◌, Option-cases,
  Bool-cases, inl, inr,
}
use mathlib.Core.Path.{subst}
use fillable.Common.Table.{find, update, All-find, key-find}
use fillable.Documents.Schema.{Db, Job, AppError, job_key, version_key}
use fillable.Jobs.Service.{job_of, repeatable, requeued, intent}
use fillable.Jobs.Worker.{
  Locked, Claim, Inspection, is_running, is_queued, is_stale, staled, claimed, succeeded_with,
  retried, given_up, expired_by, locked, claim_locked, finish_locked, claim_after, finish_after,
  claim, finish, process, committed, proceed,
}
use fillable.Jobs.Soundness.{
  IsSound, IsValid, claimed-IsSound, find-job_of, given_up-IsSound, new_job-IsValid,
  requeued-IsSound, retried-IsSound, staled-IsSound, succeeded_with-IsSound, update-IsValid,
}

-- On a valid jobs table in which the fresh identity is not used, `intent`, when it succeeds,
-- leaves a valid table.
pub intent-IsValid :
    (now fresh owner document version : ℕ) (db db' : Db) (j : Job)
    → IsValid db.jobs
    → find job_key fresh db.jobs ≡ none
    → intent now fresh owner document version db ≡ ok (j, db')
    → IsValid db'.jobs
unfolding intent
intent-IsValid now fresh owner document version db db' j v free h =
    elim (Option-cases (job_of document version db.jobs)) [
      | inl e ↦
          subst IsValid (ground arith)
            (new_job-IsValid now fresh owner document version db.jobs v free)
      | inr (r, e) ↦ elim (Bool-cases (repeatable r)) [
        | inl again ↦
            let found = find-job_of document version db.jobs {j = r} v.keyed e in
            subst IsValid (ground arith) (
              update-IsValid (requeued now) db.jobs r.id {j = r} v found (λ x. refl)
                (requeued-IsSound now r
                  (All-find job_key IsSound r.id db.jobs {r = r} v.sound found)))
        | inr stays ↦ subst IsValid (ground arith) v
      ]
    ]

pub locked_lem :
    (identity : ℕ) (db : Db) (l : Locked)
    → locked identity db ≡ ok (some l)
    → find job_key identity db.jobs ≡ some l.job
unfolding locked
locked_lem identity db l h = ground arith

-- The row that a transaction has locked is sound, and may be rewritten by a sound one.
module _ (db : Db) (k : ℕ) {j : Job} (v : IsValid db.jobs)
    (found : find job_key k db.jobs ≡ some j) where
  pub row-IsSound : IsSound j
  row-IsSound = All-find job_key IsSound k db.jobs {r = j} v.sound found

  pub rewrite-IsValid :
      (f : Job → Job)
      → ((x : Job) → (f x).id ≡ x.id)
      → (IsSound j → IsSound (f j))
      → IsValid (update job_key j.id f db.jobs)
  rewrite-IsValid f same s =
      rw (key-find job_key k db.jobs found)
        (update-IsValid f db.jobs k {j = j} v found same (s row-IsSound))

module _ (now attempt : ℕ) (db db' : Db) (l : Locked) (k : ℕ) (v : IsValid db.jobs)
    (found : find job_key k db.jobs ≡ some l.job) where
  claim_locked-IsValid :
      (x : Option Claim) → claim_locked now attempt db (some l) ≡ ok (x, db') → IsValid db'.jobs
  claim_locked-IsValid x h =
      elim (Bool-cases (l.job.attempt == attempt && is_queued l.job.status)) [
        | inr other ↦ subst IsValid (ground arith) v
        | inl same ↦ elim (Bool-cases (is_stale l)) [
          | inl old ↦ subst IsValid (ground arith) (
              rewrite-IsValid db k {j = l.job} v found (staled now) (λ x. refl)
                (λ s. staled-IsSound now l.job s (ground arith)))
          | inr current ↦
              elim (Option-cases (find version_key l.job.source_version_id db.versions)) [
                | inl missing ↦ absurd (ground arith)
                | inr (file, there) ↦ subst IsValid (ground arith) (
                    rewrite-IsValid db k {j = l.job} v found (claimed now) (λ x. refl)
                      (λ s. claimed-IsSound now l.job s (ground arith)))
              ]
        ]
      ]

  finish_locked-IsValid :
      (result : Option Inspection) (x : Unit)
      → finish_locked now attempt result db (some l) ≡ ok (x, db')
      → IsValid db'.jobs
  finish_locked-IsValid result x h =
      elim (Bool-cases (
        l.job.attempt == attempt
        && is_running l.job.status
        && not (expired_by now l.job.lease_until))) [
          | inr other ↦ subst IsValid (ground arith) v
          | inl same ↦ elim (Bool-cases (is_stale l)) [
            | inl old ↦ subst IsValid (ground arith) (
                rewrite-IsValid db k {j = l.job} v found (staled now) (λ x. refl)
                  (λ s. staled-IsSound now l.job s (ground arith)))
            | inr current ↦ elim (Option-cases result) [
              | inr (i, e) ↦
                  elim (Bool-cases (i.snapshot.source_version_id == l.job.source_version_id)) [
                    | inl own ↦ subst IsValid (ground arith) (
                        rewrite-IsValid db k {j = l.job} v found (succeeded_with now i) (λ x. refl)
                          (λ s. succeeded_with-IsSound now l.job s i (ground arith)))
                    | inr foreign ↦ absurd (ground arith)
                  ]
              | inl e ↦ elim (Bool-cases (ltb l.job.attempt l.job.retry_until)) [
                | inl more ↦ subst IsValid (ground arith) (
                    rewrite-IsValid db k {j = l.job} v found (retried now) (λ x. refl)
                      (λ s. retried-IsSound now l.job s (ground arith) (ground arith)))
                | inr last ↦ subst IsValid (ground arith) (
                    rewrite-IsValid db k {j = l.job} v found (given_up now) (λ x. refl)
                      (λ s. given_up-IsSound now l.job s (ground arith)))
              ]
            ]
          ]
        ]

claim_after-IsValid :
    (now identity attempt : ℕ) (db db' : Db) (x : Option Claim)
    (r : Outcome AppError (Option Locked))
    → locked identity db ≡ r
    → IsValid db.jobs
    → claim_after now attempt db r ≡ ok (x, db')
    → IsValid db'.jobs
claim_after-IsValid now identity attempt db db' x (err e) q v h = cc
claim_after-IsValid now identity attempt db db' x (ok none) q v h = subst IsValid (ground arith) v
claim_after-IsValid now identity attempt db db' x (ok (some l)) q v h =
    claim_locked-IsValid now attempt db db' l identity v (locked_lem identity db l q) x h

finish_after-IsValid :
    (now identity attempt : ℕ) (result : Option Inspection) (db db' : Db) (x : Unit)
    (r : Outcome AppError (Option Locked))
    → locked identity db ≡ r
    → IsValid db.jobs
    → finish_after now attempt result db r ≡ ok (x, db')
    → IsValid db'.jobs
finish_after-IsValid now identity attempt result db db' x (err e) q v h = cc
finish_after-IsValid now identity attempt result db db' x (ok none) q v h =
    subst IsValid (ground arith) v
finish_after-IsValid now identity attempt result db db' x (ok (some l)) q v h =
    finish_locked-IsValid now attempt db db' l identity v (locked_lem identity db l q) result x h

transact-IsValid :
    {A : Type 0} (r : Outcome AppError (A × Db)) (db : Db)
    → IsValid db.jobs
    → ((a : A) (db' : Db) → r ≡ ok (a, db') → IsValid db'.jobs)
    → IsValid (committed r db).jobs
transact-IsValid (ok (a, db')) db v h = h a db' refl
transact-IsValid (err e) db v h = v

proceed-IsValid :
    (later : ℕ) (inspect : Claim → Option Inspection) (identity attempt : ℕ) (db : Db)
    (r : Outcome AppError (Option Claim × Db))
    → IsValid db.jobs
    → ((x : Option Claim) (db' : Db) → r ≡ ok (x, db') → IsValid db'.jobs)
    → IsValid (proceed later inspect identity attempt db r).jobs
unfolding finish
proceed-IsValid later inspect identity attempt db (err e) v h = v
proceed-IsValid later inspect identity attempt db (ok (none, db')) v h = h none db' refl
proceed-IsValid later inspect identity attempt db (ok (some c, db')) v h =
    let v' = h (some c) db' refl in
    transact-IsValid (finish later identity attempt (inspect c) db') db' v' (λ x db'' e.
      finish_after-IsValid later identity attempt (inspect c) db' db'' x (locked identity db') refl
        v' e)

-- On a valid jobs table, a whole run of the worker, whatever the inspection yields and whenever it
-- ends, leaves a valid table: unique keys, attempts within their bounds, a lease exactly while
-- running, a failure code as the status says, and a snapshot only on a success and of the row's
-- own revision.
pub process-IsValid :
    (now later : ℕ) (inspect : Claim → Option Inspection) (identity attempt : ℕ) (db : Db)
    → IsValid db.jobs
    → IsValid (process now later inspect identity attempt db).jobs
unfolding process claim
process-IsValid now later inspect identity attempt db v =
    proceed-IsValid later inspect identity attempt db (claim now identity attempt db) v
      (λ x db' e. claim_after-IsValid now identity attempt db db' x (locked identity db) refl v e)
