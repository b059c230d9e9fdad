-- ===== src/Jobs/Lifecycle.antt =====
-- What the worker's `claim` and `finish` (backend/app/jobs/worker.py) leave of the number of times that a
-- job may still be taken up.
use fillable.Common.{
  ℕ, suc, ◌+◌, ◌-◌, ◌≡◌, ◌≤◌, refl, false, not, ◌&&◌, Option, none, some, arith, ◌==◌, ltb, ok, err,
  Outcome, Option-cases, Bool-cases, inl, inr,
}
use fillable.Common.Table.{find, update, find-update, key-find}
use fillable.Documents.Schema.{Db, Job, JobStatus, AppError, job_key, version_key}
use fillable.Jobs.Worker.{
  Locked, Claim, Inspection, is_queued, is_running, is_stale, staled, claimed, succeeded_with,
  retried, given_up, expired_by, locked, claim_locked, finish_locked, claim_after, finish_after,
}
use fillable.Jobs.Calls.{handed}
use fillable.Jobs.Validity.{locked_lem}

-- How often the worker may still take up a job that is not submitted again.
abbrev pub claims_left : Job → ℕ
claims_left j = elim j.status [
  | JobStatus.queued ↦ suc (j.retry_until - j.attempt)
  | JobStatus.running ↦ j.retry_until - j.attempt
  | _ ↦ 0
]

-- A transaction that hands out the job `k` as often as `n` says.
abbrev pub Moves : ℕ → ℕ → Db → Db → Type 0
Moves n k db db' =
    (j : Job)
    → find job_key k db.jobs ≡ some j
    → (j' : Job) × (find job_key k db'.jobs ≡ some j') × (n + claims_left j' ≤ claims_left j)

pub stays : (n k : ℕ) (db db' : Db) → db'.jobs ≡ db.jobs → n ≡ 0 → Moves n k db db'
stays n k db db' e none_of j f = (j, ground arith, omega (arith, none_of))

pub rewrites :
    (n k m : ℕ) (j₀ : Job) (f : Job → Job) (db db' : Db)
    → find job_key m db.jobs ≡ some j₀
    → ((x : Job) → (f x).id ≡ x.id)
    → db'.jobs ≡ update job_key j₀.id f db.jobs
    → (m ≡ k → n + claims_left (f j₀) ≤ claims_left j₀)
    → ((m == k) ≡ false → n ≡ 0)
    → Moves n k db db'
rewrites n k m j₀ f db db' found same e fewer none_of j h =
    let u = find-update job_key j₀.id k f db.jobs (λ r q. ground (arith, same r)) in
    let own = key-find job_key m db.jobs found in
    elim (Bool-cases (m == k)) [
      | inl hit ↦
          let here : m ≡ k = ground (arith, hit) in
          let agree : j₀ ≡ j = ground (arith, found, here, h) in
          (f j₀, ground (arith, u, found, own, h, here, e), rw (← agree) (fewer here))
      | inr miss ↦ (j, ground (arith, u, own, miss, h, e), omega (arith, none_of miss))
    ]

module _ (now attempt k : ℕ) (db db' : Db) (l : Locked) (m : ℕ)
    (found : find job_key m db.jobs ≡ some l.job) where
  claim_locked-Moves :
      (x : Option Claim)
      → claim_locked now attempt db (some l) ≡ ok (x, db')
      → Moves (handed k m x) k db db'
  claim_locked-Moves x h = elim (Bool-cases (l.job.attempt == attempt && is_queued l.job.status)) [
    | inr other ↦ stays (handed k m x) k db db' (ground arith) (ground arith)
    | inl same ↦ elim (Bool-cases (is_stale l)) [
      | inl old ↦
          rewrites (handed k m x) k m l.job (staled now) db db' found (λ x. refl) (ground arith)
            (λ e. ground arith) (λ e. ground arith)
      | inr current ↦ elim (Option-cases (find version_key l.job.source_version_id db.versions)) [
        | inl missing ↦ absurd (ground arith)
        | inr (file, there) ↦
            rewrites (handed k m x) k m l.job (claimed now) db db' found (λ x. refl) (ground arith)
              (λ e. ground arith) (λ e. ground arith)
      ]
    ]
  ]

  finish_locked-Moves :
      (result : Option Inspection) (x : Unit)
      → finish_locked now attempt result db (some l) ≡ ok (x, db')
      → Moves 0 k db db'
  finish_locked-Moves result x h =
      elim (Bool-cases (
        l.job.attempt == attempt
        && is_running l.job.status
        && not (expired_by now l.job.lease_until))) [
          | inr other ↦ stays 0 k db db' (ground arith) refl
          | inl same ↦ elim (Bool-cases (is_stale l)) [
            | inl old ↦
                rewrites 0 k m l.job (staled now) db db' found (λ x. refl) (ground arith)
                  (λ e. ground arith) (λ e. refl)
            | inr current ↦ elim (Option-cases result) [
              | inr (i, e) ↦
                  elim (Bool-cases (i.snapshot.source_version_id == l.job.source_version_id)) [
                    | inl own ↦
                        rewrites 0 k m l.job (succeeded_with now i) db db' found (λ x. refl)
                          (ground arith) (λ e. ground arith) (λ e. refl)
                    | inr foreign ↦ absurd (ground arith)
                  ]
              | inl e ↦ elim (Bool-cases (ltb l.job.attempt l.job.retry_until)) [
                | inl more ↦
                    rewrites 0 k m l.job (retried now) db db' found (λ x. refl) (ground arith)
                      (λ e. ground arith) (λ e. refl)
                | inr last ↦
                    rewrites 0 k m l.job (given_up now) db db' found (λ x. refl) (ground arith)
                      (λ e. ground arith) (λ e. refl)
              ]
            ]
          ]
        ]

pub claim_after-Moves :
    (now identity attempt k : ℕ) (db db' : Db) (x : Option Claim)
    (r : Outcome AppError (Option Locked))
    → locked identity db ≡ r
    → claim_after now attempt db r ≡ ok (x, db')
    → Moves (handed k identity x) k db db'
claim_after-Moves now identity attempt k db db' x (err e) q h = cc
claim_after-Moves now identity attempt k db db' x (ok none) q h =
    stays (handed k identity x) k db db' (ground arith) (ground arith)
claim_after-Moves now identity attempt k db db' x (ok (some l)) q h =
    claim_locked-Moves now attempt k db db' l identity (locked_lem identity db l q) x h

pub finish_after-Moves :
    (now identity attempt k : ℕ) (result : Option Inspection) (db db' : Db) (x : Unit)
    (r : Outcome AppError (Option Locked))
    → locked identity db ≡ r
    → finish_after now attempt result db r ≡ ok (x, db')
    → Moves 0 k db db'
finish_after-Moves now identity attempt k result db db' x (err e) q h = cc
finish_after-Moves now identity attempt k result db db' x (ok none) q h =
    stays 0 k db db' (ground arith) refl
finish_after-Moves now identity attempt k result db db' x (ok (some l)) q h =
    finish_locked-Moves now attempt k db db' l identity (locked_lem identity db l q) result x h
