-- ===== src/Jobs/Attempts.antt =====
-- How often a job is handed to the worker (backend/app/jobs/worker.py and dispatcher.py).
use fillable.Common.{
  ℕ, ◌+◌, ◌≡◌, ◌≤◌, refl, Option, none, some, List, [], ◌∷◌, arith, ◌==◌, if◌then◌else◌, Bool-cases,
  inl, inr, Outcome, ok, err,
}
use fillable.Common.Table.{find, update, find-update}
use fillable.Documents.Schema.{Db, Job, AppError, job_key}
use fillable.Documents.Rows.{update_where, find-update_where}
use fillable.Documents.RevisionCommit.{is_pending_of}
use fillable.Jobs.Worker.{
  Claim, Inspection, is_queued, committed, claim, claim_after, finish, finish_after, locked, staled,
}
use fillable.Jobs.Dispatcher.{
  advanced, lost, overdue, dispatched, QueueState, unreachable, absent, busy, dead, Counts, recover,
  advance_dead, note_dispatch, ask, enqueue, gave_up, visit_row, visit, dispatch,
}
use fillable.Jobs.Soundness.{IsSound}
use fillable.Jobs.Calls.{Call, perform, handed_out, hands, inspections}
use fillable.Jobs.Lifecycle.{
  claims_left, Moves, stays, rewrites, claim_after-Moves, finish_after-Moves,
}

chain :
    (n m k : ℕ) (db db₁ db₂ : Db) → Moves n k db db₁ → Moves m k db₁ db₂ → Moves (n + m) k db db₂
chain n m k db db₁ db₂ f g j e =
    let (j₁, e₁, l₁) = f j e in let (j₂, e₂, l₂) = g j₁ e₁ in (j₂, e₂, omega (arith, l₁, l₂))

module _ (now m k : ℕ) (db : Db) where
  recover-Moves : (j : Job) → find job_key m db.jobs ≡ some j → Moves 0 k db (recover now j db)
  recover-Moves j e = elim (Bool-cases (overdue now j)) [
    | inl late ↦ rw late (
        rewrites 0 k m j (lost now) db (record db { jobs = update job_key j.id (lost now) db.jobs })
          e (λ x. ground arith) refl (λ q. ground arith) (λ q. refl))
    | inr fine ↦ rw fine (stays 0 k db db refl refl)
  ]

  advance_dead-Moves :
      (attempt : ℕ) (o : Option Job) (c : Counts)
      → find job_key m db.jobs ≡ o
      → Moves 0 k db (advance_dead now attempt o db c).0
  advance_dead-Moves attempt none c e = stays 0 k db db refl refl
  advance_dead-Moves attempt (some j) c e = elim (Bool-cases (is_queued j.status)) [
    | inr other ↦ rw other (stays 0 k db db refl refl)
    | inl queued ↦ elim (Bool-cases (j.attempt == attempt)) [
      | inl same ↦
          rw (queued, same)
            (rewrites 0 k m j (advanced now) db
              (record db { jobs = update job_key j.id (advanced now) db.jobs }) e
              (λ x. ground arith) refl (λ q. ground arith) (λ q. refl))
      | inr newer ↦ rw (queued, newer) (stays 0 k db db refl refl)
    ]
  ]

  note_dispatch-Moves : (attempt : ℕ) → Moves 0 k db (note_dispatch now m attempt db)
  note_dispatch-Moves attempt j e =
      let f = λ (x : Job). if x.attempt == attempt then dispatched now x else x in
      let u = find-update job_key m k f db.jobs (λ r q. ground (arith, q)) in
      elim (Bool-cases (m == k)) [
        | inl hit ↦ (f j, ground (arith, u, hit, e), ground arith)
        | inr miss ↦ (j, ground (arith, u, miss, e), omega arith)
      ]

  ask-Moves : (j : Job) (queue : QueueState) (c : Counts) → Moves 0 k db (ask now m j queue db c).0
  ask-Moves j unreachable c = stays 0 k db db refl refl
  ask-Moves j absent c = note_dispatch-Moves j.attempt
  ask-Moves j busy c = note_dispatch-Moves j.attempt
  ask-Moves j dead c = advance_dead-Moves j.attempt (find job_key m db.jobs) c refl

  enqueue-Moves :
      (queue : QueueState) (o : Option Job) (c : Counts)
      → Moves 0 k db (enqueue now m queue o db c).0
  enqueue-Moves queue none c = stays 0 k db db refl refl
  enqueue-Moves queue (some j) c = elim (Bool-cases (is_queued j.status)) [
    | inl queued ↦ rw queued (ask-Moves j queue c)
    | inr other ↦ rw other (stays 0 k db db refl refl)
  ]

visit_row-Moves :
    (now m k : ℕ) (queue : QueueState) (o : Option Job) (db : Db) (c : Counts)
    → find job_key m db.jobs ≡ o
    → Moves 0 k db (visit_row now m queue o db c).0
visit_row-Moves now m k queue none db c e = stays 0 k db db refl refl
visit_row-Moves now m k queue (some j) db c e =
    let first = recover-Moves now m k db j e in
    let db' = recover now j db in
    elim (Bool-cases (gave_up now j)) [
      | inl lost_it ↦ rw lost_it first
      | inr going ↦ rw going (
          chain 0 0 k db db' (enqueue now m queue (find job_key m db'.jobs) db' c).0 first
            (enqueue-Moves now m k db' queue (find job_key m db'.jobs) c))
    ]

dispatch-Moves :
    (now k : ℕ) (queue : ℕ → QueueState) (identities : List ℕ) (db : Db) (c : Counts)
    → Moves 0 k db (dispatch now queue identities db c).0
unfolding dispatch visit
dispatch-Moves now k queue [] db c = stays 0 k db db refl refl
dispatch-Moves now k queue (m ∷ ms) db c =
    let c' : Counts = record c { examined = c.examined + 1 } in
    let r = visit_row now m (queue m) (find job_key m db.jobs) db c' in
    let first = visit_row-Moves now m k (queue m) (find job_key m db.jobs) db c' refl in
    elim (Bool-cases r.2) [
      | inl go_on ↦ rw go_on (
          chain 0 0 k db r.0 (dispatch now queue ms r.0 r.1).0 first
            (dispatch-Moves now k queue ms r.0 r.1))
      | inr stop ↦ rw stop first
    ]

claimed-Moves :
    (now identity attempt k : ℕ) (db : Db) (o : Outcome AppError (Option Claim × Db))
    → claim_after now attempt db (locked identity db) ≡ o
    → Moves (handed_out k identity o) k db (committed o db)
claimed-Moves now identity attempt k db (err e) q = stays 0 k db db refl refl
claimed-Moves now identity attempt k db (ok (c, db')) q =
    claim_after-Moves now identity attempt k db db' c (locked identity db) refl q

finished-Moves :
    (now identity attempt k : ℕ) (result : Option Inspection) (db : Db)
    (o : Outcome AppError (Unit × Db))
    → finish_after now attempt result db (locked identity db) ≡ o
    → Moves 0 k db (committed o db)
finished-Moves now identity attempt k result db (err e) q = stays 0 k db db refl refl
finished-Moves now identity attempt k result db (ok (c, db')) q =
    finish_after-Moves now identity attempt k result db db' c (locked identity db) refl q

supersedes-Moves :
    (now document k : ℕ) (db : Db)
    → Moves 0 k db (record db { jobs = update_where (is_pending_of document) (staled now) db.jobs })
supersedes-Moves now document k db j e =
    let u = find-update_where job_key (is_pending_of document) (staled now) k db.jobs (λ r. refl) in
    elim (Bool-cases (is_pending_of document j)) [
      | inl pending ↦ (staled now j, ground (arith, u, e, pending), omega arith)
      | inr other ↦ (j, ground (arith, u, e, other), omega arith)
    ]

perform-Moves : (k : ℕ) (c : Call) (db : Db) → Moves (hands k c db) k db (perform c db)
unfolding perform hands claim finish
perform-Moves k (Call.claims now identity attempt) db =
    claimed-Moves now identity attempt k db _ refl
perform-Moves k (Call.finishes now identity attempt result) db =
    finished-Moves now identity attempt k result db _ refl
perform-Moves k (Call.dispatches now queue identities counts) db =
    dispatch-Moves now k queue identities db counts
perform-Moves k (Call.supersedes now document) db = supersedes-Moves now document k db

inspections-left :
    (k : ℕ) (cs : List Call) (db : Db) (j : Job)
    → find job_key k db.jobs ≡ some j
    → inspections k cs db ≤ claims_left j
unfolding inspections
inspections-left k [] db j e = omega arith
inspections-left k (c ∷ cs) db j e =
    let (j', e', fewer) = perform-Moves k c db j e in
    omega (arith, fewer, inspections-left k cs (perform c db) j' e')

-- A job that satisfies the constraints of its table is handed to an inspection at most three times
-- before it is submitted again, whatever calls of the worker and the dispatcher, with whatever
-- results, and whatever newer revisions follow one another.
pub inspections_bounded :
    (k : ℕ) (calls : List Call) (db : Db) (j : Job)
    → find job_key k db.jobs ≡ some j
    → IsSound j
    → inspections k calls db ≤ 3
inspections_bounded k calls db j e v = ground (arith, inspections-left k calls db j e, v.bounded)
