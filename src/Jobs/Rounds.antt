-- ===== src/Jobs/Rounds.antt =====
-- The table of jobs under a round of backend/app/jobs/dispatcher.py.
use fillable.Common.{
  ℕ, ◌+◌, ◌≡◌, refl, Option, none, some, List, [], ◌∷◌, arith, ◌==◌, if◌then◌else◌, Option-cases,
  Bool-cases, inl, inr,
}
use fillable.Common.Table.{find, update-none, key-find}
use fillable.Documents.Schema.{Db, Job, job_key}
use fillable.Jobs.Worker.{is_queued}
use fillable.Jobs.Dispatcher.{
  advanced, lost, overdue, dispatched, QueueState, unreachable, absent, busy, dead, Counts, recover,
  advance_dead, note_dispatch, ask, enqueue, gave_up, visit_row, visit, dispatch,
}
use fillable.Jobs.Soundness.{IsValid, lost-IsSound, advanced-IsSound}
use fillable.Jobs.Validity.{rewrite-IsValid}

module _ (now k : ℕ) (db : Db) (v : IsValid db.jobs) where
  recover-IsValid : (j : Job) → find job_key k db.jobs ≡ some j → IsValid (recover now j db).jobs
  recover-IsValid j e = elim (Bool-cases (overdue now j)) [
    | inl late ↦ rw late (
        rewrite-IsValid db k {j = j} v e (lost now) (λ x. ground arith)
          (λ s. lost-IsSound now j s late))
    | inr fine ↦ rw fine v
  ]

  advance_dead-IsValid :
      (attempt : ℕ) (o : Option Job) (c : Counts)
      → find job_key k db.jobs ≡ o
      → IsValid (advance_dead now attempt o db c).0.jobs
  advance_dead-IsValid attempt none c e = v
  advance_dead-IsValid attempt (some j) c e = elim (Bool-cases (is_queued j.status)) [
    | inr other ↦ rw other v
    | inl queued ↦ elim (Bool-cases (j.attempt == attempt)) [
      | inl same ↦
          rw (queued, same)
            (rewrite-IsValid db k {j = j} v e (advanced now) (λ x. ground arith)
              (λ s. advanced-IsSound now j s queued))
      | inr newer ↦ rw (queued, newer) v
    ]
  ]

  note_dispatch-IsValid : (attempt : ℕ) → IsValid (note_dispatch now k attempt db).jobs
  note_dispatch-IsValid attempt =
      let f = λ (j : Job). if j.attempt == attempt then dispatched now j else j in
      elim (Option-cases (find job_key k db.jobs)) [
        | inl missing ↦ rw (update-none job_key k f db.jobs missing) v
        | inr (j, e) ↦
            rw (← key-find job_key k db.jobs e)
              (rewrite-IsValid db k {j = j} v e f (λ x. ground arith) (λ s. ground arith))
      ]

  ask-IsValid :
      (j : Job) (queue : QueueState) (c : Counts) → IsValid (ask now k j queue db c).0.jobs
  ask-IsValid j unreachable c = v
  ask-IsValid j absent c = note_dispatch-IsValid j.attempt
  ask-IsValid j busy c = note_dispatch-IsValid j.attempt
  ask-IsValid j dead c = advance_dead-IsValid j.attempt (find job_key k db.jobs) c refl

  enqueue-IsValid :
      (queue : QueueState) (o : Option Job) (c : Counts)
      → IsValid (enqueue now k queue o db c).0.jobs
  enqueue-IsValid queue none c = v
  enqueue-IsValid queue (some j) c = elim (Bool-cases (is_queued j.status)) [
    | inl queued ↦ rw queued (ask-IsValid j queue c)
    | inr other ↦ rw other v
  ]

visit_row-IsValid :
    (now k : ℕ) (queue : QueueState) (o : Option Job) (db : Db) (c : Counts)
    → IsValid db.jobs
    → find job_key k db.jobs ≡ o
    → IsValid (visit_row now k queue o db c).0.jobs
visit_row-IsValid now k queue none db c v e = v
visit_row-IsValid now k queue (some j) db c v e =
    let v' = recover-IsValid now k db v j e in
    let db' = recover now j db in
    elim (Bool-cases (gave_up now j)) [
      | inl lost_it ↦ rw lost_it v'
      | inr going ↦ rw going (enqueue-IsValid now k db' v' queue (find job_key k db'.jobs) c)
    ]

-- On a valid jobs table, a round of the dispatcher over any identities, whatever the queue answers
-- for each job and wherever the round stops, leaves a valid table.
pub dispatch-IsValid :
    (now : ℕ) (queue : ℕ → QueueState) (identities : List ℕ) (db : Db) (c : Counts)
    → IsValid db.jobs
    → IsValid (dispatch now queue identities db c).0.jobs
unfolding dispatch visit
dispatch-IsValid now queue [] db c v = v
dispatch-IsValid now queue (k ∷ ks) db c v =
    let c' : Counts = record c { examined = c.examined + 1 } in
    let r = visit_row now k (queue k) (find job_key k db.jobs) db c' in
    let v' = visit_row-IsValid now k (queue k) (find job_key k db.jobs) db c' v refl in
    elim (Bool-cases r.2) [
      | inl go_on ↦ rw go_on (dispatch-IsValid now queue ks r.0 r.1 v')
      | inr stop ↦ rw stop v'
    ]
