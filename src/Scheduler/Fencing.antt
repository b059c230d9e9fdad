-- ===== src/Scheduler/Fencing.antt =====
-- A tick that was overtaken leaves the row to the session that took it (backend/app/maintenance.py).
use fillable.Common.{
  ℕ, ◌+◌, ◌≡◌, ◌≢◌, refl, ap, ◌∙◌, true, false, Option, some, List, [], ◌∷◌, ◌++◌, length,
  length-append, inl, inr, arith, Outcome-cases, ok, err, Option-cases, Bool-cases,
}
use fillable.Scheduler.State.{Task, Summary, State, tasks}
use fillable.Scheduler.Tick.{
  Fault, Moment, after, at_end, after_failure, Surroundings, Answer, fence, fenced, handle,
  conclude, settled, batch_fits, advance, attempt, cursor_of, run_tasks, started, has_succeeded,
  finished, tick,
}

pub advance-run_id :
    (t : Task) (following : Option ℕ) (summaries : List (Task × Summary)) (s : State)
    → ((advance t following summaries s).run_id ≡ s.run_id)
      × ((advance t following summaries s).summary ≡ summaries)
advance-run_id Task.operations following summaries s = (refl, refl)
advance-run_id Task.accounts following summaries s = (refl, refl)
advance-run_id Task.retention following summaries s = (refl, refl)
advance-run_id Task.inventory following summaries s = (refl, refl)
advance-run_id Task.capacity following summaries s = (refl, refl)

fence-own :
    (now run_id : ℕ) (f : State → State) (s s' : State)
    → fence now run_id f s ≡ ok s'
    → (s.run_id ≡ some run_id) × (record (f s) { updated_at = some now } ≡ s')
fence-own now run_id f s s' h = elim (Option-cases s.run_id) [
  | inl unset ↦ absurd (ground (arith, unset))
  | inr (id, q) ↦ ground (arith, q)
]

pub fenced-own :
    (around : Surroundings) (m : Moment) (f : State → State) (s s' : State)
    → fenced around m f s ≡ ok s'
    → (s.run_id ≡ some around.run_id) × (record (f s) { updated_at = some around.now } ≡ s')
fenced-own around m f s s' h = elim (Bool-cases (around.fence_fails m)) [
  | inl fails ↦ absurd (ground (arith, fails))
  | inr works ↦ fence-own around.now around.run_id f s s' (ground (arith, works))
]

fenced-foreign :
    (around : Surroundings) (m : Moment) (f : State → State) (s : State)
    → s.run_id ≢ some around.run_id
    → (e : Fault) × (fenced around m f s ≡ err e)
fenced-foreign around m f s foreign = elim (Bool-cases (around.fence_fails m)) [
  | inl fails ↦ (Fault.unexpected, ground (arith, fails))
  | inr works ↦ elim (Option-cases s.run_id) [
    | inl unset ↦ (Fault.lost_run, ground (arith, works, unset))
    | inr (id, q) ↦ (Fault.lost_run, ground (arith, works, q, foreign))
  ]
]

-- A loop whose first tasks have all run goes on with the others.
run_tasks-append :
    (around : Surroundings) (previous : State) (ts rest : List Task)
    (done out : List (Task × Summary)) (s s' : State)
    → run_tasks around previous ts done s ≡ (ok out, s')
    → length out ≡ length done + length ts
    → run_tasks around previous (ts ++ rest) done s ≡ run_tasks around previous rest out s'
unfolding run_tasks
run_tasks-append around previous [] rest done out s s' h n = cc
run_tasks-append around previous (t ∷ ts) rest done out s s' h n =
    elim (Bool-cases (around.stop t)) [
      | inl stopped ↦
          let same : done ≡ out = ground (arith, stopped) in
          absurd (omega (arith, ap length same, n))
      | inr going ↦ elim (Outcome-cases (attempt 2 1 (cursor_of t previous) (around.attempts t))) [
        | inl (e, q) ↦ absurd (ground (arith, going, q))
        | inr ((summary, following), q) ↦
            let more = done ++ ((t, summary) ∷ []) in
            let s₁ = around.others (after t) s in
            elim (Outcome-cases (fenced around (after t) (advance t following more) s₁)) [
              | inl (e, r) ↦ absurd (ground (arith, going, q, r))
              | inr (s₂, r) ↦
                  let rest_same =
                    run_tasks-append around previous ts rest more out s₂ s'
                      (ground (arith, going, q, r))
                      (omega (arith, n, length-append {0} done ((t, summary) ∷ []))) in
                  ground (arith, going, q, r, rest_same)
            ]
      ]
    ]

-- The tick comes to the moment with the row: before the progress of a task is written, when the
-- tasks before it have run, or before its outcome is written.
pub data Reaches (around : Surroundings) (previous : State) : Moment → State → Type 0 where
  working :
      (before rest : List Task) (t : Task) (done : List (Task × Summary)) (s : State)
      (p : Summary × Option ℕ)
      → tasks ≡ before ++ (t ∷ rest)
      → run_tasks around previous before [] (started around.now around.run_id previous)
        ≡ (ok done, s)
      → length done ≡ length before
      → around.stop t ≡ false
      → attempt 2 1 (cursor_of t previous) (around.attempts t) ≡ ok p
      → Reaches around previous (after t) s
  ending :
      (done : List (Task × Summary)) (s : State)
      → run_tasks around previous tasks [] (started around.now around.run_id previous)
        ≡ (ok done, s)
      → Reaches around previous at_end s

run_tasks-foreign :
    (around : Surroundings) (previous : State) (t : Task) (rest : List Task)
    (done : List (Task × Summary)) (s : State) (p : Summary × Option ℕ)
    → around.stop t ≡ false
    → attempt 2 1 (cursor_of t previous) (around.attempts t) ≡ ok p
    → (around.others (after t) s).run_id ≢ some around.run_id
    → (e : Fault) × (run_tasks around previous (t ∷ rest) done s
        ≡ (err e, around.others (after t) s))
unfolding run_tasks
run_tasks-foreign around previous t rest done s (summary, following) going q foreign =
    let (e, lost) =
      fenced-foreign around (after t) (advance t following (done ++ ((t, summary) ∷ [])))
        (around.others (after t) s) foreign in
    (e, ground (arith, going, q, lost))

-- The handler leaves a row that is another run's.
handle-foreign :
    (around : Surroundings) (s : State)
    → (around.others after_failure s).run_id ≢ some around.run_id
    → handle around s ≡ (Answer.failed, around.others after_failure s)
handle-foreign around s still =
    let (e, kept) =
      fenced-foreign around after_failure (finished around.now false)
        (around.others after_failure s) still in
    ground (arith, kept)

pub tick-configured :
    (batch : ℕ) (around : Surroundings) (previous : State)
    → batch_fits batch ≡ true
    → around.configured ≡ true
    → tick batch true around previous
      ≡ conclude around
          (run_tasks around previous tasks [] (started around.now around.run_id previous))
unfolding tick
tick-configured batch around previous fits set = ground (arith, fits, set)

-- When the batch is in range, the storage is configured, and another session's run stands in the
-- row before a tick writes the progress of a task or its outcome there, and still does before the
-- tick records its failure, the tick fails and the row is exactly what the other sessions have
-- written: the tick has written nothing more.
pub tick-overtaken :
    (batch : ℕ) (around : Surroundings) (previous : State) (m : Moment) (s : State)
    → batch_fits batch ≡ true
    → around.configured ≡ true
    → Reaches around previous m s
    → (around.others m s).run_id ≢ some around.run_id
    → (around.others after_failure (around.others m s)).run_id ≢ some around.run_id
    → tick batch true around previous
      ≡ (Answer.failed, around.others after_failure (around.others m s))
tick-overtaken batch around previous _ _ fits set
      (working before rest t done s p split run count going q) foreign still =
    let first = started around.now around.run_id previous in
    let go =
      run_tasks-append around previous before (t ∷ rest) [] done first s run
        (omega (arith, count)) in
    let (e, lost) = run_tasks-foreign around previous t rest done s p going q foreign in
    let whole : run_tasks around previous tasks [] first ≡ (err e, around.others (after t) s) =
      ap (λ l. run_tasks around previous l [] first) split ∙ go ∙ lost in
    tick-configured batch around previous fits set
    ∙ ap (λ r. conclude around r) whole
    ∙ handle-foreign around (around.others (after t) s) still
tick-overtaken batch around previous _ _ fits set (ending done s run) foreign still =
    let (e, lost) =
      fenced-foreign around at_end (finished around.now (has_succeeded done))
        (around.others at_end s) foreign in
    tick-configured batch around previous fits set
    ∙ ap (λ r. conclude around r) run
    ∙ ap (λ o. settled around (has_succeeded done) (around.others at_end s) o) lost
    ∙ handle-foreign around (around.others at_end s) still
