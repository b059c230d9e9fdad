-- ===== src/Scheduler/Completion.antt =====
-- What a tick that succeeded has done (backend/app/maintenance.py).
use mathlib.Core.Path.{subst}
use mathlib.Core.List.{append_assoc, append-nil}
use fillable.Common.{
  ℕ, ◌+◌, ◌≡◌, sym, ap, ◌∙◌, refl, Bool, true, false, some, List, [], ◌∷◌, ◌++◌, ◌⊎◌, inl, inr,
  arith, length, length-append, map, Outcome, Outcome-cases, ok, err, Bool-cases,
}
use fillable.Common.Slices.{map-append}
use fillable.Scheduler.State.{Status, Task, Summary, State, tasks}
use fillable.Scheduler.Tick.{
  Fault, Moment, after, at_end, Surroundings, Answer, fenced, batch_fits, advance, attempt,
  cursor_of, run_tasks, started, no_failures, has_succeeded, finished, settled, tick,
}
use fillable.Scheduler.Fencing.{advance-run_id, fenced-own}

-- Another session that writes the row takes it over: it puts its own run there.
abbrev pub TakesOver : Surroundings → Type 0
TakesOver around =
    (m : Moment) (s : State)
    → (around.others m s).run_id ≡ some around.run_id
    → around.others m s ≡ s

abbrev task_of : Task × Summary → Task
task_of (t, s) = t

abbrev pub names : List (Task × Summary) → List Task
names xs = map task_of xs

-- What the loop has recorded.
record HasRun (around : Surroundings) (ts : List Task) (done out : List (Task × Summary))
    (s s' : State) : Type 0 where
  own : s'.run_id ≡ some around.run_id
  written : ((out ≡ done) × (s' ≡ s)) ⊎ (s'.summary ≡ out)
  all : length out ≡ length done + length ts → names out ≡ names done ++ ts

run_tasks-HasRun :
    (around : Surroundings) (previous : State) (ts : List Task) (done out : List (Task × Summary))
    (s s' : State)
    → s.run_id ≡ some around.run_id
    → run_tasks around previous ts done s ≡ (ok out, s')
    → HasRun around ts done out s s'
unfolding run_tasks
run_tasks-HasRun around previous [] done out s s' own h =
    let same : done ≡ out = cc in
    let kept : s ≡ s' = cc in
    record {
      own = subst (λ (x : State). x.run_id ≡ some around.run_id) kept own;
      written = inl (sym same, sym kept);
      all = λ e. ap names (sym same) ∙ sym (append-nil (names done));
    }
run_tasks-HasRun around previous (t ∷ ts) done out s s' own h = elim (Bool-cases (around.stop t)) [
  | inl stopped ↦
      let same : done ≡ out = ground (arith, stopped) in
      let kept : s ≡ s' = ground (arith, stopped) in
      record {
        own = subst (λ (x : State). x.run_id ≡ some around.run_id) kept own;
        written = inl (sym same, sym kept);
        all = λ e. absurd (omega (arith, ap length same, e));
      }
  | inr going ↦ elim (Outcome-cases (attempt 2 1 (cursor_of t previous) (around.attempts t))) [
    | inl (e, q) ↦ absurd (ground (arith, going, q))
    | inr ((summary, following), q) ↦
        let more = done ++ ((t, summary) ∷ []) in
        let s₁ = around.others (after t) s in
        elim (Outcome-cases (fenced around (after t) (advance t following more) s₁)) [
          | inl (e, r) ↦ absurd (ground (arith, going, q, r))
          | inr (s₂, r) ↦
              let (mine, same) = fenced-own around (after t) (advance t following more) s₁ s₂ r in
              let (id, kept) = advance-run_id t following more s₁ in
              let rest =
                run_tasks-HasRun around previous ts more out s₂ s' (ground (arith, id, mine, same))
                  (ground (arith, going, q, r)) in
              record {
                own = rest.own;
                written = inr (elim rest.written [
                  | inl (same_list, same_row) ↦
                      ap (λ (x : State). x.summary) same_row
                      ∙ sym (ap (λ (x : State). x.summary) same)
                      ∙ kept
                      ∙ sym same_list
                  | inr w ↦ w
                ]);
                all = λ e.
                    rest.all (omega (arith, e, length-append {0} done ((t, summary) ∷ [])))
                    ∙ ap (λ l. l ++ ts) (map-append task_of done ((t, summary) ∷ []))
                    ∙ append_assoc (names done) (t ∷ []) ts;
              }
        ]
  ]
]

pair-cases :
    {E A S : Type 0} (p : Outcome E A × S)
    → ((e : E) × (s : S) × (p ≡ (err e, s))) ⊎ ((a : A) × (s : S) × (p ≡ (ok a, s)))
pair-cases (err e, s) = inl (e, s, refl)
pair-cases (ok a, s) = inr (a, s, refl)

recorded :
    {around : Surroundings} {ts : List Task} {out : List (Task × Summary)} {s s' : State}
    → HasRun around ts [] out s s'
    → length out ≡ 5
    → s'.summary ≡ out
recorded run count = elim run.written [
  | inl (empty, _) ↦ absurd (omega (arith, count, ap length empty))
  | inr w ↦ w
]

-- A tick that has done all it means to do.
pub record IsComplete (around : Surroundings) (s : State) : Type 0 where
  pub own : s.run_id ≡ some around.run_id
  pub status : s.status ≡ Status.succeeded
  pub stamped : s.last_success_at ≡ some around.now
  pub all : names s.summary ≡ tasks
  pub clean : no_failures s.summary ≡ true

settled-IsComplete :
    (around : Surroundings) (out : List (Task × Summary)) (success : Bool) (s s' : State)
    (o : Outcome Fault State)
    → fenced around at_end (finished around.now success) s ≡ o
    → settled around success s o ≡ (Answer.succeeded, s')
    → (success ≡ true)
      × (s'.run_id ≡ some around.run_id)
      × (s'.status ≡ Status.succeeded)
      × (s'.last_success_at ≡ some around.now)
      × (s'.summary ≡ s.summary)
      × (s.run_id ≡ some around.run_id)
settled-IsComplete around out success s s' (err e) q h = cc
settled-IsComplete around out false s s' (ok s₁) q h = cc
settled-IsComplete around out true s s' (ok s₁) q h =
    let (own, same) = fenced-own around at_end (finished around.now true) s s₁ q in
    ground (arith, own, same)

-- When other sessions change the row only by taking it over and a tick succeeds, the row belongs
-- to its run, has succeeded with the time of the tick as its last success, and its summary lists
-- all the tasks in order, none with a failure.
pub tick-IsComplete :
    (batch : ℕ) (around : Surroundings) (previous s : State)
    → TakesOver around
    → tick batch true around previous ≡ (Answer.succeeded, s)
    → IsComplete around s
unfolding tick
tick-IsComplete batch around previous s v h =
    let first = started around.now around.run_id previous in
    let fits : batch_fits batch ≡ true = ground arith in
    let set : around.configured ≡ true = ground (arith, fits) in
    elim (pair-cases (run_tasks around previous tasks [] first)) [
      | inl (e, s₁, q) ↦ absurd (ground (arith, fits, set, q))
      | inr (out, s₁, q) ↦
          let run = run_tasks-HasRun around previous tasks [] out first s₁ refl q in
          let s₂ = around.others at_end s₁ in
          let (success, own, status, stamped, kept, mine) =
            settled-IsComplete around out (has_succeeded out) s₂ s _ refl
              (ground (arith, fits, set, q)) in
          let same = v at_end s₁ mine in
          let count : length out ≡ 5 = ground (arith, success) in
          let clean : no_failures out ≡ true = ground (arith, success) in
          let written : s.summary ≡ out =
            kept ∙ ap (λ (x : State). x.summary) same ∙ recorded run count in
          record {
            own = own;
            status = status;
            stamped = stamped;
            all = ap names written ∙ run.all (omega (arith, count));
            clean = ap no_failures written ∙ clean;
          }
    ]
