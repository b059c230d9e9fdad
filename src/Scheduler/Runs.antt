-- ===== src/Scheduler/Runs.antt =====
-- Ticks at concrete inputs (backend/app/maintenance.py).
use fillable.Common.{ℕ, ◌≡◌, refl, true, false, none, some, [], ◌∷◌, ok, err, ◌==◌, if◌then◌else◌}
use fillable.Scheduler.State.{Status, State, Item, Report, Task, Summary}
use fillable.Scheduler.Tick.{
  fault, Attempt, Surroundings, Answer, after, started, attempt, run_tasks, tick,
}
use fillable.Scheduler.Fencing.{working, tick-overtaken}
use native.Mathlib.Omega.{arith}
use fillable.Scheduler.Completion.{IsComplete, tick-IsComplete}

-- The run before was interrupted.
abbrev previous : State
previous = record {
  run_id = some 3;
  status = Status.running;
  started_at = some 10;
  updated_at = some 11;
  finished_at = none;
  last_success_at = none;
  interrupted_runs = 1;
  operations_cursor = some 40;
  accounts_cursor = none;
  retention_cursor = none;
  summary = [];
}

abbrev good : Attempt
good = record {
  reconnected = false;
  report = ok (Report.page (Item.checked ∷ Item.busy ∷ []) none);
  stopped = false;
}

abbrev bad : Attempt
bad = record { reconnected = false; report = err fault; stopped = false }

-- The first attempt at each task fails.
abbrev shaky : ℕ → Attempt
shaky n = if n == 1 then bad else good

abbrev around : Surroundings
around = record {
  now = 100;
  run_id = 4;
  stop = λ _. false;
  attempts = λ _ n. shaky n;
  others = λ _ s. s;
  configured = true;
  fence_fails = λ _. false;
}

abbrev final : State
final = (tick 20 true around previous).1

succeeded_run : tick 20 true around previous ≡ (Answer.succeeded, final)
unfolding tick run_tasks attempt
succeeded_run = refl

interrupted_run : final.interrupted_runs ≡ 2
unfolding tick run_tasks attempt
interrupted_run = refl

tick-IsComplete_example : IsComplete around final
tick-IsComplete_example = tick-IsComplete 20 around previous final (λ m s e. refl) succeeded_run

-- Another session takes the row over after the first task.
abbrev taken : State
taken = record previous { run_id = some 5 }

abbrev overtaken : Surroundings
overtaken = record around { others = λ _ _. taken }

abbrev attempted : Summary
attempted = record { examined = 2; failures = 0; deferred = 1; truncated = 0; attempts = 2 }

overtaken_run : tick 20 true overtaken previous ≡ (Answer.failed, taken)
unfolding tick run_tasks attempt
overtaken_run = refl

tick-overtaken_example : tick 20 true overtaken previous ≡ (Answer.failed, taken)
unfolding run_tasks attempt
tick-overtaken_example =
    tick-overtaken 20 overtaken previous (after Task.operations) (started 100 4 previous) refl refl
      (working [] (Task.accounts ∷ Task.retention ∷ Task.inventory ∷ Task.capacity ∷ [])
        Task.operations [] (started 100 4 previous) (attempted, none) refl refl refl refl refl)
      (λ e. ground (arith, e)) (λ e. ground (arith, e))
