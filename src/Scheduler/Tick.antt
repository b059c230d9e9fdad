-- ===== src/Scheduler/Tick.antt =====
-- `fence` and `tick` of backend/app/maintenance.py.
use fillable.Common.{
  ℕ, zero, suc, ◌+◌, Bool, true, false, not, leb, ◌&&◌, Option, none, some, List, [], ◌∷◌, ◌++◌,
  ◌==◌, length, eq_option, Outcome, ok, err, if◌then◌else◌,
}
use fillable.Scheduler.State.{Report, State, Status, Summary, Task, bit, perform, tasks}

-- `fault` is a database, file system or storage error, which is tried again.
pub data Fault : Type 0 where
  fault lost_run unexpected : Fault

-- One attempt: whether the guard's connection is another one, what came of it, and whether the wait
-- after it was stopped.
pub record Attempt : Type 0 where
  pub reconnected : Bool
  pub report : Outcome Fault Report
  pub stopped : Bool

abbrev gave_up : Option ℕ → Summary × Option ℕ
gave_up cursor =
    (record { examined = 0; failures = 1; deferred = 0; truncated = 0; attempts = 0 }, cursor)

abbrev with_attempts : ℕ → Summary × Option ℕ → Summary × Option ℕ
with_attempts n (s, following) = (record s { attempts = n }, following)

abbrev pub outcome_of :
    ℕ → Option ℕ → Attempt → Outcome Fault (Summary × Option ℕ) → Outcome Fault (Summary × Option ℕ)
outcome_of n cursor a again = if a.reconnected then err lost_run else elim a.report [
  | ok r ↦ ok (with_attempts n (perform r))
  | err fault ↦ if a.stopped then ok (with_attempts n (gave_up cursor)) else again
  | err lost_run ↦ err lost_run
  | err unexpected ↦ err unexpected
]

-- The loop of attempts: the first number is how many may follow this one.
unfoldable pub attempt : ℕ → ℕ → Option ℕ → (ℕ → Attempt) → Outcome Fault (Summary × Option ℕ)
attempt zero n cursor attempts =
    outcome_of n cursor (attempts n) (ok (with_attempts n (gave_up cursor)))
attempt (suc left) n cursor attempts =
    outcome_of n cursor (attempts n) (attempt left (n + 1) cursor attempts)

-- `fence`: an UPDATE of the row of this run, or LostRun.
abbrev pub fence : ℕ → ℕ → (State → State) → State → Outcome Fault State
fence now run_id f s =
    if eq_option s.run_id (some run_id)
    then ok (record (f s) { updated_at = some now })
    else err lost_run

abbrev pub cursor_of : Task → State → Option ℕ
cursor_of Task.operations s = s.operations_cursor
cursor_of Task.accounts s = s.accounts_cursor
cursor_of Task.retention s = s.retention_cursor
cursor_of Task.inventory s = none
cursor_of Task.capacity s = none

abbrev pub advance : Task → Option ℕ → List (Task × Summary) → State → State
advance Task.operations following summaries s = record s {
  operations_cursor = following;
  summary = summaries;
}
advance Task.accounts following summaries s = record s {
  accounts_cursor = following;
  summary = summaries;
}
advance Task.retention following summaries s = record s {
  retention_cursor = following;
  summary = summaries;
}
advance Task.inventory following summaries s = record s { summary = summaries }
advance Task.capacity following summaries s = record s { summary = summaries }

-- When another session may have written the row.
pub data Moment : Type 0 where
  after : Task → Moment
  at_end after_failure : Moment

-- What a tick meets.
pub record Surroundings : Type 0 where
  pub now : ℕ
  pub run_id : ℕ
  pub stop : Task → Bool
  pub attempts : Task → ℕ → Attempt
  pub others : Moment → State → State
  -- `configured` answers
  pub configured : Bool
  -- the database fails in a fence
  pub fence_fails : Moment → Bool

abbrev pub fenced : Surroundings → Moment → (State → State) → State → Outcome Fault State
fenced around m f s =
    if around.fence_fails m then err unexpected else fence around.now around.run_id f s

module _ (around : Surroundings) (previous : State) where
  -- The loop over the tasks; with the error comes the row as it was left.
  unfoldable pub run_tasks :
      List Task → List (Task × Summary) → State → Outcome Fault (List (Task × Summary)) × State
  run_tasks [] done s = (ok done, s)
  run_tasks (t ∷ ts) done s =
      if around.stop t
      then (ok done, s)
      else elim (attempt 2 1 (cursor_of t previous) (around.attempts t)) [
        | err e ↦ (err e, s)
        | ok (summary, following) ↦
            elim (fenced around (after t) (advance t following (done ++ ((t, summary) ∷ [])))
              (around.others (after t) s)) [
                | err e ↦ (err e, around.others (after t) s)
                | ok s' ↦ run_tasks ts (done ++ ((t, summary) ∷ [])) s'
              ]
      ]

abbrev is_running : Status → Bool
is_running Status.running = true
is_running _ = false

abbrev pub started : ℕ → ℕ → State → State
started now run_id previous = record previous {
  run_id = some run_id;
  status = Status.running;
  started_at = some now;
  updated_at = some now;
  finished_at = none;
  interrupted_runs = previous.interrupted_runs + bit (is_running previous.status);
}

abbrev pub no_failures : List (Task × Summary) → Bool
no_failures [] = true
no_failures ((t, s) ∷ rest) = s.failures == 0 && no_failures rest

abbrev pub has_succeeded : List (Task × Summary) → Bool
has_succeeded summaries = length summaries == length tasks && no_failures summaries

abbrev pub finished : ℕ → Bool → State → State
finished now true s = record s {
  status = Status.succeeded;
  finished_at = some now;
  last_success_at = some now;
}
finished now false s = record s { status = Status.failed; finished_at = some now }

pub data Answer : Type 0 where
  busy succeeded failed : Answer
  -- the ValueError for a batch out of range
  invalid_batch : Answer

abbrev pub answer_of : Bool → Answer
answer_of true = Answer.succeeded
answer_of false = Answer.failed

abbrev if_fenced : State → Outcome Fault State → State
if_fenced s (ok s') = s'
if_fenced s (err e) = s

-- The handler of any exception: what it cannot write it leaves.
abbrev pub handle : Surroundings → State → Answer × State
handle around s =
    let s' = around.others after_failure s in
    (Answer.failed, if_fenced s' (fenced around after_failure (finished around.now false) s'))

abbrev pub settled : Surroundings → Bool → State → Outcome Fault State → Answer × State
settled around success s (err e) = handle around s
settled around success s (ok s') = (answer_of success, s')

abbrev pub conclude : Surroundings → Outcome Fault (List (Task × Summary)) × State → Answer × State
conclude around (err e, s) = handle around s
conclude around (ok summaries, s) =
    let s' = around.others at_end s in
    settled around (has_succeeded summaries) s'
      (fenced around at_end (finished around.now (has_succeeded summaries)) s')

abbrev pub batch_fits : ℕ → Bool
batch_fits batch = leb 1 batch && leb batch 100

-- `tick` with the advisory lock, or without it.
unfoldable pub tick : ℕ → Bool → Surroundings → State → Answer × State
tick batch acquired around previous =
    let s = started around.now around.run_id previous in
    if not (batch_fits batch)
    then (Answer.invalid_batch, previous)
    else if not acquired
    then (Answer.busy, previous)
    else if around.configured
    then conclude around (run_tasks around previous tasks [] s)
    else handle around s
