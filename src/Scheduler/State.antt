-- ===== src/Scheduler/State.antt =====
-- The row of the maintenance sweep (backend/app/maintenance_schema.py) and what its tasks report
-- (`perform` of backend/app/maintenance.py).
use fillable.Common.{
  ℕ, ◌+◌, Bool, true, false, not, Option, none, List, [], ◌∷◌, length, if◌then◌else◌,
}

pub data Status : Type 0 where
  idle running succeeded failed : Status

pub data Task : Type 0 where
  operations accounts retention inventory capacity : Task

-- TASKS
abbrev pub tasks : List Task
tasks = Task.operations ∷ Task.accounts ∷ Task.retention ∷ Task.inventory ∷ Task.capacity ∷ []

pub record Summary : Type 0 where
  pub examined : ℕ
  pub failures : ℕ
  pub deferred : ℕ
  pub truncated : ℕ
  pub attempts : ℕ

-- The row, a singleton.
pub record State : Type 0 where
  pub run_id : Option ℕ
  pub status : Status
  pub started_at : Option ℕ
  pub updated_at : Option ℕ
  pub finished_at : Option ℕ
  pub last_success_at : Option ℕ
  pub interrupted_runs : ℕ
  pub operations_cursor : Option ℕ
  pub accounts_cursor : Option ℕ
  pub retention_cursor : Option ℕ
  pub summary : List (Task × Summary)

-- The status of an item of a report: those of SUCCESS, those of DEFERRED, and the others.
pub data Item : Type 0 where
  checked repaired deleted recovered pruned already_deleted : Item
  busy operation_in_progress protected_version : Item
  other : Item

abbrev is_deferred : Item → Bool
is_deferred Item.busy = true
is_deferred Item.operation_in_progress = true
is_deferred Item.protected_version = true
is_deferred _ = false

abbrev is_failure : Item → Bool
is_failure Item.other = true
is_failure _ = false

abbrev pub count_items : (Item → Bool) → List Item → ℕ
count_items p [] = 0
count_items p (i ∷ is) = let rest = count_items p is in if p i then rest + 1 else rest

abbrev pub summarize : List Item → Summary
summarize items = record {
  examined = length items;
  failures = count_items is_failure items;
  deferred = count_items is_deferred items;
  truncated = 0;
  attempts = 0;
}

-- What the storage answers: a page of items with its cursor, an inventory, or a capacity.
pub data Report : Type 0 where
  page : List Item → Option ℕ → Report
  inventory : (examined unknown : ℕ) → Bool → Report
  capacity : Bool → Report

abbrev pub bit : Bool → ℕ
bit true = 1
bit false = 0

-- `perform`: the summary and the following cursor.
abbrev pub perform : Report → Summary × Option ℕ
perform (Report.page items following) = (summarize items, following)
perform (Report.inventory examined unknown truncated) = (
  record {
    examined = examined;
    failures = unknown;
    deferred = 0;
    truncated = bit truncated;
    attempts = 0;
  },
  none,
)
perform (Report.capacity writable) = (
  record { examined = 1; failures = bit (not writable); deferred = 0; truncated = 0; attempts = 0 },
  none,
)
