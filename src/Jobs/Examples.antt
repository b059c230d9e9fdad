-- ===== src/Jobs/Examples.antt =====
-- Runs of the processing jobs at concrete inputs (backend/app/jobs/).
use fillable.Common.{◌≡◌, ◌≤◌, refl, true, Option, none, some, List, [], ◌∷◌, arith}
use fillable.Storage.Schema
use fillable.Documents.Schema.{Db, Resource, ResourceState, Version, Job}
use fillable.Jobs.Service.{intent, new_job}
use fillable.Jobs.Worker.{Claim, Inspection, process, locked, claim, finish}
use fillable.Jobs.Dispatcher.{QueueState, Counts, dispatch}
use fillable.Jobs.Soundness.{IsSound, IsValid}
use fillable.Jobs.Validity.{process-IsValid, intent-IsValid}
use fillable.Jobs.Rounds.{dispatch-IsValid}
use fillable.Jobs.Calls.{Call, perform, hands, inspections}
use fillable.Jobs.Attempts.{inspections_bounded}

abbrev job : Job
job = new_job 0 61 7 1 10

abbrev document : Resource
document = record {
  id = 1;
  owner_id = 7;
  kind = "document";
  title = "Letter";
  state = ResourceState.active;
  original_filename = "letter.docx";
  original_file_id = 100;
  current_version_id = 10;
  trashed_at = none;
  purge_after = none;
  updated_at = 0;
}

abbrev version : Version
version = record {
  id = 10;
  document_id = 1;
  owner_id = 7;
  file_id = 100;
  parent_version_id = none;
  restored_from_version_id = none;
  number = 1;
  document_model = some 0;
  field_review = none;
  unsupported_count = 0;
}

abbrev storage : fillable.Storage.Schema.Db
storage = record {
  default_limit = 200;
  settings_revision = 1;
  accounts = [];
  reservations = [];
  files = [];
}

abbrev db : Db
db = record {
  storage = storage;
  users = record { id = 7; email = "ann"; password_hash = 1; is_active = true } ∷ [];
  sessions = [];
  attempts = [];
  resources = document ∷ [];
  versions = version ∷ [];
  leases = [];
  jobs = job ∷ [];
  keep_latest = none;
  policy_revision = 0;
}

abbrev inspect : Claim → Option Inspection
inspect c = some (record { summary = 5; snapshot = record { source_version_id = 10; payload = 6 } })

job-IsSound : IsSound job
job-IsSound = record {
  attempts = omega arith;
  ordered = omega arith;
  bounded = omega arith;
  leased = refl;
  coded = refl;
  bound = refl;
}

jobs-IsValid : IsValid db.jobs
jobs-IsValid = record { keyed = (refl, tt); sound = (job-IsSound, tt) }

process-IsValid_example : IsValid (process 3 8 inspect 61 1 db).jobs
process-IsValid_example = process-IsValid 3 8 inspect 61 1 db jobs-IsValid

intent-IsValid_example : IsValid (new_job 4 62 7 1 11 ∷ job ∷ [])
unfolding intent
intent-IsValid_example =
    intent-IsValid 4 62 7 1 11 db (record db { jobs = new_job 4 62 7 1 11 ∷ job ∷ [] })
      (new_job 4 62 7 1 11) jobs-IsValid refl refl

abbrev no_counts : Counts
no_counts = record { examined = 0; enqueued = 0; failed = 0 }

dispatch-IsValid_example :
    IsValid (dispatch 4 (λ _. QueueState.absent) (61 ∷ []) db no_counts).0.jobs
dispatch-IsValid_example =
    dispatch-IsValid 4 (λ _. QueueState.absent) (61 ∷ []) db no_counts jobs-IsValid

-- The first inspection fails, and the second succeeds.
abbrev calls : List Call
calls =
    Call.claims 3 61 1
    ∷ Call.finishes 8 61 1 none
    ∷ Call.dispatches 9 (λ _. QueueState.absent) (61 ∷ []) no_counts
    ∷ Call.claims 10 61 2
    ∷ Call.finishes 12 61 2
        (some (record { summary = 5; snapshot = record { source_version_id = 10; payload = 6 } }))
    ∷ []

two_inspections : inspections 61 calls db ≡ 2
unfolding inspections hands perform claim finish locked dispatch fillable.Jobs.Dispatcher.visit
two_inspections = refl

inspections_bounded_example : inspections 61 calls db ≤ 3
inspections_bounded_example = inspections_bounded 61 calls db job refl job-IsSound
