-- ===== src/Jobs/Calls.antt =====
-- Runs of the worker (backend/app/jobs/worker.py) and the dispatcher (dispatcher.py) on one
-- database, with newer revisions in between (backend/app/documents/revision_commit.py): any calls
-- in any order, each committed or rolled back.
use fillable.Common.{
  ℕ, ◌+◌, Option, none, some, List, [], ◌∷◌, ◌==◌, if◌then◌else◌, Outcome, ok, err,
}
use fillable.Documents.Schema.{Db, AppError}
use fillable.Documents.Rows.{update_where}
use fillable.Documents.RevisionCommit.{is_pending_of}
use fillable.Jobs.Worker.{Claim, Inspection, claim, finish, committed, staled}
use fillable.Jobs.Dispatcher.{QueueState, Counts, dispatch}

pub data Call : Type 0 where
  claims : (now identity attempt : ℕ) → Call
  finishes : (now identity attempt : ℕ) → Option Inspection → Call
  dispatches : (now : ℕ) → (ℕ → QueueState) → List ℕ → Counts → Call
  -- what a commit of a newer revision does to the document's jobs
  supersedes : (now document : ℕ) → Call

unfoldable pub perform : Call → Db → Db
perform (Call.claims now identity attempt) db = committed (claim now identity attempt db) db
perform (Call.finishes now identity attempt result) db =
    committed (finish now identity attempt result db) db
perform (Call.dispatches now queue identities counts) db =
    (dispatch now queue identities db counts).0
perform (Call.supersedes now document) db = record db {
  jobs = update_where (is_pending_of document) (staled now) db.jobs;
}

-- Whether a claim of `identity` that answered `c` has handed out the job `k`.
abbrev pub handed : ℕ → ℕ → Option Claim → ℕ
handed k identity none = 0
handed k identity (some c) = if identity == k then 1 else 0

abbrev pub handed_out : ℕ → ℕ → Outcome AppError (Option Claim × Db) → ℕ
handed_out k identity (err e) = 0
handed_out k identity (ok (c, db)) = handed k identity c

unfoldable pub hands : ℕ → Call → Db → ℕ
hands k (Call.claims now identity attempt) db =
    handed_out k identity (claim now identity attempt db)
hands k (Call.finishes now identity attempt result) db = 0
hands k (Call.dispatches now queue identities counts) db = 0
hands k (Call.supersedes now document) db = 0

-- How often a run hands the job `k` to an inspection.
unfoldable pub inspections : ℕ → List Call → Db → ℕ
inspections k [] db = 0
inspections k (c ∷ cs) db = hands k c db + inspections k cs (perform c db)
