-- ===== src/Documents/Calls.antt =====
-- Runs of the documents' transactions (backend/app/documents/) on one database: any calls in any
-- order, each committed or rolled back.
pub mod Following
pub mod Stepping
pub mod Fences
use fillable.Common.{ℕ, String, Bool, false, Option, List, [], ◌∷◌, ◌==◌, Outcome}
use fillable.Documents.Schema.{Db, AppError, Snapshot}
use fillable.Documents.Session.{SessionState}
use fillable.Documents.Leases.{LeaseRequest, change}
use fillable.Documents.RevisionCommit.{SaveRequest, Prepared, commit}
use fillable.Documents.Titles.{RenameRequest, rename}
use fillable.Documents.Trash.{move, restore, empty}
use fillable.Documents.Deletion.{request_deletion}
use fillable.Documents.Copies.{CopyRequest, Copied, finalize}
use fillable.Jobs.Service.{submit}
use fillable.Jobs.Worker.{committed}

pub data Call : Type 0 where
  leases : (now fresh : ℕ) → SessionState → (identity : ℕ) → LeaseRequest → Call
  saves :
      (now fresh version_id : ℕ)
      → SessionState
      → (identity : ℕ) → SaveRequest
      → (owner file : ℕ) → Prepared
      → Option ℕ
      → Call
  renames : (now : ℕ) → SessionState → (identity : ℕ) → RenameRequest → Call
  moves : (now : ℕ) → SessionState → (identity : ℕ) → Call
  restores : (now : ℕ) → SessionState → (identity : ℕ) → Call
  empties : (now : ℕ) → SessionState → Call
  deletes : (now owner identity : ℕ) → Option SessionState → Bool → Call
  copies :
      (now fresh target version : ℕ)
      → SessionState
      → (owner identity : ℕ) → CopyRequest
      → (file : ℕ) → Copied
      → (Snapshot → Outcome AppError Snapshot)
      → Call
  submits : (now fresh : ℕ) → SessionState → (identity : ℕ) → Call

unfoldable pub perform : Call → Db → Db
perform (Call.leases now fresh state identity request) db =
    committed (change now fresh state identity request db) db
perform (Call.saves now fresh version_id state identity request owner file prepared from) db =
    committed (commit now fresh version_id state identity request owner file prepared from db) db
perform (Call.renames now state identity request) db =
    committed (rename now state identity request db) db
perform (Call.moves now state identity) db = committed (move now state identity db) db
perform (Call.restores now state identity) db = committed (restore now state identity db) db
perform (Call.empties now state) db = committed (empty now state db) db
perform (Call.deletes now owner identity state expired_only) db =
    committed (request_deletion now owner identity state expired_only db) db
perform (Call.copies now fresh target version state owner identity request file copied rebase) db =
    committed (finalize now fresh target version state owner identity request file copied rebase db)
      db
perform (Call.submits now fresh state identity) db =
    committed (submit now fresh state identity db) db

unfoldable pub perform_all : List Call → Db → Db
perform_all [] db = db
perform_all (c ∷ cs) db = perform_all cs (perform c db)

-- Whether a call asks for the lease of the document.
abbrev pub asks_lease : ℕ → Call → Bool
asks_lease k (Call.leases now fresh state identity request) = identity == k
asks_lease k _ = false

-- Whether a call restores the document.
abbrev pub restores_it : ℕ → Call → Bool
restores_it k (Call.restores now state identity) = identity == k
restores_it k _ = false
