-- ===== src/Documents/Copies/Independent.antt =====
-- What a copy leaves alone (backend/app/documents/copies.py).
use fillable.Common.{ℕ, ◌≡◌, none, ◌∷◌, arith, Outcome, Outcome-cases, Option-cases, ok, inl, inr}
use fillable.Common.Table.{find}
use fillable.Documents.Schema.{Db, AppError, Job, Snapshot, resource_key, version_key}
use fillable.Documents.Session.{SessionState, active_user, resource}
use fillable.Documents.RevisionCommit.{insert_version}
use fillable.Jobs.Service.{intent, job_of}
use fillable.Documents.Copies.{
  CopyRequest, Copied, source_job, plain_intent, copy_intent, new_document, first_version, finalize,
}

intent-rows :
    (now fresh owner target version : ℕ) (db db' : Db) (j : Job)
    → intent now fresh owner target version db ≡ ok (j, db')
    → (db'.resources ≡ db.resources) × (db'.versions ≡ db.versions) × (db'.leases ≡ db.leases)
unfolding intent
intent-rows now fresh owner target version db db' j h =
    elim (Option-cases (job_of target version db.jobs)) [
      | inl missing ↦ ground (arith, missing)
      | inr (old, found) ↦ ground (arith, found)
    ]

plain_intent-rows :
    (now fresh owner target version : ℕ) (db db' : Db)
    → plain_intent now fresh owner target version db ≡ ok (tt, db')
    → (db'.resources ≡ db.resources) × (db'.versions ≡ db.versions) × (db'.leases ≡ db.leases)
plain_intent-rows now fresh owner target version db db' h =
    elim (Outcome-cases (intent now fresh owner target version db)) [
      | inl (e, failed) ↦ absurd (ground (arith, failed))
      | inr ((j, db₁), went) ↦
          let rows = intent-rows now fresh owner target version db db₁ j went in
          ground (arith, went, rows)
    ]

copy_intent-rows :
    (now fresh owner source target version : ℕ) (rebase : Snapshot → Outcome AppError Snapshot)
    (db db' : Db)
    → copy_intent now fresh owner source target version rebase db ≡ ok (tt, db')
    → (db'.resources ≡ db.resources) × (db'.versions ≡ db.versions) × (db'.leases ≡ db.leases)
unfolding copy_intent
copy_intent-rows now fresh owner source target version rebase db db' h =
    elim (Option-cases (source_job owner source db.jobs)) [
      | inl missing ↦
          plain_intent-rows now fresh owner target version db db' (ground (arith, missing))
      | inr (j, found) ↦ elim (Option-cases j.field_snapshot) [
        | inl gone ↦
            plain_intent-rows now fresh owner target version db db' (ground (arith, found, gone))
        | inr (s, kept) ↦ elim (Outcome-cases (rebase s)) [
          | inl (e, failed) ↦ absurd (ground (arith, found, kept, failed))
          | inr (s', went) ↦ ground (arith, found, kept, went)
        ]
      ]
    ]

-- The rows before the job's.
pub record HasCopied (now target version owner file : ℕ) (request : CopyRequest) (copied : Copied)
    (db db' : Db) : Type 0 where
  pub free : find resource_key target db.resources ≡ none
  pub fresh : find version_key version db.versions ≡ none
  pub resources :
      db'.resources
      ≡ new_document now target owner file version request.title copied.original_filename
        ∷ db.resources
  pub versions : db'.versions ≡ first_version version target owner file copied ∷ db.versions
  pub leases : db'.leases ≡ db.leases

pub finalize-HasCopied :
    (now fresh target version owner identity file : ℕ) (state : SessionState)
    (request : CopyRequest) (copied : Copied) (rebase : Snapshot → Outcome AppError Snapshot)
    (db db' : Db)
    → finalize now fresh target version state owner identity request file copied rebase db
      ≡ ok (tt, db')
    → HasCopied now target version owner file request copied db db'
unfolding finalize insert_version active_user resource
finalize-HasCopied now fresh target version owner identity file state request copied rebase db db'
      h =
    let db₁ : Db = record db {
      resources =
          new_document now target owner file version request.title copied.original_filename
          ∷ db.resources;
      versions = first_version version target owner file copied ∷ db.versions;
    } in
    let last : copy_intent now fresh owner request.source_version_id target version rebase db₁
        ≡ ok (tt, db') =
      ground arith in
    let rows =
      copy_intent-rows now fresh owner request.source_version_id target version rebase db₁ db'
        last in
    elim (Option-cases (find resource_key target db.resources)) [
      | inr (r, taken) ↦ absurd (ground (arith, taken))
      | inl free ↦ elim (Option-cases (find version_key version db.versions)) [
        | inr (v, taken) ↦ absurd (ground (arith, free, taken))
        | inl unused ↦ record {
          free = free;
          fresh = unused;
          resources = rows.0;
          versions = rows.1;
          leases = rows.2;
        }
      ]
    ]
