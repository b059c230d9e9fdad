-- ===== src/Documents/Schema.antt =====
-- The tables of backend/app/documents/ (schema.py, lease_schema.py, retention_schema.py), of
-- backend/app/jobs/schema.py and of backend/app/accounts/schema.py, with the columns that the
-- transactions read or write. UUIDs, digests and opaque JSON values are numbers.
use fillable.Common.{ℕ, String, Bool, Option, List}
use fillable.Storage.Schema.{Db as StorageDb, Error as StorageError}

pub data ResourceState : Type 0 where
  active trashed deleted : ResourceState

pub record Resource : Type 0 where
  pub id : ℕ
  pub owner_id : ℕ
  pub kind : String
  pub title : String
  pub state : ResourceState
  pub original_filename : String
  pub original_file_id : ℕ
  pub current_version_id : ℕ
  pub trashed_at : Option ℕ
  pub purge_after : Option ℕ
  pub updated_at : ℕ

pub record Version : Type 0 where
  pub id : ℕ
  pub document_id : ℕ
  pub owner_id : ℕ
  pub file_id : ℕ
  pub parent_version_id : Option ℕ
  pub restored_from_version_id : Option ℕ
  pub number : ℕ
  pub document_model : Option ℕ
  pub field_review : Option ℕ
  pub unsupported_count : ℕ

pub record Lease : Type 0 where
  pub document_id : ℕ
  pub owner_id : ℕ
  pub source_version_id : ℕ
  pub session_hash : ℕ
  pub client_id : ℕ
  pub lease_id : ℕ
  pub expires_at : ℕ

pub data JobStatus : Type 0 where
  queued running succeeded failed stale : JobStatus

pub record Snapshot : Type 0 where
  pub source_version_id : ℕ
  pub payload : ℕ

pub record Job : Type 0 where
  pub id : ℕ
  pub document_id : ℕ
  pub owner_id : ℕ
  pub source_version_id : ℕ
  pub status : JobStatus
  pub attempt : ℕ
  pub retry_until : ℕ
  pub lease_until : Option ℕ
  pub dispatched_at : Option ℕ
  -- `processing_failed`, or no code
  pub failed_code : Bool
  pub summary : Option ℕ
  pub field_snapshot : Option Snapshot
  pub updated_at : ℕ

pub record User : Type 0 where
  pub id : ℕ
  pub email : String
  pub password_hash : ℕ
  pub is_active : Bool

pub record Session : Type 0 where
  pub token_hash : ℕ
  pub user_id : Option ℕ
  pub expires_at : ℕ
  pub last_seen_at : ℕ

pub record LoginAttempt : Type 0 where
  pub key : ℕ
  pub count : ℕ
  pub expires_at : ℕ

pub record Db : Type 0 where
  pub storage : StorageDb
  pub users : List User
  pub sessions : List Session
  pub attempts : List LoginAttempt
  pub resources : List Resource
  pub versions : List Version
  pub leases : List Lease
  pub jobs : List Job
  pub keep_latest : Option ℕ
  pub policy_revision : ℕ

-- `AppError` by its status, code and reason, then a `StorageError` that passes through, a
-- `ValueError`, a missing row and a violated constraint.
pub data AppError : Type 0 where
  authentication_required invalid_credentials current_password_invalid : AppError
  forbidden not_found rate_limited : AppError
  revision_conflict lease_lost lease_busy title_conflict operation_conflict : AppError
  storage_error : StorageError → AppError
  account_exists invalid_password stale_field_snapshot no_result integrity : AppError

abbrev pub resource_key : Resource → ℕ
resource_key r = r.id

abbrev pub version_key : Version → ℕ
version_key v = v.id

abbrev pub lease_key : Lease → ℕ
lease_key l = l.document_id

abbrev pub job_key : Job → ℕ
job_key j = j.id

abbrev pub user_key : User → ℕ
user_key u = u.id

abbrev pub session_key : Session → ℕ
session_key s = s.token_hash
