-- ===== src/Storage/Schema.antt =====
-- The tables of backend/app/storage/schema.py and the errors of the storage service.
-- UUIDs are only compared, so they are numbers; times are numbers of seconds.
use fillable.Common.{
  ℕ, ◌+◌, ◌-◌, ◌^◌, String, Bool, true, false, ◌&&◌, Option, none, some, List, [], ◌∷◌, leb,
}

abbrev pub max_bytes : ℕ
max_bytes = 2 ^ 53 - 1

abbrev pub default_limit_bytes : ℕ
default_limit_bytes = 1024 ^ 3

abbrev pub purposes : List String
purposes = "original" ∷ "template" ∷ "document" ∷ "version" ∷ "export" ∷ "preview" ∷ []

pub data ReservationState : Type 0 where
  reserved writing staged committed cleanup_pending aborted : ReservationState

pub data FileState : Type 0 where
  staged ready pending_delete deleted : FileState

-- `ACTIVE` of service.py
abbrev pub active : ReservationState → Bool
active ReservationState.committed = false
active ReservationState.aborted = false
active _ = true

pub record Account : Type 0 where
  pub user_id : ℕ
  pub override_bytes : Option ℕ
  pub used_bytes : ℕ
  pub reserved_bytes : ℕ

pub record Reservation : Type 0 where
  pub id : ℕ
  pub owner_id : ℕ
  pub file_id : ℕ
  pub idempotency_key : String
  pub request_fingerprint : String
  pub purpose : String
  pub state : ReservationState
  pub allocated_bytes : ℕ
  pub written_bytes : ℕ
  pub expected_bytes : Option ℕ
  pub lease_token : ℕ
  pub lease_expires_at : ℕ
  pub updated_at : ℕ

pub record StoredRow : Type 0 where
  pub id : ℕ
  pub owner_id : ℕ
  pub reservation_id : ℕ
  pub size_bytes : ℕ
  pub digest : ℕ
  pub state : FileState
  pub ready_at : Option ℕ
  pub deleted_at : Option ℕ

abbrev pub in_bounds : ℕ → Bool
in_bounds n = leb n max_bytes

abbrev pub optional_in_bounds : Option ℕ → Bool
optional_in_bounds none = true
optional_in_bounds (some n) = in_bounds n

-- The CHECK constraints of each table. The lower bounds hold of every number.
unfoldable pub account_checks : Account → Bool
account_checks a =
    optional_in_bounds a.override_bytes
    && in_bounds a.used_bytes
    && in_bounds a.reserved_bytes
    && in_bounds (a.used_bytes + a.reserved_bytes)

unfoldable pub reservation_checks : Reservation → Bool
reservation_checks r =
    in_bounds r.allocated_bytes
    && leb r.written_bytes r.allocated_bytes
    && optional_in_bounds r.expected_bytes

-- The storage part of the database; the table of settings has one row.
pub record Db : Type 0 where
  pub default_limit : ℕ
  pub settings_revision : ℕ
  pub accounts : List Account
  pub reservations : List Reservation
  pub files : List StoredRow

-- A `StorageError` by its code, `protected_version` from documents/retention.py; `integrity` and `no_result` are the database's own errors, and
-- `blocking`, `no_space` and `os_failure` are the file system's.
pub data Error : Type 0 where
  not_found quota_exceeded temporary_capacity disk_capacity : Error
  idempotency_conflict operation_expired operation_aborted operation_in_progress : Error
  invalid_request file_too_large size_mismatch storage_failure : Error
  protected_version integrity no_result blocking no_space os_failure : Error
