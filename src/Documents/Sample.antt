-- ===== src/Documents/Sample.antt =====
-- A small state of the documents and the requests of the runs (backend/app/documents/).
use fillable.Common.{ℕ, true, false, none, some, [], ◌∷◌}
use fillable.Storage.Schema.{Account, Reservation, StoredRow, FileState}
use fillable.Storage.Schema
use fillable.Documents.Schema.{Db, User, Session, Resource, ResourceState, Version, Lease}
use fillable.Documents.Session.{SessionState}
use fillable.Documents.Leases.{LeaseRequest, LeaseInfo, LeaseAction}
use fillable.Documents.RevisionCommit.{SaveRequest, Prepared}
use fillable.Jobs.Service.{new_job}

abbrev user : User
user = record { id = 7; email = "ann"; password_hash = 1; is_active = true }

abbrev session : Session
session = record { token_hash = 31; user_id = some 7; expires_at = 5000000; last_seen_at = 4000000 }

abbrev pub state : SessionState
state = record { token_hash = 31; user = some 7 }

-- The same owner in another browser.
abbrev pub other_state : SessionState
other_state = record { token_hash = 32; user = some 7 }

abbrev pub document : Resource
document = record {
  id = 1;
  owner_id = 7;
  kind = "document";
  title = "Letter";
  state = ResourceState.active;
  original_filename = "letter.docx";
  original_file_id = 100;
  current_version_id = 10;
  trashed_at = none;
  purge_after = none;
  updated_at = 0;
}

abbrev pub other_document : Resource
other_document = record document { id = 2; original_file_id = 200; current_version_id = 20 }

abbrev pub version : Version
version = record {
  id = 10;
  document_id = 1;
  owner_id = 7;
  file_id = 100;
  parent_version_id = none;
  restored_from_version_id = none;
  number = 1;
  document_model = some 0;
  field_review = none;
  unsupported_count = 0;
}

abbrev pub other_version : Version
other_version = record version { id = 20; document_id = 2; file_id = 200 }

abbrev file : StoredRow
file = record {
  id = 100;
  owner_id = 7;
  reservation_id = 1000;
  size_bytes = 4;
  digest = 9;
  state = FileState.ready;
  ready_at = some 1;
  deleted_at = none;
}

abbrev pub lease : Lease
lease = record {
  document_id = 1;
  owner_id = 7;
  source_version_id = 10;
  session_hash = 31;
  client_id = 41;
  lease_id = 51;
  expires_at = 4000060;
}

abbrev storage : fillable.Storage.Schema.Db
storage = record {
  default_limit = 200;
  settings_revision = 1;
  accounts = record { user_id = 7; override_bytes = none; used_bytes = 8; reserved_bytes = 0 } ∷ [];
  reservations = [];
  files = file ∷ record file { id = 200; reservation_id = 2000 } ∷ [];
}

abbrev pub db : Db
db = record {
  storage = storage;
  users = user ∷ [];
  sessions = session ∷ record session { token_hash = 32 } ∷ [];
  attempts = [];
  resources = document ∷ other_document ∷ [];
  versions = version ∷ other_version ∷ [];
  leases = lease ∷ [];
  jobs = new_job 0 61 7 1 10 ∷ [];
  keep_latest = none;
  policy_revision = 0;
}

abbrev pub now : ℕ
now = 4000001

abbrev pub acquire_request : LeaseRequest
acquire_request = record {
  action = LeaseAction.acquire;
  source_version_id = 10;
  client_id = 41;
  lease_id = none;
}

abbrev release_request : LeaseRequest
release_request = record {
  action = LeaseAction.release;
  source_version_id = 10;
  client_id = 41;
  lease_id = some 51;
}

abbrev pub other_release : LeaseRequest
other_release = record release_request { client_id = 42 }

abbrev pub save_request : SaveRequest
save_request = record { source_version_id = 10; client_id = 41; lease_id = 51 }

abbrev pub prepared : Prepared
prepared = record { document = 71; review = none; unsupported = 0; selected_file = none }

abbrev pub released_info : LeaseInfo
released_info = record {
  active = false;
  source_version_id = 10;
  lease_id = some 51;
  expires_at = none;
  valid_for_seconds = 0;
}
