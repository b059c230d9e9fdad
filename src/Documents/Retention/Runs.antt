-- ===== src/Documents/Retention/Runs.antt =====
-- A pruning at a concrete input (backend/app/documents/retention.py).
use fillable.Common.{ℕ, ◌+◌, ◌≡◌, refl, none, some, [], ◌∷◌, ok, inl, inr}
use fillable.Common.Table.{find}
use fillable.Storage.Schema.{Account, StoredRow, FileState, integrity}
use fillable.Storage.Schema
use fillable.Storage.Service.{file_key, lock_account, write_account}
use fillable.Storage.FileSystem
use fillable.Storage.FileSystem.{Files}
use fillable.Storage.Maintenance.{Deletion, delete_mark, delete_commit, delete_file}
use fillable.Documents.Schema.{Db, Resource, ResourceState, Version}
use fillable.Documents.Retention.Policy.{authorize, candidates, is_candidate}
use fillable.Documents.Retention.Prune.{
  Archive, PruneStatus, prune, prune_each, prune_version, callback_rows,
}
use fillable.Documents.Retention.Sparing.{IsKept}
use fillable.Documents.Retention.Pruning.{prune-spares}

abbrev document : Resource
document = record {
  id = 1;
  owner_id = 7;
  kind = "document";
  title = "Letter";
  state = ResourceState.active;
  original_filename = "letter.docx";
  original_file_id = 100;
  current_version_id = 12;
  trashed_at = none;
  purge_after = none;
  updated_at = 0;
}

abbrev version : ℕ → Version
version number = record {
  id = 9 + number;
  document_id = 1;
  owner_id = 7;
  file_id = 99 + number;
  parent_version_id = none;
  restored_from_version_id = none;
  number = number;
  document_model = some 0;
  field_review = none;
  unsupported_count = 0;
}

abbrev file : ℕ → StoredRow
file number = record {
  id = 99 + number;
  owner_id = 7;
  reservation_id = 999 + number;
  size_bytes = 4;
  digest = 9;
  state = FileState.ready;
  ready_at = some 1;
  deleted_at = none;
}

abbrev storage : fillable.Storage.Schema.Db
storage = record {
  default_limit = 200;
  settings_revision = 1;
  accounts =
      record { user_id = 7; override_bytes = none; used_bytes = 12; reserved_bytes = 0 } ∷ [];
  reservations = [];
  files = file 1 ∷ file 2 ∷ file 3 ∷ [];
}

-- Three versions, of which the newest is kept.
abbrev db : Db
db = record {
  storage = storage;
  users = [];
  sessions = [];
  attempts = [];
  resources = document ∷ [];
  versions = version 3 ∷ version 2 ∷ version 1 ∷ [];
  leases = [];
  jobs = [];
  keep_latest = some 1;
  policy_revision = 1;
}

abbrev files : Files
files = record { staging = λ _. none; final = λ _ n. some n; content = λ _. []; next_inode = 500 }

abbrev archive : Archive
archive = record { db = db; files = files }

abbrev removal : ℕ → Deletion
removal _ = record {
  lock = none;
  authorize = none;
  remove = none;
  env = record { now = 50; available = 1000 };
}

middle_goes :
    (prune removal none 5 archive).0
    ≡ ok
        (record { versions = (11, PruneStatus.pruned) ∷ []; bytes_removed = 4; next_cursor = none })
unfolding prune prune_each candidates is_candidate prune_version callback_rows delete_file
    delete_mark lock_account authorize FileSystem.remove delete_commit write_account
    Schema.account_checks
middle_goes = refl

newest : IsKept db 102
newest = record {
  version = version 3;
  resource = document;
  current = version 3;
  keep = 1;
  policy = refl;
  at = refl;
  of = refl;
  newest = refl;
  has = refl;
  why = inr (inl refl);
}

prune-spares_example :
    find file_key 102 (prune removal none 5 archive).1.db.storage.files ≡ some (file 3)
prune-spares_example = prune-spares removal none 5 102 archive (file 3) refl refl (inr newest)
