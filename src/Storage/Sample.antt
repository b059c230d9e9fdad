-- ===== src/Storage/Sample.antt =====
-- A small storage and the requests of the runs (backend/app/storage/).
use fillable.Common.{ℕ, ◌+◌, none, some, List, [], ◌∷◌, length}
use fillable.Storage.Schema.{Account, Db}
use fillable.Storage.Service.{Policy, Env, StoredFile}
use fillable.Storage.Reserving.{Fresh, Request}
use fillable.Storage.Store.{Surroundings}
use fillable.Storage.World.{World}

abbrev pub policy : Policy
policy = record {
  file_bytes = 100;
  staging_bytes = 500;
  disk_headroom_bytes = 10;
  lease_seconds = 60;
}

abbrev pub env : Env
env = record { now = 5; available = 1000 }

abbrev pub quiet : Surroundings
quiet = record {
  start = env;
  lock = none;
  stage = none;
  part = λ _. record { before = env; write = none; after = env };
  staged = env;
  check = env;
  publish = none;
  finalize = none;
  commit = env;
  mark = env;
  clean = none;
  release = env;
}

abbrev pub account : Account
account = record { user_id = 7; override_bytes = none; used_bytes = 0; reserved_bytes = 0 }

abbrev pub db : Db
db = record {
  default_limit = 200;
  settings_revision = 1;
  accounts = account ∷ [];
  reservations = [];
  files = [];
}

abbrev pub world : World
world = record {
  db = db;
  files = record { staging = λ _. none; final = λ _ _. none; content = λ _. []; next_inode = 0 };
}

abbrev pub request : Request
request = record {
  owner = 7;
  key = "upload-1";
  fingerprint = "0123456789abcdef0123456789abcdef0123456789abcdef0123456789abcdef";
  purpose = "original";
  expected = some 4;
}

abbrev pub fresh : Fresh
fresh = record { id = 11; file_id = 12; lease_token = 13 }

abbrev pub chunks : List (List ℕ)
chunks = (1 ∷ 2 ∷ []) ∷ [] ∷ (3 ∷ 4 ∷ []) ∷ []

abbrev pub checksum : List ℕ → ℕ
checksum bytes = 1000 + length bytes

abbrev pub stored : StoredFile
stored = record { id = 12; owner_id = 7; size_bytes = 4; digest = 1004 }
