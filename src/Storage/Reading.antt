-- ===== src/Storage/Reading.antt =====
-- `read` of `class Storage` in backend/app/storage/service.py: the verified bytes of a ready file.
use fillable.Common.{
  ℕ, not, ◌&&◌, Option, none, some, List, ◌==◌, ◌||◌, length, Outcome, ok, err, if◌then◌else◌,
}
use fillable.Common.Table.{find}
use fillable.Storage.Schema.{
  StoredRow, Error, not_found, operation_in_progress, storage_failure, blocking, no_space,
  os_failure,
}
use fillable.Storage.FileSystem
use fillable.Storage.Service.{Action, file_key}
use fillable.Storage.Finishing.{is_ready}
use fillable.Storage.World.{World, Method, ◌>>=◌, ◌>>◌, done, throw, in_db, in_fs}
use fillable.Storage.Store.{fails}

-- The row of a ready file of this owner.
checked_row : ℕ → Option StoredRow → Action StoredRow
checked_row owner none db = err not_found
checked_row owner (some f) db =
    if f.owner_id == owner && is_ready f.state then ok (f, db) else err not_found

unfoldable pub ready_row : ℕ → ℕ → Action StoredRow
unfolding checked_row
ready_row owner file db = checked_row owner (find file_key file db.files) db

-- The handlers of `read`.
unfoldable pub read_error : Error → Error
read_error blocking = operation_in_progress
read_error no_space = storage_failure
read_error os_failure = storage_failure
read_error e = e

abbrev pub read_outcome : {A : Type 0} → Outcome Error A × World → Outcome Error A × World
read_outcome (ok a, w) = (ok a, w)
read_outcome (err e, w) = (err (read_error e), w)

module _ (sha256 : List ℕ → ℕ) (lock : Option Error) where
  -- The row is read again under the shared lock; then the size and the digest are compared.
  abbrev pub reading : ℕ → ℕ → StoredRow → Method (List ℕ)
  reading owner file row = do
    fails lock
    in_db (ready_row owner file)
    bytes ← in_fs (FileSystem.read owner file)
    if not (length bytes == row.size_bytes) || not (sha256 bytes == row.digest)
        then throw storage_failure
        else done bytes

  unfoldable pub read : ℕ → ℕ → Method (List ℕ)
  read owner file w =
      read_outcome ((do row ← in_db (ready_row owner file); reading owner file row) w)
