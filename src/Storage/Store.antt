-- ===== src/Storage/Store.antt =====
-- `store` of `class Storage` in backend/app/storage/service.py, with `_clean` and `_finish` whole.
pub mod Keeping
pub mod Books
pub mod Held
pub mod Writing
pub mod Content
pub mod Storing
pub mod RoundTrip
use fillable.Common.{
  ℕ, zero, suc, ◌+◌, ◌*◌, Bool, true, false, not, Option, none, some, List, [], ◌∷◌, ltb, ◌==◌,
  if◌then◌else◌, Outcome, ok, err, length, take, drop, ◌++◌,
}
use fillable.Storage.Service.{Policy, Env, Operation, StoredFile}
use fillable.Storage.Reserving.{Fresh, Request, begin, advance}
use fillable.Storage.Schema.{
  Reservation, Error, invalid_request, file_too_large, size_mismatch, operation_aborted,
  operation_in_progress, storage_failure, disk_capacity, blocking, no_space, os_failure,
}
use fillable.Storage.FileSystem.{stage, append, publish, clean}
use fillable.Storage.Finishing.{
  result, finish_staged, finish_check, finish_commit, clean_mark, clean_release, is_aborted,
  is_committed,
}
use fillable.Storage.World.{World, Method, ◌>>=◌, ◌>>◌, done, throw, in_db, in_fs}
use fillable.Storage.Validation.{invalid, too_large}

abbrev pub chunk_bytes : ℕ
chunk_bytes = 64 * 1024

-- What happens around one part of the content: the clock and the disk before and after the write,
-- and an error of the write itself.
pub record Moment : Type 0 where
  pub before : Env
  pub write : Option Error
  pub after : Env

-- What happens around one call of `store`. A fault is an error of the system at that step, and
-- `finalize` is the outcome of the caller's callback, which touches no table of the storage.
pub record Surroundings : Type 0 where
  pub start : Env
  pub lock : Option Error
  pub stage : Option Error
  pub part : ℕ → Moment
  pub staged : Env
  pub check : Env
  pub publish : Option Error
  pub finalize : Option Error
  pub commit : Env
  pub mark : Env
  pub clean : Option Error
  pub release : Env

-- `chunk[offset : offset + CHUNK_BYTES]` for each offset; the fuel is the length of the chunk.
unfoldable pub parts_of : ℕ → List ℕ → List (List ℕ)
parts_of zero bytes = []
parts_of (suc fuel) [] = []
parts_of (suc fuel) (b ∷ bs) = take chunk_bytes (b ∷ bs) ∷ parts_of fuel (drop chunk_bytes (b ∷ bs))

-- `size` and what `digest.update` has been given.
pub record Progress : Type 0 where
  pub size : ℕ
  pub hashed : List ℕ

abbrev pub nothing : Progress
nothing = record { size = 0; hashed = [] }

abbrev pub operation_of : Reservation → Operation
operation_of r = record {
  id = r.id;
  owner_id = r.owner_id;
  file_id = r.file_id;
  lease_token = r.lease_token;
}

abbrev pub fails : Option Error → Method Unit
fails none = done tt
fails (some e) = throw e

module _ (policy : Policy) (op : Operation) (around : ℕ → Moment) (inode : ℕ) where
  -- One part: reserve its growth, write it, record what was written.
  unfoldable pub write_part : ℕ → Progress → List ℕ → Method Progress
  write_part n p part = do
    let reached = p.size + length part
    in_db (advance policy (around n).before op reached false)
    fails (around n).write
    in_fs (append inode part)
    in_db (advance policy (around n).after op reached true)
    done (record { size = reached; hashed = p.hashed ++ part })

  -- The parts of one chunk, from the `n`-th part of the content on.
  unfoldable pub write_parts : ℕ → Progress → List (List ℕ) → Method (ℕ × Progress)
  write_parts n p [] = done (n, p)
  write_parts n p (part ∷ parts) = do
    reached ← write_part n p part
    write_parts (suc n) reached parts

  unfoldable pub write_chunks : ℕ → Progress → List (List ℕ) → Method Progress
  write_chunks n p [] = done p
  write_chunks n p (chunk ∷ chunks) = do
    fails (if ltb policy.file_bytes (p.size + length chunk) then some file_too_large else none)
    (n', p') ← write_parts n p (parts_of (length chunk) chunk)
    write_chunks n' p' chunks

module _ (policy : Policy) (around : Surroundings) where
  -- `_finish`: the rows, then in the second transaction the publication and the commit. The link
  -- that `fs.publish` made is not undone when that transaction rolls back.
  unfoldable pub finish : Operation → ℕ → ℕ → Method StoredFile
  finish op size digest = do
    in_db (finish_staged around.staged op size digest)
    (account, row) ← in_db (finish_check policy around.check op)
    fails around.publish
    in_fs (publish op.id op.owner_id op.file_id)
    fails around.finalize
    in_db (finish_commit around.commit op size account row)
    done (record { id = op.file_id; owner_id = op.owner_id; size_bytes = size; digest = digest })

  -- `_clean`
  abbrev pub sweep : Operation → Option Bool → Method Unit
  sweep op none = done tt
  sweep op (some true) = do fails around.clean; in_fs (clean op.id op.owner_id op.file_id true)
  sweep op (some false) = do
    fails around.clean
    in_fs (clean op.id op.owner_id op.file_id false)
    in_db (clean_release around.release op)

  unfoldable pub clean_up : Operation → Method Unit
  clean_up op = do committed ← in_db (clean_mark around.mark op); sweep op committed

-- An `OSError`, a blocked lock among them.
abbrev pub is_os : Error → Bool
is_os blocking = true
is_os no_space = true
is_os os_failure = true
is_os _ = false

-- The outer handlers of `store`.
unfoldable pub translate : Error → Error
translate blocking = operation_in_progress
translate no_space = disk_capacity
translate os_failure = storage_failure
translate e = e

abbrev pub translated : {A : Type 0} → Outcome Error A × World → Outcome Error A × World
translated (ok a, w) = (ok a, w)
translated (err e, w) = (err (translate e), w)

abbrev pub size_differs : Option ℕ → ℕ → Bool
size_differs none size = false
size_differs (some n) size = not (size == n)

module _ (policy : Policy) (sha256 : List ℕ → ℕ) (around : Surroundings) where
  -- The body of the inner `try`: stage the content, then finish.
  unfoldable pub fill : Operation → Option ℕ → List (List ℕ) → Method StoredFile
  fill op expected chunks = do
    fails around.stage
    inode ← in_fs (stage op.id)
    p ← write_chunks policy op around.part inode 0 nothing chunks
    fails (if size_differs expected p.size then some size_mismatch else none)
    finish policy around op p.size (sha256 p.hashed)

  -- `except Exception: self._clean(op); raise`
  abbrev pub undone :
      Operation → Outcome Error StoredFile × World → Outcome Error StoredFile × World
  undone op (ok file, w) = (ok file, w)
  undone op (err e, w) = (do clean_up policy around op; throw e) w

  -- `except OSError: pass` about the clean-up of a success.
  abbrev pub swept : StoredFile → Outcome Error Unit × World → Outcome Error StoredFile × World
  swept file (ok _, w) = (ok file, w)
  swept file (err e, w) = (if is_os e then ok file else err e, w)

  unfoldable pub create : Operation → Option ℕ → List (List ℕ) → Method StoredFile
  create op expected chunks = do
    file ← (λ w. undone op (fill op expected chunks w))
    (λ w. swept file (clean_up policy around op w))

  unfoldable pub replayed : Reservation → Method StoredFile
  replayed row =
      if is_committed row.state
      then (do fails around.lock; in_db (result row.id row.owner_id))
      else throw (if is_aborted row.state then operation_aborted else operation_in_progress)

  abbrev pub attempt : Request → List (List ℕ) → Reservation × Bool → Method StoredFile
  attempt request chunks (row, true) = do
    fails around.lock
    create (operation_of row) request.expected chunks
  attempt request chunks (row, false) = replayed row

  abbrev pub attempted : Fresh → Request → List (List ℕ) → Method StoredFile
  attempted fresh request chunks = do
    begun ← in_db (begin policy around.start fresh request)
    attempt request chunks begun

  unfoldable pub store : Fresh → Request → List (List ℕ) → Method StoredFile
  store fresh request chunks w =
      if invalid request
      then (err invalid_request, w)
      else if too_large policy request.expected
      then (err file_too_large, w)
      else translated (attempted fresh request chunks w)
