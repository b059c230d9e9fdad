-- ===== src/Storage/FileSystem/Safety.antt =====
-- What `clean` of backend/app/storage/filesystem.py may remove.
use fillable.Common.{ℕ, ◌≡◌, ◌≢◌, Bool, false, none, ok, arith}
use fillable.Storage.FileSystem.{Files, clean}

-- When a clean-up that succeeds has changed a final name, the name is the operation's own, the
-- operation is not committed, and the name linked the very inode that the operation had staged;
-- neither the name nor the staging link is left.
pub clean_unlinks_own :
    (op owner file : ℕ) (committed : Bool) (fs fs' : Files) (x : Unit) (o j : ℕ)
    → clean op owner file committed fs ≡ ok (x, fs')
    → fs'.final o j ≢ fs.final o j
    → (fs'.staging op ≡ none)
      × (committed ≡ false)
      × (o ≡ owner)
      × (j ≡ file)
      × (fs.final owner file ≡ fs.staging op)
      × (fs'.final owner file ≡ none)
unfolding clean
clean_unlinks_own op owner file committed fs fs' x o j e changed = ground arith
