-- ===== src/Storage/World.antt =====
-- A method of `class Storage` as a sequence of transactions and file system steps. What was
-- committed before an exception stays committed, so the world comes back beside the error too.
pub mod Triple
use fillable.Common.{Outcome, ok, err}
use fillable.Storage.Schema.{Db, Error}
use fillable.Storage.Service.{Action}
use fillable.Storage.FileSystem.{Files, Fs}

pub record World : Type 0 where
  pub db : Db
  pub files : Files

abbrev pub Method : Type 0 → Type 0
Method A = World → Outcome Error A × World

abbrev pub continue : {A B : Type 0} → Outcome Error A → (A → Method B) → Method B
continue (ok a) f w = f a w
continue (err e) f w = (err e, w)

infixl 5 ◌>>=◌ ◌>>◌
abbrev pub ◌>>=◌ : {A B : Type 0} → Method A → (A → Method B) → Method B
◌>>=◌ m f w = let (r, w') = m w in continue r f w'

abbrev pub ◌>>◌ : {A B : Type 0} → Method A → Method B → Method B
m >> k = m >>= λ _. k

module _ {A : Type 0} where
  abbrev pub done : A → Method A
  done a w = (ok a, w)

  abbrev pub throw : Error → Method A
  throw e w = (err e, w)

  -- `with engine.begin()`: commit, or roll back and raise.
  abbrev pub settle : World → Outcome Error (A × Db) → Outcome Error A × World
  settle w (ok (a, db)) = (ok a, record w { db = db })
  settle w (err e) = (err e, w)

  abbrev pub in_db : Action A → Method A
  in_db m w = settle w (m w.db)

  abbrev pub settle_files : World → Outcome Error (A × Files) → Outcome Error A × World
  settle_files w (ok (a, fs)) = (ok a, record w { files = fs })
  settle_files w (err e) = (err e, w)

  abbrev pub in_fs : Fs A → Method A
  in_fs m w = settle_files w (m w.files)
