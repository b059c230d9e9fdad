-- ===== src/Storage/World/Triple.antt =====
-- Hoare triples for methods: from `P`, a method ends in `Q` with its value, or raises in `E`.
use fillable.Common.{◌≡◌, refl, Outcome, ok, err}
use fillable.Storage.Schema.{Db, Error}
use fillable.Storage.Service.{Action}
use fillable.Storage.FileSystem.{Files, Fs}
use fillable.Storage.World.{
  World, Method, continue, ◌>>=◌, settle, settle_files, in_db, in_fs, done, throw,
}

abbrev pub Post :
    {A : Type 0} → (A → World → Type 0) → (World → Type 0) → Outcome Error A × World → Type 0
Post Q E (ok a, w) = Q a w
Post Q E (err e, w) = E w

pub record Triple {A : Type 0} (P : World → Type 0) (m : Method A) (Q : A → World → Type 0)
    (E : World → Type 0) : Type 0 where
  pub at : (w : World) → P w → Post Q E (m w)

Post-continue :
    {A B : Type 0} (Q : A → World → Type 0) (E : World → Type 0) (R : B → World → Type 0)
    (r : Outcome Error A) (f : A → Method B) (w : World)
    → ((a : A) → Triple (Q a) (f a) R E)
    → Post Q E (r, w)
    → Post R E (continue r f w)
Post-continue Q E R (ok a) f w next q = (next a).at w q
Post-continue Q E R (err e) f w next q = q

module _ {A : Type 0} (Q : A → World → Type 0) (E : World → Type 0) (w : World) where
  Post-settle :
      (r : Outcome Error (A × Db))
      → ((a : A) (db : Db) → r ≡ ok (a, db) → Q a (record w { db = db }))
      → E w
      → Post Q E (settle w r)
  Post-settle (ok (a, db)) q e = q a db refl
  Post-settle (err _) q e = e

  Post-settle_files :
      (r : Outcome Error (A × Files))
      → ((a : A) (fs : Files) → r ≡ ok (a, fs) → Q a (record w { files = fs }))
      → E w
      → Post Q E (settle_files w r)
  Post-settle_files (ok (a, fs)) q e = q a fs refl
  Post-settle_files (err _) q e = e

pub Triple-bind :
    {A B : Type 0} {P : World → Type 0} {Q : A → World → Type 0} {E : World → Type 0}
    {R : B → World → Type 0} (m : Method A) (f : A → Method B)
    → Triple P m Q E
    → ((a : A) → Triple (Q a) (f a) R E)
    → Triple P (m >>= f) R E
Triple-bind {Q = Q} {E = E} {R = R} m f first next = record {
  at = λ w p. let (r, w') = m w in Post-continue Q E R r f w' next (first.at w p);
}

module _ {A : Type 0} {P : World → Type 0} {Q : A → World → Type 0} {E : World → Type 0} where
  pub Triple-done : (a : A) → ((w : World) → P w → Q a w) → Triple P (done a) Q E
  Triple-done a h = record { at = h }

  pub Triple-throw : (e : Error) → ((w : World) → P w → E w) → Triple P (throw e) Q E
  Triple-throw e h = record { at = h }

  -- A transaction that raises leaves the world.
  pub Triple-in_db :
      (m : Action A)
      → ((w : World) → P w → E w)
      → ((w : World) (a : A) (db : Db) → P w → m w.db ≡ ok (a, db) → Q a (record w { db = db }))
      → Triple P (in_db m) Q E
  Triple-in_db m keep h = record {
    at = λ w p. Post-settle Q E w (m w.db) (λ a db. h w a db p) (keep w p);
  }

  pub Triple-in_fs :
      (m : Fs A)
      → ((w : World) → P w → E w)
      → ((w : World) (a : A) (fs : Files)
          → P w
          → m w.files ≡ ok (a, fs)
          → Q a (record w { files = fs }))
      → Triple P (in_fs m) Q E
  Triple-in_fs m keep h = record {
    at = λ w p. Post-settle_files Q E w (m w.files) (λ a fs. h w a fs p) (keep w p);
  }
