-- ===== src/Storage/Recovering.antt =====
-- `recover` of `class Storage` in backend/app/storage/service.py: cleaning up after an operation
-- whose writer is gone.
pub mod Books
pub mod Settled
use fillable.Common.{
  ℕ, ◌==◌, ltb, Bool, true, false, not, ◌&&◌, Option, none, some, Outcome, ok, err, if◌then◌else◌,
}
use fillable.Common.Table.{find}
use fillable.Storage.Schema.{
  Reservation, Error, active, not_found, no_result, storage_failure, blocking, no_space, os_failure,
}
use fillable.Storage.Service.{Policy, reservation_key}
use fillable.Storage.World.{World, Method, ◌>>=◌, ◌>>◌, done, throw}
use fillable.Storage.Store.{Surroundings, fails, operation_of, clean_up}

-- The handlers of `recover`: a lock that is held is no error.
unfoldable pub recover_error : Error → Outcome Error Bool
recover_error blocking = ok false
recover_error no_space = err storage_failure
recover_error os_failure = err storage_failure
recover_error e = err e

abbrev pub recovered : Outcome Error Bool × World → Outcome Error Bool × World
recovered (ok b, w) = (ok b, w)
recovered (err e, w) = (recover_error e, w)

abbrev pub is_owned : ℕ → Option Reservation → Bool
is_owned owner none = false
is_owned owner (some r) = r.owner_id == owner

module _ (policy : Policy) (around : Surroundings) where
  -- The row under the lock: an operation in its lease is left alone.
  abbrev pub recover_row : Option Reservation → Method Bool
  recover_row none = throw no_result
  recover_row (some row) =
      if active row.state && ltb around.start.now row.lease_expires_at
      then done false
      else (do clean_up policy around (operation_of row); done true)

  unfoldable pub recover : ℕ → ℕ → Method Bool
  recover owner operation w =
      if not (is_owned owner (find reservation_key operation w.db.reservations))
      then (err not_found, w)
      else recovered
          ((do fails around.lock; recover_row (find reservation_key operation w.db.reservations)) w)
