-- ===== src/Storage/Recovering/Books.antt =====
-- The books under `recover` of backend/app/storage/service.py.
use fillable.Common.{
  ℕ, Bool, true, false, ◌&&◌, Option, none, some, Outcome, ok, err, if◌then◌else◌, ltb, Bool-cases,
  inl, inr,
}
use fillable.Common.Table.{find}
use fillable.Storage.Schema.{Reservation, Error, active, no_result}
use fillable.Storage.Service.{Policy, reservation_key}
use fillable.Storage.Accounting.Links.{IsBooked}
use fillable.Storage.World.{World, ◌>>◌, done}
use fillable.Storage.World.Triple.{Post, Triple-bind, Triple-throw}
use fillable.Storage.Store.{Surroundings, fails, operation_of, clean_up}
use fillable.Storage.Store.Keeping.{Booked, Keeps, Keeps-fails, Keeps-done, clean_up-Keeps}
use fillable.Storage.Recovering.{recover, recovered, recover_row, is_owned}

module _ (policy : Policy) (around : Surroundings) where
  recover_row-Keeps : (row : Option Reservation) → Keeps (recover_row policy around row)
  recover_row-Keeps none = Triple-throw no_result (λ w p. p)
  recover_row-Keeps (some row) =
      elim (active row.state && ltb around.start.now row.lease_expires_at)
        as (λ c.
          Keeps
            (if c then done false else (do clean_up policy around (operation_of row); done true))) [
              | true ↦ Keeps-done false
              | false ↦
                  Triple-bind (clean_up policy around (operation_of row)) _
                    (clean_up-Keeps policy around (operation_of row)) (λ _. Keeps-done true)
            ]

  recovered-Booked :
      (r : Outcome Error Bool × World) → Post (λ _. Booked) Booked r → Booked (recovered r).1
  recovered-Booked (ok b, w) h = h
  recovered-Booked (err e, w) h = h

  -- On books that balance, `recover`, whatever it answers and whatever fault comes on the way,
  -- leaves the counters of every account equal to the sums over its rows, with keys and links
  -- intact.
  pub recover-IsBooked :
      (owner operation : ℕ) (w : World)
      → IsBooked w.db
      → IsBooked (recover policy around owner operation w).1.db
  unfolding recover
  recover-IsBooked owner operation w v =
      elim (Bool-cases (is_owned owner (find reservation_key operation w.db.reservations))) [
        | inr foreign ↦ rw foreign v
        | inl own ↦ rw own (
            recovered-Booked _ (
              (Triple-bind (fails around.lock) _ (Keeps-fails around.lock)
                  (λ _. recover_row-Keeps (find reservation_key operation w.db.reservations))).at
                w v))
      ]
