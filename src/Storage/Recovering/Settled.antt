-- ===== src/Storage/Recovering/Settled.antt =====
-- The reservation after `recover` of backend/app/storage/service.py.
use fillable.Common.{
  ℕ, ◌≡◌, ◌⊎◌, refl, arith, Bool, true, false, not, ◌&&◌, Option, none, some, Outcome, ok, err, ltb,
  Bool-cases, Option-cases, inl, inr,
}
use fillable.Common.Table.{find, find-update, key-find}
use fillable.Storage.Schema.{Db, Reservation, ReservationState, Error, active}
use fillable.Storage.Service.{
  Policy, Env, Operation, reservation_key, lock_account, write_account, write_reservation,
  operation,
}
use fillable.Storage.Finishing.{clean_mark, clean_release, in_state, is_aborted, is_committed}
use fillable.Storage.World.{World, continue, settle, settle_files, in_db, done}
use fillable.Storage.FileSystem.{Files, clean}
use fillable.Storage.Store.{Surroundings, operation_of, clean_up, sweep}
use fillable.Storage.Recovering.{recover, recovered, recover_error}

-- A row that no operation works on.
abbrev pub settled : Option Reservation → Bool
settled none = false
settled (some r) = not (active r.state)

clean_mark-settled :
    (env : Env) (op : Operation) (db db' : Db) (mark : Option Bool)
    → clean_mark env op db ≡ ok (mark, db')
    → (mark ≡ some false) ⊎ (settled (find reservation_key op.id db'.reservations) ≡ true)
unfolding clean_mark lock_account write_reservation
clean_mark-settled env op db db' mark h =
    elim (Option-cases (find reservation_key op.id db.reservations)) [
      | inl missing ↦ absurd (ground arith)
      | inr (r, found) ↦ elim (Bool-cases (is_aborted r.state)) [
        | inl gone ↦ inr (ground arith)
        | inr open_still ↦ elim (Bool-cases (is_committed r.state)) [
          | inl kept ↦ inr (ground arith)
          | inr working ↦ inl (ground arith)
        ]
      ]
    ]

clean_release-settled :
    (env : Env) (op : Operation) (db db' : Db) (x : Unit)
    → clean_release env op db ≡ ok (x, db')
    → settled (find reservation_key op.id db'.reservations) ≡ true
unfolding clean_release lock_account write_account write_reservation operation
clean_release-settled env op db db' x h =
    elim (Option-cases (find reservation_key op.id db.reservations)) [
      | inl missing ↦ absurd (ground arith)
      | inr (r, found) ↦
          let u =
            find-update reservation_key op.id op.id (in_state env ReservationState.aborted)
              db.reservations (λ _ e. e) in
          ground (arith, found, u)
    ]

module _ (policy : Policy) (around : Surroundings) (op : Operation) where
  released-settled :
      (r : Outcome Error (Unit × Db)) (w w' : World) (x : Unit)
      → clean_release around.release op w.db ≡ r
      → settle w r ≡ (ok x, w')
      → settled (find reservation_key op.id w'.db.reservations) ≡ true
  released-settled (err e) w w' x q h = absurd (ground arith)
  released-settled (ok (y, db)) w w' x q h =
      ground (arith, clean_release-settled around.release op w.db db y q)

  swept-settled :
      (r : Outcome Error (Unit × Files)) (w w' : World) (x : Unit)
      → continue
          (settle_files w r).0
          (λ _. in_db (clean_release around.release op))
          (settle_files w r).1
        ≡ (ok x, w')
      → settled (find reservation_key op.id w'.db.reservations) ≡ true
  swept-settled (err e) w w' x h = absurd (ground arith)
  swept-settled (ok (y, fs)) w w' x h =
      released-settled (clean_release around.release op w.db) (record w { files = fs }) w' x refl h

  sweep-settled :
      (mark : Option Bool) (w w' : World) (x : Unit)
      → (mark ≡ some false) ⊎ (settled (find reservation_key op.id w.db.reservations) ≡ true)
      → sweep policy around op mark w ≡ (ok x, w')
      → settled (find reservation_key op.id w'.db.reservations) ≡ true
  sweep-settled none w w' x before h = ground (arith, before)
  sweep-settled (some true) w w' x before h = elim (Option-cases around.clean) [
    | inr (e, fault) ↦ absurd (ground arith)
    | inl quiet ↦ ground (arith, before)
  ]
  sweep-settled (some false) w w' x before h = elim (Option-cases around.clean) [
    | inr (e, fault) ↦ absurd (ground arith)
    | inl quiet ↦
        swept-settled (clean op.id op.owner_id op.file_id false w.files) w w' x (ground arith)
  ]

  marked-settled :
      (r : Outcome Error (Option Bool × Db)) (w w' : World) (x : Unit)
      → clean_mark around.mark op w.db ≡ r
      → continue (settle w r).0 (λ mark. sweep policy around op mark) (settle w r).1 ≡ (ok x, w')
      → settled (find reservation_key op.id w'.db.reservations) ≡ true
  marked-settled (err e) w w' x q h = absurd (ground arith)
  marked-settled (ok (mark, db)) w w' x q h =
      sweep-settled mark (record w { db = db }) w' x
        (clean_mark-settled around.mark op w.db db mark q) h

  pub clean_up-settled :
      (w w' : World) (x : Unit)
      → clean_up policy around op w ≡ (ok x, w')
      → settled (find reservation_key op.id w'.db.reservations) ≡ true
  unfolding clean_up
  clean_up-settled w w' x h = marked-settled (clean_mark around.mark op w.db) w w' x refl h

recover_error_lem : (e : Error) → ¬ (recover_error e ≡ ok true)
unfolding recover_error
recover_error_lem e h = ground arith

recovered-settled :
    (policy : Policy) (around : Surroundings) (op : Operation) (w w' : World)
    (p : Outcome Error Unit × World)
    → clean_up policy around op w ≡ p
    → recovered (continue p.0 (λ _. done true) p.1) ≡ (ok true, w')
    → settled (find reservation_key op.id w'.db.reservations) ≡ true
recovered-settled policy around op w w' (ok x, w₁) q h =
    ground (arith, clean_up-settled policy around op w w₁ x q)
recovered-settled policy around op w w' (err e, w₁) q h =
    absurd (recover_error_lem e (ground arith))

-- When `recover` answers that it has recovered an operation, no operation works on its reservation
-- any more: it is committed or aborted.
pub recover-settled :
    (policy : Policy) (around : Surroundings) (owner operation : ℕ) (w w' : World)
    → recover policy around owner operation w ≡ (ok true, w')
    → settled (find reservation_key operation w'.db.reservations) ≡ true
unfolding recover
recover-settled policy around owner operation w w' h =
    elim (Option-cases (find reservation_key operation w.db.reservations)) [
      | inl missing ↦ absurd (ground arith)
      | inr (row, found) ↦
          let own = key-find reservation_key operation w.db.reservations found in
          elim (Option-cases around.lock) [
            | inr (e, fault) ↦ absurd (recover_error_lem e (ground arith))
            | inl quiet ↦
                elim (Bool-cases (active row.state && ltb around.start.now row.lease_expires_at)) [
                  | inl working ↦ absurd (ground arith)
                  | inr over ↦
                      let done_all =
                        recovered-settled policy around (operation_of row) w w'
                          (clean_up policy around (operation_of row) w) refl (ground arith) in
                      ground (arith, done_all, own)
                ]
          ]
    ]
