-- ===== src/Storage/Store/Books.antt =====
-- The books under `store` of backend/app/storage/service.py, through its faults.
use fillable.Common.{
  ℕ, Bool, true, false, Option, none, some, List, Outcome, ok, err, if◌then◌else◌,
}
use fillable.Storage.Schema.{
  Reservation, Error, size_mismatch, operation_aborted, operation_in_progress,
}
use mathlib.Core.Path.{subst}
use fillable.Storage.FileSystem.{stage}
use fillable.Storage.Service.{Policy, Operation, StoredFile}
use fillable.Storage.Reserving.{Fresh, Request, begin}
use fillable.Storage.Finishing.{result, is_committed, is_aborted}
use fillable.Storage.World.{World, ◌>>◌, in_db, in_fs, throw}
use fillable.Storage.World.Triple.{Post, Triple-bind, Triple-throw}
use fillable.Storage.Accounting.Links.{IsBooked}
use fillable.Storage.Accounting.Steps.{begin-IsBooked}
use fillable.Common.{Bool-cases, inl, inr}
use fillable.Storage.Validation.{invalid, too_large}
use fillable.Storage.Store.{
  Surroundings, nothing, fails, write_chunks, clean_up, translated, undone, swept, fill, create,
  replayed, attempt, store, operation_of, size_differs, is_os, attempted,
}
use fillable.Storage.Store.Keeping.{
  Booked, Keeps, Keeps-in_db, Keeps-in_fs, Keeps-fails, write_chunks-Keeps, finish-Keeps,
  clean_up-Keeps, result-same,
}

module _ (policy : Policy) (sha256 : List ℕ → ℕ) (around : Surroundings) where
  fill-Keeps :
      (op : Operation) (expected : Option ℕ) (chunks : List (List ℕ))
      → Keeps (fill policy sha256 around op expected chunks)
  unfolding fill
  fill-Keeps op expected chunks = Triple-bind (fails around.stage) _ (Keeps-fails around.stage) λ _.
      Triple-bind (in_fs (stage op.id)) _ (Keeps-in_fs (stage op.id)) λ inode.
        Triple-bind (write_chunks policy op around.part inode 0 nothing chunks) _
          (write_chunks-Keeps policy op around.part inode 0 nothing chunks)
          λ p.
            Triple-bind (fails (if size_differs expected p.size then some size_mismatch else none))
              _ (Keeps-fails _) λ _. finish-Keeps policy around op p.size (sha256 p.hashed)

  undone-Booked :
      (op : Operation) (r : Outcome Error StoredFile) (w : World)
      → Post (λ _. Booked) Booked (r, w)
      → Post (λ _. Booked) Booked (undone policy sha256 around op (r, w))
  undone-Booked op (ok file) w b = b
  undone-Booked op (err e) w b =
      (Triple-bind (clean_up policy around op) _ (clean_up-Keeps policy around op)
          (λ _. Triple-throw e (λ w p. p))).at
        w b

  swept-Booked :
      (file : StoredFile) (r : Outcome Error Unit) (w : World)
      → Post (λ _. Booked) Booked (r, w)
      → Post (λ _. Booked) Booked (swept policy sha256 around file (r, w))
  swept-Booked file (ok _) w b = b
  swept-Booked file (err e) w b =
      elim (is_os e) as (λ c. Post (λ _. Booked) Booked (if c then ok file else err e, w)) [
        | true ↦ b
        | false ↦ b
      ]

  create-Keeps :
      (op : Operation) (expected : Option ℕ) (chunks : List (List ℕ))
      → Keeps (create policy sha256 around op expected chunks)
  unfolding create
  create-Keeps op expected chunks =
      Triple-bind
        (λ w. undone policy sha256 around op (fill policy sha256 around op expected chunks w)) _
        (record {
          at = λ w b.
              let (r, w') = fill policy sha256 around op expected chunks w in
              undone-Booked op r w' ((fill-Keeps op expected chunks).at w b);
        })
        λ file. record {
          at = λ w b.
              let (r, w') = clean_up policy around op w in
              swept-Booked file r w' ((clean_up-Keeps policy around op).at w b);
        }

  replayed-Keeps : (row : Reservation) → Keeps (replayed policy sha256 around row)
  unfolding replayed
  replayed-Keeps row =
      elim (is_committed row.state)
        as (λ c. Keeps (
          if c
          then (do fails around.lock; in_db (result row.id row.owner_id))
          else throw (if is_aborted row.state then operation_aborted else operation_in_progress))) [
            | true ↦ Triple-bind (fails around.lock) _ (Keeps-fails around.lock) λ _.
                Keeps-in_db _
                  (λ db a db' v e. subst IsBooked (result-same row.id row.owner_id db db' a e) v)
            | false ↦ Triple-throw _ (λ w p. p)
          ]

  attempt-Keeps :
      (request : Request) (chunks : List (List ℕ)) (begun : Reservation × Bool)
      → Keeps (attempt policy sha256 around request chunks begun)
  unfolding replayed
  attempt-Keeps request chunks (row, true) =
      Triple-bind (fails around.lock) _ (Keeps-fails around.lock)
        λ _. create-Keeps (operation_of row) request.expected chunks
  attempt-Keeps request chunks (row, false) = replayed-Keeps row

  attempted-Keeps :
      (fresh : Fresh) (request : Request) (chunks : List (List ℕ))
      → Keeps (attempted policy sha256 around fresh request chunks)
  attempted-Keeps fresh request chunks =
      Triple-bind (in_db (begin policy around.start fresh request)) _
        (Keeps-in_db _
          (λ db a db' v e. begin-IsBooked policy around.start fresh request db db' a v e))
        (attempt-Keeps request chunks)

  translated-Booked :
      (r : Outcome Error StoredFile) (w : World)
      → Post (λ _. Booked) Booked (r, w)
      → Booked (translated (r, w)).1
  translated-Booked (ok file) w b = b
  translated-Booked (err e) w b = b

  -- When every account's counters equal the sums over its rows, keys are unique, and each file's
  -- state agrees with its reservation's, they still do after any call of `store`, whatever the
  -- request, the content and the faults on the way.
  pub store-IsBooked :
      (fresh : Fresh) (request : Request) (chunks : List (List ℕ)) (w : World)
      → IsBooked w.db
      → IsBooked (store policy sha256 around fresh request chunks w).1.db
  unfolding store
  store-IsBooked fresh request chunks w b = elim (Bool-cases (invalid request)) [
    | inl bad ↦ rw bad b
    | inr good ↦ elim (Bool-cases (too_large policy request.expected)) [
      | inl large ↦ rw (good, large) b
      | inr fits ↦
          rw (good, fits)
            (let (r, w') = attempted policy sha256 around fresh request chunks w in
              translated-Booked r w' ((attempted-Keeps fresh request chunks).at w b))
    ]
  ]
