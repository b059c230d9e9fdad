-- ===== src/Storage/Store/RoundTrip.antt =====
-- `store` followed by `read`, and `store` repeated (backend/app/storage/service.py).
use fillable.Common.{
  ℕ, ◌≡◌, Bool, true, false, none, some, List, Outcome, ok, err, arith, length, flatten, Bool-cases,
  inl, inr,
}
use mathlib.Core.Path.{subst₂}
use fillable.Common.Table.{find}
use fillable.Storage.Schema.{Account, StoredRow, Reservation, FileState, Db, Error}
use fillable.Storage.FileSystem.{read as read_file}
use fillable.Storage.Service.{Policy, Env, Operation, StoredFile, account_key, lock_account}
use fillable.Storage.Reserving.{Fresh, Request, begin, by_key, replay, same_request}
use fillable.Storage.Finishing.{is_committed, result, file_of}
use fillable.Storage.World.{World, in_db}
use fillable.Storage.World.Triple.{Triple, Post, Triple-bind, Triple-in_db}
use fillable.Storage.Validation.{invalid, too_large}
use fillable.Storage.Reading.{read, ready_row}
use fillable.Storage.Store.{
  Surroundings, create, operation_of, replayed, attempted, attempt, store, translated,
}
use fillable.Storage.Store.Held.{Held, any_state, begin-Held}
use fillable.Storage.Store.Writing.{fails-Triple, fact-Triple}
use fillable.Storage.Store.Storing.{Stored, create-Stored}

module _ (policy : Policy) (sha256 : List ℕ → ℕ) (around : Surroundings) (request : Request) where
  abbrev StoredSome : List ℕ → StoredFile → World → Type 0
  StoredSome bytes f w = (op : Operation) × Stored request op policy sha256 around bytes f w

  abbrev Unused : World → Type 0
  Unused w = by_key request.owner request.key w.db.reservations ≡ none

  weaken :
      (op : Operation) (bytes : List ℕ) (r : Outcome Error StoredFile × World)
      → Post (Stored request op policy sha256 around bytes) (λ _. Unit) r
      → Post (StoredSome bytes) (λ _. Unit) r
  weaken op bytes (ok f, w) h = (op, h)
  weaken op bytes (err e, w) h = tt

  attempted-Stored :
      (fresh : Fresh) (chunks : List (List ℕ))
      → Triple Unused
          (attempted policy sha256 around fresh request chunks)
          (StoredSome (flatten chunks))
          (λ _. Unit)
  attempted-Stored fresh chunks =
      Triple-bind {Q = λ r w. Held request (operation_of r.0) any_state w.db × (r.1 ≡ true)}
        (in_db (begin policy around.start fresh request)) _
        (Triple-in_db _ (λ w h. tt)
          (λ w r db h e.
            let b = begin-Held policy around.start request fresh w.db db r h e in (b.2, b.0)))
        λ r. fact-Triple λ e. new_one r.0 r.1 e
    where
      new_one :
          (row : Reservation) (is_new : Bool)
          → is_new ≡ true
          → Triple
              (λ w. Held request (operation_of row) any_state w.db)
              (attempt policy sha256 around request chunks (row, is_new))
              (StoredSome (flatten chunks))
              (λ _. Unit)
      new_one row true e = Triple-bind _ _ (fails-Triple around.lock (λ w h. tt)) λ _. record {
        at = λ w h.
            weaken (operation_of row) (flatten chunks)
              (create policy sha256 around (operation_of row) request.expected chunks w)
              ((create-Stored request (operation_of row) policy sha256 around request.expected
                  chunks).at
                w h);
      }
      new_one row false e = cc

  extract :
      (bytes : List ℕ) (f : StoredFile) (w' : World) (r : Outcome Error StoredFile × World)
      → Post (StoredSome bytes) (λ _. Unit) r
      → translated r ≡ (ok f, w')
      → StoredSome bytes f w'
  extract bytes f w' (ok g, w) h e = subst₂ (StoredSome bytes) (ground arith) (ground arith) h
  extract bytes f w' (err x, w) h e = cc

  store-StoredSome :
      (fresh : Fresh) (chunks : List (List ℕ)) (f : StoredFile) (w w' : World)
      → Unused w
      → store policy sha256 around fresh request chunks w ≡ (ok f, w')
      → StoredSome (flatten chunks) f w'
  unfolding store
  store-StoredSome fresh chunks f w w' u e = elim (Bool-cases (invalid request)) [
    | inl bad ↦ absurd (ground arith)
    | inr good ↦ elim (Bool-cases (too_large policy request.expected)) [
      | inl large ↦ absurd (ground arith)
      | inr fits ↦
          extract (flatten chunks) f w' (attempted policy sha256 around fresh request chunks w)
            ((attempted-Stored fresh chunks).at w u) (rw (good, fits) at e)
    ]
  ]

  -- When the key of the request was not used before and `store` returns a file, its size and
  -- digest are those of the whole content, and `read`, with no lock in the way, returns exactly
  -- the content and changes nothing.
  pub read-store :
      (fresh : Fresh) (chunks : List (List ℕ)) (f : StoredFile) (w w' : World)
      → by_key request.owner request.key w.db.reservations ≡ none
      → store policy sha256 around fresh request chunks w ≡ (ok f, w')
      → (read sha256 none f.owner_id f.id w' ≡ (ok (flatten chunks), w'))
        × (f.size_bytes ≡ length (flatten chunks))
        × (f.digest ≡ sha256 (flatten chunks))
  unfolding read ready_row read_file
  read-store fresh chunks f w w' u e =
      let (op, found) = store-StoredSome fresh chunks f w w' u e in
      let (inode, p, k, q, r) = found in
      (
        ground (
          arith, r, q, k.link, k.bytes, k.size, k.file.by_id, k.file.owner, k.file.size_is,
          k.file.digest_is, k.file.state_is,
        ),
        ground (arith, r, q, k.size),
        ground (arith, r),
      )

  store_valid :
      (fresh : Fresh) (chunks : List (List ℕ)) (f : StoredFile) (w w' : World)
      → store policy sha256 around fresh request chunks w ≡ (ok f, w')
      → (invalid request ≡ false) × (too_large policy request.expected ≡ false)
  unfolding store
  store_valid fresh chunks f w w' e = elim (Bool-cases (invalid request)) [
    | inl bad ↦ absurd (ground arith)
    | inr good ↦ elim (Bool-cases (too_large policy request.expected)) [
      | inl large ↦ absurd (ground arith)
      | inr fits ↦ (good, fits)
    ]
  ]

  begin_again :
      (env : Env) (fresh : Fresh) (row : Reservation) (db : Db) {a : Account}
      → find account_key request.owner db.accounts ≡ some a
      → by_key request.owner request.key db.reservations ≡ some row
      → same_request row request.fingerprint request.purpose request.expected ≡ true
      → begin policy env fresh request db ≡ ok ((row, false), db)
  unfolding begin lock_account replay
  begin_again env fresh row db fa fr same = ground arith

  result_again :
      (row : Reservation) (file : StoredRow) (db : Db)
      → file_of row.id db.files ≡ some file
      → file.owner_id ≡ row.owner_id
      → file.state ≡ FileState.ready
      → result row.id row.owner_id db
        ≡ ok (
          record {
            id = file.id;
            owner_id = file.owner_id;
            size_bytes = file.size_bytes;
            digest = file.digest;
          },
          db,
        )
  unfolding result
  result_again row file db e o s = ground arith

  replayed_again :
      (around' : Surroundings) (row : Reservation) (f : StoredFile) (w : World)
      → is_committed row.state ≡ true
      → around'.lock ≡ none
      → result row.id row.owner_id w.db ≡ ok (f, w.db)
      → replayed policy sha256 around' row w ≡ (ok f, w)
  unfolding replayed
  replayed_again around' row f w c l e = ground arith

  -- When the key of the request was not used before and `store` returns a file, the same request
  -- sent again, with any content, returns the same file and changes nothing, if the account is
  -- found and no lock is in the way.
  pub store-again :
      (fresh fresh' : Fresh) (chunks chunks' : List (List ℕ)) (around' : Surroundings)
      (f : StoredFile) (w w' : World) {a : Account}
      → by_key request.owner request.key w.db.reservations ≡ none
      → store policy sha256 around fresh request chunks w ≡ (ok f, w')
      → find account_key request.owner w'.db.accounts ≡ some a
      → around'.lock ≡ none
      → store policy sha256 around' fresh' request chunks' w' ≡ (ok f, w')
  unfolding store
  store-again fresh fresh' chunks chunks' around' f w w' {a} u e found lock =
      let (op, some_inode) = store-StoredSome fresh chunks f w w' u e in
      let (inode, p, k, q, r) = some_inode in
      let (good, fits) = store_valid fresh chunks f w w' e in
      let row = k.held.row in
      let res =
        result_again row k.file.file w'.db (ground (arith, k.file.by_operation, k.held.id))
          (ground (arith, k.file.owner, k.held.owner)) k.file.state_is in
      let same_file : result row.id row.owner_id w'.db ≡ ok (f, w'.db) =
        ground (arith, res, r, q, k.file.id, k.file.owner, k.file.size_is, k.file.digest_is) in
      rw (
        good,
        fits,
        begin_again around'.start fresh' row w'.db {a = a} found k.held.found k.held.same,
        replayed_again around' row f w' k.held.state lock same_file,
      )
