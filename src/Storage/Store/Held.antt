-- ===== src/Storage/Store/Held.antt =====
-- The row of an operation, as the transactions of `store` move it.
use fillable.Common.{
  ℕ, ◌≡◌, refl, String, Bool, true, none, some, List, [], ◌∷◌, ok, arith, ◌==◌, eq_iff,
  if◌then◌else◌, Option-cases, inl, inr, ◌∙◌,
}
use fillable.Common.Table.{find, update, find-update}
use fillable.Storage.Schema.{Account, Reservation, ReservationState, StoredRow, FileState, Db}
use fillable.Storage.Service.{
  Policy, Env, Operation, account_key, reservation_key, file_key, lock_account, usage_of,
}
use fillable.Storage.Reserving.{
  Fresh, Request, by_key, new_reservation, same_request, begin, advanced, advance,
}
use fillable.Storage.Finishing.{
  file_of, staged_row, in_state, made_ready, finish_staged, finish_commit, is_committed,
}
use fillable.Storage.Accounting.Shapes.{
  reserve_lem, advance_lem, finish_staged_lem, finish_commit_lem,
}
use fillable.Storage.Store.{operation_of}

-- The request's row stands under its key and is the operation's.
pub record Held (request : Request) (op : Operation) (s : ReservationState → Bool) (db : Db)
    : Type 0 where
  pub row : Reservation
  pub found : by_key request.owner request.key db.reservations ≡ some row
  pub by_id : find reservation_key op.id db.reservations ≡ some row
  pub id : row.id ≡ op.id
  pub owner : row.owner_id ≡ op.owner_id
  pub same : same_request row request.fingerprint request.purpose request.expected ≡ true
  pub state : s row.state ≡ true

module _ (owner : ℕ) (key : String) (k : ℕ) (f : Reservation → Reservation) where
  by_key-update :
      (rs : List Reservation) {r : Reservation}
      → ((r : Reservation) → (f r).owner_id ≡ r.owner_id)
      → ((r : Reservation) → (f r).idempotency_key ≡ r.idempotency_key)
      → by_key owner key rs ≡ some r
      → by_key owner key (update reservation_key k f rs) ≡ some (if r.id == k then f r else r)
  by_key-update [] fo fk h = cc
  by_key-update (x ∷ rs) {r} fo fk h = ground (arith, fo x, fk x, by_key-update rs {r = r} fo fk)

file_of-update :
    (op fid : ℕ) (env : Env) (fs : List StoredRow) {f : StoredRow}
    → file_of op fs ≡ some f
    → f.id ≡ fid
    → file_of op (update file_key fid (made_ready env) fs) ≡ some (made_ready env f)
file_of-update op fid env [] h e = cc
file_of-update op fid env (x ∷ fs) {f} h e = ground (arith, file_of-update op fid env fs {f = f})

abbrev pub any_state : ReservationState → Bool
any_state _ = true

module _ (request : Request) (op : Operation) where
  -- An update of the operation's own row that keeps what a replay compares.
  pub Held-update :
      {s s' : ReservationState → Bool} (f : Reservation → Reservation) (db db' : Db)
      → Held request op s db
      → db'.reservations ≡ update reservation_key op.id f db.reservations
      → ((r : Reservation) → (f r).owner_id ≡ r.owner_id)
      → ((r : Reservation) → (f r).idempotency_key ≡ r.idempotency_key)
      → ((r : Reservation) → (f r).id ≡ r.id)
      → ((r : Reservation)
          → same_request (f r) request.fingerprint request.purpose request.expected
            ≡ same_request r request.fingerprint request.purpose request.expected)
      → ((r : Reservation) → s' (f r).state ≡ true)
      → Held request op s' db'
  Held-update f db db' h e fo fk fi fs fst = record {
    row = f h.row;
    found = ground (
      arith,
      e,
      h.found,
      h.id,
      by_key-update request.owner request.key op.id f db.reservations {r = h.row} fo fk,
    );
    by_id = ground (
      arith,
      e,
      h.by_id,
      find-update reservation_key op.id op.id f db.reservations (λ r q. fi r ∙ q),
    );
    id = fi h.row ∙ h.id;
    owner = fo h.row ∙ h.owner;
    same = fs h.row ∙ h.same;
    state = fst h.row;
  }

-- The result row that a later request with the key is given.
pub record HasResult (op : Operation) (s : FileState) (size digest : ℕ) (db : Db) : Type 0 where
  pub file : StoredRow
  pub by_operation : file_of op.id db.files ≡ some file
  pub by_id : find file_key op.file_id db.files ≡ some file
  pub id : file.id ≡ op.file_id
  pub owner : file.owner_id ≡ op.owner_id
  pub reservation : file.reservation_id ≡ op.id
  pub size_is : file.size_bytes ≡ size
  pub digest_is : file.digest ≡ digest
  pub state_is : file.state ≡ s

module _ (policy : Policy) (env : Env) (request : Request) where
  pub advance-Held :
      (op : Operation) (size : ℕ) (written : Bool) (db db' : Db) (x : Unit)
      → Held request op any_state db
      → advance policy env op size written db ≡ ok (x, db')
      → Held request op any_state db'
  unfolding same_request
  advance-Held op size written db db' x h e =
      let (a, r, l, shape) = advance_lem policy env op size written db db' x e in
      Held-update request op (advanced policy env size written) db db' h (ground (arith, shape))
        (λ r. ground arith) (λ r. ground arith) (λ r. ground arith) (λ r. ground arith) (λ r. refl)

  pub finish_staged-Held :
      (op : Operation) (size digest : ℕ) (db db' : Db) (x : Unit)
      → Held request op any_state db
      → finish_staged env op size digest db ≡ ok (x, db')
      → Held request op any_state db' × HasResult op FileState.staged size digest db'
  unfolding same_request
  finish_staged-Held op size digest db db' x h e =
      let (a, r, l, _, free, _, shape) = finish_staged_lem env op size digest db db' x e in
      (
        Held-update request op (in_state env ReservationState.staged) db db' h
            (ground (arith, shape)) (λ r. refl) (λ r. refl) (λ r. refl) (λ r. refl) (λ r. refl),
        rw shape (record {
          file = staged_row op size digest;
          by_operation = ground arith;
          by_id = ground arith;
          id = refl;
          owner = refl;
          reservation = refl;
          size_is = refl;
          digest_is = refl;
          state_is = refl;
        }),
      )

  pub finish_commit-Held :
      (op : Operation) (size digest : ℕ) (a : Account) (r : Reservation) (db db' : Db) (x : Unit)
      → Held request op any_state db
      → HasResult op FileState.staged size digest db
      → finish_commit env op size a r db ≡ ok (x, db')
      → Held request op is_committed db' × HasResult op FileState.ready size digest db'
  unfolding same_request
  finish_commit-Held op size digest a r db db' x h f e =
      let (_, shape) = finish_commit_lem env op size a r db db' x e in
      (
        Held-update request op (in_state env ReservationState.committed) db db' h
            (ground (arith, shape)) (λ r. refl) (λ r. refl) (λ r. refl) (λ r. refl) (λ r. refl),
        rw shape (record {
          file = made_ready env f.file;
          by_operation = file_of-update op.id op.file_id env db.files f.by_operation f.id;
          by_id = ground (
            arith,
            f.by_id,
            find-update file_key op.file_id op.file_id (made_ready env) db.files (λ r e. e),
          );
          id = f.id;
          owner = f.owner;
          reservation = f.reservation;
          size_is = f.size_is;
          digest_is = f.digest_is;
          state_is = refl;
        }),
      )

  Held-new :
      (fresh : Fresh) (rs : List Reservation) (db : Db)
      → db.reservations ≡ new_reservation policy env fresh request ∷ rs
      → Held request (operation_of (new_reservation policy env fresh request)) any_state db
  unfolding same_request
  Held-new fresh rs db e = record {
    row = new_reservation policy env fresh request;
    found = ground (arith, eq_iff request.key request.key);
    by_id = ground arith;
    id = refl;
    owner = refl;
    same = ground (
      arith,
      eq_iff request.fingerprint request.fingerprint,
      eq_iff request.purpose request.purpose,
    );
    state = refl;
  }

  -- A new attempt: nothing stands under the key yet.
  pub begin-Held :
      (fresh : Fresh) (db db' : Db) (r : Reservation × Bool)
      → by_key request.owner request.key db.reservations ≡ none
      → begin policy env fresh request db ≡ ok (r, db')
      → (r.1 ≡ true)
        × (r.0 ≡ new_reservation policy env fresh request)
        × Held request (operation_of r.0) any_state db'
  unfolding begin lock_account
  begin-Held fresh db db' r new e =
      elim (Option-cases (find account_key request.owner db.accounts)) [
        | inl f ↦ absurd (ground arith)
        | inr (a, f) ↦
            let (_, is_new, shape) =
              reserve_lem policy env fresh request a (usage_of db a) db db' r (ground arith) in
            (
              ground arith,
              ground arith,
              rw is_new (Held-new fresh db.reservations db' (ground (arith, shape))),
            )
      ]
