-- ===== src/Storage/Reserving.antt =====
-- `_begin` and `_advance` of `class Storage` in backend/app/storage/service.py.
use fillable.Common.{
  ℕ, ◌+◌, ◌-◌, String, Bool, true, false, not, ◌&&◌, ◌||◌, Option, none, some, List, [], ◌∷◌, ◌==◌,
  str_eq, eq_option, is_some, if◌then◌else◌, ◌>>=◌, ◌>>◌, pure, gets, raise_if, modify,
}
use fillable.Common.Table.{find}
use fillable.Storage.Schema.{
  Account, Reservation, ReservationState, reservation_checks, idempotency_conflict, integrity,
}
use fillable.Storage.Quota.{QuotaUsage}
use fillable.Storage.Service.{
  Policy, Env, Operation, Action, reservation_key, lock_account, write_account, write_reservation,
  capacity, deadline, operation,
}

abbrev pub by_key : ℕ → String → List Reservation → Option Reservation
by_key owner key [] = none
by_key owner key (r ∷ rs) =
    if r.owner_id == owner && str_eq r.idempotency_key key then some r else by_key owner key rs

abbrev pub has_file : ℕ → List Reservation → Bool
has_file file [] = false
has_file file (r ∷ rs) = r.file_id == file || has_file file rs

-- INSERT under the primary key and the two UNIQUE constraints of the table.
unfoldable pub insert_reservation : Reservation → Action Unit
insert_reservation r = do
  taken ← gets (λ db.
      is_some (find reservation_key r.id db.reservations)
      || has_file r.file_id db.reservations
      || is_some (by_key r.owner_id r.idempotency_key db.reservations))
  raise_if (taken || not (reservation_checks r)) integrity
  modify (λ db. record db { reservations = r ∷ db.reservations })

-- The three columns that a replay of the key must repeat.
unfoldable pub same_request : Reservation → String → String → Option ℕ → Bool
same_request r fingerprint purpose expected =
    str_eq r.request_fingerprint fingerprint
    && str_eq r.purpose purpose
    && eq_option r.expected_bytes expected

abbrev pub or_zero : Option ℕ → ℕ
or_zero none = 0
or_zero (some n) = n

-- The identities that `_begin` draws by `uuid4`.
pub record Fresh : Type 0 where
  pub id : ℕ
  pub file_id : ℕ
  pub lease_token : ℕ

pub record Request : Type 0 where
  pub owner : ℕ
  pub key : String
  pub fingerprint : String
  pub purpose : String
  pub expected : Option ℕ

abbrev pub new_reservation : Policy → Env → Fresh → Request → Reservation
new_reservation policy env fresh request = record {
  id = fresh.id;
  owner_id = request.owner;
  file_id = fresh.file_id;
  idempotency_key = request.key;
  request_fingerprint = request.fingerprint;
  purpose = request.purpose;
  state = ReservationState.reserved;
  allocated_bytes = or_zero request.expected;
  written_bytes = 0;
  expected_bytes = request.expected;
  lease_token = fresh.lease_token;
  lease_expires_at = deadline policy env;
  updated_at = env.now;
}

-- The two ways out of `_begin`: an existing row is compared, or a new one is charged.
unfoldable pub replay : Request → Reservation → Action (Reservation × Bool)
replay request existing = do
  raise_if (not (same_request existing request.fingerprint request.purpose request.expected))
      idempotency_conflict
  pure (existing, false)

unfoldable pub reserve :
    Policy → Env → Fresh → Request → Account → QuotaUsage → Action (Reservation × Bool)
reserve policy env fresh request account usage = do
  let amount = or_zero request.expected
  capacity policy env usage amount
  insert_reservation (new_reservation policy env fresh request)
  write_account (record account { reserved_bytes = account.reserved_bytes + amount })
  pure (new_reservation policy env fresh request, true)

unfoldable pub begin : Policy → Env → Fresh → Request → Action (Reservation × Bool)
begin policy env fresh request = do
  (account, usage) ← lock_account request.owner
  existing ← gets (λ db. by_key request.owner request.key db.reservations)
  elim existing [
    | none ↦ reserve policy env fresh request account usage
    | some row ↦ replay request row
  ]

-- `max(0, size - allocated)` is the subtraction that stops at 0.
abbrev pub growth_to : ℕ → Reservation → ℕ
growth_to size row = size - row.allocated_bytes

abbrev pub advanced : Policy → Env → ℕ → Bool → Reservation → Reservation
advanced policy env size written row =
    let row' : Reservation = record row {
      allocated_bytes = row.allocated_bytes + growth_to size row;
      state = ReservationState.writing;
      lease_expires_at = deadline policy env;
      updated_at = env.now;
    } in
    if written then record row' { written_bytes = size } else row'

unfoldable pub advance : Policy → Env → Operation → ℕ → Bool → Action Unit
advance policy env op size written = do
  (account, usage) ← lock_account op.owner_id
  row ← operation op
  let growth = growth_to size row
  elim written [ true ↦ pure tt | false ↦ capacity policy env usage growth ]
  write_account (record account { reserved_bytes = account.reserved_bytes + growth })
  raise_if (not (reservation_checks (advanced policy env size written row))) integrity
  write_reservation op.id (advanced policy env size written)
