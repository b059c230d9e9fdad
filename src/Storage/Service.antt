-- ===== src/Storage/Service.antt =====
-- The transactions of `class Storage` in backend/app/storage/service.py. A transaction that raises
-- is rolled back, and row locks make transactions follow one another. What the service takes from
-- its surroundings is an argument: fresh UUIDs, the clock and the free disk space.
use fillable.Common.{
  ℕ, ◌+◌, ◌-◌, not, ◌||◌, ltb, ◌==◌, if◌then◌else◌, Tx, ◌>>=◌, ◌>>◌, pure, gets, or_raise, raise_if,
  modify,
}
use fillable.Common.Table.{find, update, sum}
use fillable.Storage.Schema.{
  Account, Reservation, StoredRow, Db, Error, active, account_checks, not_found, quota_exceeded,
  temporary_capacity, disk_capacity, operation_expired, integrity, no_result,
}
use fillable.Storage.Quota.{QuotaUsage, calculate_usage}

pub record Policy : Type 0 where
  pub file_bytes : ℕ
  pub staging_bytes : ℕ
  pub disk_headroom_bytes : ℕ
  pub lease_seconds : ℕ

-- The clock and `FileSystem.available` at one moment.
pub record Env : Type 0 where
  pub now : ℕ
  pub available : ℕ

-- What identifies an operation to its later transactions.
pub record Operation : Type 0 where
  pub id : ℕ
  pub owner_id : ℕ
  pub file_id : ℕ
  pub lease_token : ℕ

pub record StoredFile : Type 0 where
  pub id : ℕ
  pub owner_id : ℕ
  pub size_bytes : ℕ
  pub digest : ℕ

abbrev pub Action : Type 0 → Type 0
Action A = Tx Db Error A

abbrev pub account_key : Account → ℕ
account_key a = a.user_id

abbrev pub reservation_key : Reservation → ℕ
reservation_key r = r.id

abbrev pub file_key : StoredRow → ℕ
file_key f = f.id

abbrev pub usage_of : Db → Account → QuotaUsage
usage_of db a = calculate_usage (record {
  default_limit_bytes = db.default_limit;
  override_bytes = a.override_bytes;
  used_bytes = a.used_bytes;
  reserved_bytes = a.reserved_bytes;
})

unfoldable pub lock_account : ℕ → Action (Account × QuotaUsage)
lock_account owner = do
  account ← or_raise (← gets (λ db. find account_key owner db.accounts)) not_found
  usage ← gets (λ db. usage_of db account)
  pure (account, usage)

-- UPDATE storage_accounts … WHERE user_id, under the CHECK constraints. A charge below 0 is refused
-- by the database too.
abbrev pub minus : ℕ → ℕ → Action ℕ
minus a b = do raise_if (ltb a b) integrity; pure (a - b)

unfoldable pub write_account : Account → Action Unit
write_account a = do
  raise_if (not (account_checks a)) integrity
  modify (λ db. record db { accounts = update account_key a.user_id (λ _. a) db.accounts })

unfoldable pub write_reservation : ℕ → (Reservation → Reservation) → Action Unit
write_reservation op f =
    modify (λ db. record db { reservations = update reservation_key op f db.reservations })

abbrev pub allocated_active : Reservation → ℕ
allocated_active r = if active r.state then r.allocated_bytes else 0

abbrev pub promised_active : Reservation → ℕ
promised_active r = if active r.state then r.allocated_bytes - r.written_bytes else 0

module _ (policy : Policy) where
  unfoldable pub capacity : Env → QuotaUsage → ℕ → Action Unit
  capacity env usage growth = do
    raise_if (usage.over_limit || ltb usage.available_bytes growth) quota_exceeded
    allocated ← gets (λ db. sum allocated_active db.reservations)
    promised ← gets (λ db. sum promised_active db.reservations)
    raise_if (ltb policy.staging_bytes (allocated + growth)) temporary_capacity
    raise_if (ltb env.available (promised + growth + policy.disk_headroom_bytes)) disk_capacity

  abbrev pub deadline : Env → ℕ
  deadline env = env.now + policy.lease_seconds

-- `.one()` of the operation's row, which must still be this lease's and active.
unfoldable pub operation : Operation → Action Reservation
operation op = do
  row ← or_raise (← gets (λ db. find reservation_key op.id db.reservations)) no_result
  raise_if (not (row.owner_id == op.owner_id)) no_result
  raise_if (not (row.lease_token == op.lease_token) || not (active row.state)) operation_expired
  pure row
