-- ===== src/Storage/Quota.antt =====
-- `QuotaAmounts`, `QuotaUsage` and `calculate_usage` of backend/app/storage/schema.py.
use fillable.Common.{ℕ, ◌+◌, ◌-◌, ◌≤◌, ◌≡◌, ◌↔◌, Bool, false, Option, none, some, arith, ltb}
use fillable.Storage.Schema.{max_bytes}

pub record QuotaAmounts : Type 0 where
  pub default_limit_bytes : ℕ
  pub override_bytes : Option ℕ
  pub used_bytes : ℕ
  pub reserved_bytes : ℕ

pub record QuotaUsage : Type 0 where
  pub limit_bytes : ℕ
  pub used_bytes : ℕ
  pub reserved_bytes : ℕ
  pub available_bytes : ℕ
  pub over_limit : Bool

abbrev pub limit_of : ℕ → Option ℕ → ℕ
limit_of default none = default
limit_of default (some override) = override

-- `max(0, limit - total)` is the subtraction that stops at 0.
unfoldable pub calculate_usage : QuotaAmounts → QuotaUsage
calculate_usage amounts =
    let limit = limit_of amounts.default_limit_bytes amounts.override_bytes in
    let total = amounts.used_bytes + amounts.reserved_bytes in
    record {
      limit_bytes = limit;
      used_bytes = amounts.used_bytes;
      reserved_bytes = amounts.reserved_bytes;
      available_bytes = limit - total;
      over_limit = ltb limit total;
    }

-- The fields that Pydantic checks as a `ByteCount`.
pub record InRange (u : QuotaUsage) : Type 0 where
  pub limit : u.limit_bytes ≤ max_bytes
  pub used : u.used_bytes ≤ max_bytes
  pub reserved : u.reserved_bytes ≤ max_bytes
  pub available : u.available_bytes ≤ max_bytes

-- For amounts within the range of a byte count, the usage is within that range, and a growth
-- passes the two quota tests exactly when the whole charge after it is within the limit in force.
pub calculate_usage_admits :
    (a : QuotaAmounts) (growth : ℕ)
    → a.default_limit_bytes ≤ max_bytes
    → limit_of 0 a.override_bytes ≤ max_bytes
    → a.used_bytes ≤ max_bytes
    → a.reserved_bytes ≤ max_bytes
    → let u = calculate_usage a in
      InRange u
      × (((u.over_limit ≡ false) × (growth ≤ u.available_bytes)) ↔ (
          a.used_bytes + a.reserved_bytes + growth
          ≤ limit_of a.default_limit_bytes a.override_bytes))
unfolding calculate_usage
calculate_usage_admits a growth hd ho hu hr = ground arith
