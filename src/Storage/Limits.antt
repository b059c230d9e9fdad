-- ===== src/Storage/Limits.antt =====
-- The limits of `_capacity` in backend/app/storage/service.py, around `_begin` and `_advance`.
use fillable.Common.{
  ℕ, ◌+◌, ◌≡◌, ◌≤◌, some, ok, arith, Option-cases, Bool, true, false, inl, inr, refl,
}
use fillable.Common.Table.{find, sum, sum-update, find-update, key-find, IsKeyed}
use fillable.Storage.Schema.{Account, Reservation, Db}
use fillable.Storage.Quota.{QuotaUsage, limit_of, calculate_usage}
use fillable.Storage.Service.{
  Policy, Env, Operation, account_key, reservation_key, lock_account, usage_of, capacity, operation,
  allocated_active, promised_active,
}
use fillable.Storage.Reserving.{
  Fresh, Request, or_zero, by_key, reserve, replay, begin, growth_to, advanced, advance,
}
use fillable.Storage.Accounting.Shapes.{charge, Locked, reserve_lem, advance_lem}

-- The account is within its limit, the staging area within the policy, and the disk holds what is
-- promised and the headroom.
pub record WithinLimits (policy : Policy) (env : Env) (owner : ℕ) (db : Db) : Type 0 where
  pub account : Account
  pub found : find account_key owner db.accounts ≡ some account
  pub quota :
      account.used_bytes + account.reserved_bytes ≤ limit_of db.default_limit account.override_bytes
  pub staging : sum allocated_active db.reservations ≤ policy.staging_bytes
  pub disk : sum promised_active db.reservations + policy.disk_headroom_bytes ≤ env.available

module _ (policy : Policy) (env : Env) where
  -- What the three tests let through.
  capacity_lem :
      (db db' : Db) (a : Account) (growth : ℕ) (x : Unit)
      → capacity policy env (usage_of db a) growth db ≡ ok (x, db')
      → (a.used_bytes + a.reserved_bytes + growth ≤ limit_of db.default_limit a.override_bytes)
        × (sum allocated_active db.reservations + growth ≤ policy.staging_bytes)
        × (sum promised_active db.reservations + growth + policy.disk_headroom_bytes
            ≤ env.available)
  unfolding capacity calculate_usage
  capacity_lem db db' a growth x h = (ground arith, ground arith, ground arith)

  reserve-capacity :
      (fresh : Fresh) (request : Request) (a : Account) (u : QuotaUsage) (db db' : Db)
      (r : Reservation × Bool)
      → reserve policy env fresh request a u db ≡ ok (r, db')
      → capacity policy env u (or_zero request.expected) db ≡ ok (tt, db)
  unfolding reserve capacity
  reserve-capacity fresh request a u db db' r h = ground arith

  -- When `_begin` has made a new reservation, its owner is within the quota, the staged bytes of
  -- all owners are within the policy, and the disk has room for every promise and the headroom.
  pub begin-WithinLimits :
      (fresh : Fresh) (request : Request) (db db' : Db) (row : Reservation)
      → begin policy env fresh request db ≡ ok ((row, true), db')
      → WithinLimits policy env request.owner db'
  unfolding begin lock_account replay
  begin-WithinLimits fresh request db db' row h =
      elim (Option-cases (find account_key request.owner db.accounts)) [
        | inl e ↦ absurd (ground arith)
        | inr (a, e) ↦ elim (Option-cases (by_key request.owner request.key db.reservations)) [
          | inr (old, f) ↦ absurd (ground arith)
          | inl new ↦
              let own : a.user_id ≡ request.owner =
                key-find account_key request.owner db.accounts e in
              let done : reserve policy env fresh request a (usage_of db a) db
                  ≡ ok ((row, true), db') =
                ground arith in
              let (_, _, shape) =
                reserve_lem policy env fresh request a (usage_of db a) db db' (row, true) done in
              let (q, s, d) =
                capacity_lem db db a (or_zero request.expected) tt
                  (reserve-capacity fresh request a (usage_of db a) db db' (row, true) done) in
              record {
                account = charge a (or_zero request.expected);
                found = ground (
                  arith,
                  shape,
                  e,
                  find-update account_key a.user_id request.owner
                      (λ _. charge a (or_zero request.expected)) db.accounts (λ r e. refl),
                );
                quota = ground (arith, shape, q);
                staging = ground (arith, shape, s);
                disk = ground (arith, shape, d);
              }
        ]
      ]

  advance-capacity :
      (op : Operation) (size : ℕ) (db db' : Db) (a : Account) (r : Reservation) (x : Unit)
      → Locked db op a r
      → advance policy env op size false db ≡ ok (x, db')
      → capacity policy env (usage_of db a) (growth_to size r) db ≡ ok (tt, db)
  unfolding advance lock_account operation capacity
  advance-capacity op size db db' a r x l h = ground (arith, l.account, l.row)

  -- When the keys of the reservations are unique and `_advance` has admitted a size before it is
  -- written, its owner is within the quota, the staged bytes of all owners are within the policy,
  -- and the disk has room for every promise and the headroom.
  pub advance-WithinLimits :
      (op : Operation) (size : ℕ) (db db' : Db) (x : Unit)
      → IsKeyed reservation_key db.reservations
      → advance policy env op size false db ≡ ok (x, db')
      → WithinLimits policy env op.owner_id db'
  advance-WithinLimits op size db db' x keyed h =
      let (a, r, l, shape) = advance_lem policy env op size false db db' x h in
      let own : a.user_id ≡ op.owner_id = key-find account_key op.owner_id db.accounts l.account in
      let (q, s, d) =
        capacity_lem db db a (growth_to size r) tt (advance-capacity op size db db' a r x l h) in
      let f = advanced policy env size false in
      record {
        account = charge a (growth_to size r);
        found = ground (
          arith,
          shape,
          l.account,
          find-update account_key a.user_id op.owner_id (λ _. charge a (growth_to size r))
              db.accounts (λ r e. refl),
        );
        quota = ground (arith, shape, q);
        staging = ground (
          arith,
          shape,
          s,
          l.is_active,
          sum-update reservation_key allocated_active op.id f db.reservations {r = r} keyed l.row,
        );
        disk = ground (
          arith,
          shape,
          d,
          l.is_active,
          sum-update reservation_key promised_active op.id f db.reservations {r = r} keyed l.row,
        );
      }
