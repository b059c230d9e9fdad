-- ===== src/Storage/Examples.antt =====
-- Runs of the storage at concrete inputs (backend/app/storage/).
use fillable.Common.{
  ℕ, ◌≡◌, refl, true, false, none, some, List, [], ◌∷◌, ok, length, flatten, arith, if◌then◌else◌,
  ◌&&◌, ◌==◌, ◌≢◌, ◌<◌, ◌⊎◌, ◌↔◌, max,
}
use fillable.Common.Table.{find, sum}
use fillable.Storage.Schema.{Db}
use fillable.Storage.Quota.{QuotaAmounts, calculate_usage}
use fillable.Storage.Limits.{WithinLimits, begin-WithinLimits}
use fillable.Storage.Accounting.{used_for, reserved_for}
use fillable.Storage.Maintenance.{
  Deletion, delete_file, checked, repair_required, reconcile_account, reconciled,
}
use fillable.Storage.Maintenance.Books.{delete_file-IsBooked}
use fillable.Storage.Maintenance.Reconciling.{reconcile_account_raises}
use fillable.Storage.FileSystem.Safety.{clean_unlinks_own}
use fillable.Storage.Validation.{invalid}
use fillable.Storage.Schema.{account_checks, reservation_checks}
use fillable.Storage.FileSystem.{stage, append, clean, publish}
use fillable.Storage.Finishing.{
  clean_mark, clean_release, finish_check, finish_commit, finish_staged, insert_file, result,
}
use fillable.Storage.Store.{
  create, fill, write_chunks, write_parts, parts_of, write_part, clean_up, finish, replayed,
  translate,
}
use fillable.Storage.Service.{
  Operation, account_key, lock_account, write_account, write_reservation, capacity, operation,
}
use fillable.Storage.Reserving.{
  new_reservation, advanced, Fresh, begin, advance, insert_reservation, same_request, replay,
  reserve,
}
use fillable.Storage.Store.{store, Surroundings}
use fillable.Storage.World.{World}
use fillable.Storage.FileSystem.{Files, set_staging, set_final}
use fillable.Storage.Reading.{read}
use fillable.Storage.Maintenance.Batches.{Visit, recovered, reconcile}
use fillable.Storage.Recovering.{recover}
use fillable.Storage.Recovering.Books.{recover-IsBooked}
use fillable.Storage.Recovering.Settled.{recover-settled, settled}
use fillable.Storage.Accounting.Steps.{begin-IsBooked}
use fillable.Storage.Service.{reservation_key}
use fillable.Storage.Schema.{ReservationState}
use fillable.Storage.Store.RoundTrip.{read-store, store-again}
use fillable.Storage.Store.Books.{store-IsBooked}
use fillable.Storage.Accounting.Links.{IsBooked}
use fillable.Storage.Sample.{
  policy, env, quiet, account, db, world, request, fresh, chunks, checksum, stored,
}

unfoldable after : World
unfolding store
after = (store policy checksum quiet fresh request chunks world).1

stored_lem : store policy checksum quiet fresh request chunks world ≡ (ok stored, after)
unfolding after store invalid begin lock_account reserve capacity calculate_usage insert_reservation
    reservation_checks write_account account_checks create fill stage write_chunks write_parts
    parts_of write_part append clean publish clean_mark clean_release finish_check finish_commit
    finish_staged insert_file result advance replay same_request operation write_reservation
    clean_up finish replayed translate
stored_lem = refl

db-IsBooked : IsBooked db
db-IsBooked = record {
  books = record {
    accounts_keyed = (refl, tt);
    reservations_keyed = tt;
    files_keyed = tt;
    reserved = λ owner a h. ground arith;
    used = λ owner a h. ground arith;
  };
  links = tt;
}

store-IsBooked_example : IsBooked (store policy checksum quiet fresh request chunks world).1.db
store-IsBooked_example = store-IsBooked policy checksum quiet fresh request chunks world db-IsBooked

read-store_example :
    (read checksum none stored.owner_id stored.id after ≡ (ok (flatten chunks), after))
    × (stored.size_bytes ≡ length (flatten chunks))
    × (stored.digest ≡ checksum (flatten chunks))
read-store_example =
    read-store policy checksum quiet request fresh chunks stored world after refl stored_lem

after_account : find account_key 7 after.db.accounts ≡ some (record account { used_bytes = 4 })
unfolding after store invalid begin lock_account reserve capacity calculate_usage insert_reservation
    reservation_checks write_account account_checks create fill stage write_chunks write_parts
    parts_of write_part append clean publish clean_mark clean_release finish_check finish_commit
    finish_staged insert_file result advance replay same_request operation write_reservation
    clean_up finish replayed translate
after_account = refl

abbrev fresh_again : Fresh
fresh_again = record { id = 21; file_id = 22; lease_token = 23 }

-- The second attempt sends other content under the same key.
abbrev other_chunks : List (List ℕ)
other_chunks = (9 ∷ []) ∷ []

store-again_example :
    store policy checksum quiet fresh_again request other_chunks after ≡ (ok stored, after)
store-again_example =
    store-again policy checksum quiet request fresh fresh_again chunks other_chunks quiet stored
      world after {a = record account { used_bytes = 4 }} refl stored_lem after_account refl

abbrev begun : Db
begun = record db {
  accounts = record account { reserved_bytes = 4 } ∷ [];
  reservations = new_reservation policy env fresh request ∷ [];
}

begun_lem :
    begin policy env fresh request db ≡ ok ((new_reservation policy env fresh request, true), begun)
unfolding begin lock_account reserve capacity calculate_usage insert_reservation reservation_checks
    write_account account_checks
begun_lem = refl

begin-WithinLimits_example : WithinLimits policy env 7 begun
begin-WithinLimits_example =
    begin-WithinLimits policy env fresh request db begun (new_reservation policy env fresh request)
      begun_lem

abbrev op : Operation
op = record { id = 11; owner_id = 7; file_id = 12; lease_token = 13 }

abbrev grown : Db
grown = record db {
  accounts = record account { reserved_bytes = 9 } ∷ [];
  reservations = advanced policy env 9 false (new_reservation policy env fresh request) ∷ [];
}

grown_lem : advance policy env op 9 false begun ≡ ok (tt, grown)
unfolding advance lock_account operation capacity calculate_usage write_reservation
    reservation_checks write_account account_checks
grown_lem = refl

abbrev removal : Deletion
removal = record { lock = none; authorize = none; remove = none; env = env }

after-IsBooked : IsBooked after.db
unfolding after
after-IsBooked = store-IsBooked policy checksum quiet fresh request chunks world db-IsBooked

delete_file-IsBooked_example : IsBooked (delete_file removal 7 12 after).1.db
delete_file-IsBooked_example = delete_file-IsBooked removal 7 12 after after-IsBooked

-- An account that was charged three bytes too many.
abbrev drifted : Db
drifted = record db { accounts = record account { used_bytes = 3 } ∷ [] }

reconcile_account_raises_example :
    (find account_key 7 drifted.accounts
      ≡ some (record account {
        used_bytes = max (sum (used_for 7) drifted.files) 3;
        reserved_bytes = max (sum (reserved_for 7) drifted.reservations) 0;
      }))
    × (drifted.files ≡ drifted.files)
    × (drifted.reservations ≡ drifted.reservations)
    × ((repair_required ≡ checked)
        ↔ ((sum (used_for 7) drifted.files ≡ 3) × (sum (reserved_for 7) drifted.reservations ≡ 0)))
    × ((repair_required ≡ repair_required)
        ↔ ((sum (used_for 7) drifted.files < 3) ⊎ (sum (reserved_for 7) drifted.reservations < 0)))
unfolding reconcile_account reconciled lock_account write_account account_checks
reconcile_account_raises_example =
    reconcile_account_raises 7 drifted drifted repair_required
      {a = record account { used_bytes = 3 }} refl refl

abbrev the_file : ℕ
the_file = 2

-- The files of an operation that was published and not committed.
abbrev half_published : Files
half_published = record {
  staging = λ op. if op == 1 then some 9 else none;
  final = λ owner file. if owner == 7 && file == the_file then some 9 else none;
  content = λ _. [];
  next_inode = 10;
}

abbrev swept_files : Files
swept_files = set_staging 1 none (set_final 7 the_file none half_published)

swept_lem : clean 1 7 the_file false half_published ≡ ok (tt, swept_files)
unfolding clean
swept_lem = refl

swept_changed : swept_files.final 7 the_file ≢ half_published.final 7 the_file
swept_changed = λ e. ground arith

clean_unlinks_own_example :
    (swept_files.staging 1 ≡ none)
    × (false ≡ false)
    × (account.user_id ≡ 7)
    × (the_file ≡ the_file)
    × (half_published.final 7 the_file ≡ half_published.staging 1)
    × (swept_files.final 7 the_file ≡ none)
clean_unlinks_own_example =
    clean_unlinks_own 1 7 the_file false half_published swept_files tt 7 the_file swept_lem
      swept_changed

abbrev amounts : QuotaAmounts
amounts = record {
  default_limit_bytes = 200;
  override_bytes = some 100;
  used_bytes = 60;
  reserved_bytes = 30;
}

begun-IsBooked : IsBooked begun
begun-IsBooked =
    begin-IsBooked policy env fresh request db begun
      (new_reservation policy env fresh request, true) db-IsBooked begun_lem

-- The writer is gone, and its lease ended at 65.
abbrev late : Surroundings
late = record quiet { start = record { now = 100; available = 1000 } }

abbrev begun_world : World
begun_world = record world { db = begun }

abbrev recovered_world : World
recovered_world = record {
  db = record db {
    reservations =
        record (new_reservation policy env fresh request) {
          state = ReservationState.aborted;
          updated_at = 5;
        }
        ∷ [];
  };
  files = set_staging 11 none world.files;
}

recovered_lem : recover policy late 7 11 begun_world ≡ (ok true, recovered_world)
unfolding recover clean_up clean_mark clean_release clean lock_account operation write_account
    account_checks write_reservation
recovered_lem = refl

recover-settled_example : settled (find reservation_key 11 recovered_world.db.reservations) ≡ true
recover-settled_example = recover-settled policy late 7 11 begun_world recovered_world recovered_lem

-- Nothing fails, and the lease of every operation is over.
abbrev calm : ℕ → Visit
calm _ = record { deletion = removal; read_lock = none; recovery = late }

abandoned_recovered :
    (reconcile policy checksum calm none 100 begun_world).0
    ≡ ok (record {
      operations = (11, recovered) ∷ [];
      accounts = (7, some checked) ∷ [];
      next = none;
    })
unfolding reconcile fillable.Storage.Maintenance.Batches.visit_all
    fillable.Storage.Maintenance.Batches.account_results recover reconcile_account clean_up
    lock_account clean_mark write_reservation clean clean_release operation write_account
    account_checks reconciled
abandoned_recovered = refl

recover-IsBooked_example : IsBooked (recover policy late 7 11 begun_world).1.db
recover-IsBooked_example = recover-IsBooked policy late 7 11 begun_world begun-IsBooked
