-- ===== src/Storage/Maintenance/Batches/Books.antt =====
-- The books under a batch of `reconcile` (backend/app/storage/maintenance.py).
use fillable.Common.{ℕ, ◌≡◌, ◌⊎◌, Option, none, some, List, [], Outcome, ok, err}
use fillable.Common.Table.{find}
use fillable.Storage.Schema.{Error, Db}
use fillable.Storage.Service.{account_key}
use fillable.Storage.World.{World}
use fillable.Storage.Reading.{read}
use fillable.Storage.FileSystem.{read as read_file}
use fillable.Storage.Maintenance.{Status, checked}
use fillable.Storage.Maintenance.Batches.{Reconciled}

-- The report on an account: it is checked, or it failed and the account is not there.
abbrev pub IsFine : Db → ℕ × Option Status → Type 0
IsFine db (owner, status) =
    (status ≡ some checked) ⊎ ((status ≡ none) × (find account_key owner db.accounts ≡ none))

-- The accounts of a report; a refused batch reports none.
abbrev pub accounts_of : Outcome Error Reconciled → List (ℕ × Option Status)
accounts_of (err e) = []
accounts_of (ok report) = report.accounts
