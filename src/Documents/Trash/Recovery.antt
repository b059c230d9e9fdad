-- ===== src/Documents/Trash/Recovery.antt =====
-- Trash and restoration of backend/app/documents/trash.py.
use fillable.Common.{ℕ, ◌+◌, ◌≡◌, ◌≤◌, ◌<◌, refl, true, none, some, arith, ok}
use fillable.Common.Table.{find, update, find-update}
use fillable.Documents.Schema.{Db, Resource, ResourceState, resource_key}
use fillable.Documents.Session.{SessionState, active_user}
use fillable.Documents.Rows.{find-update_where}
use fillable.Documents.Trash.{
  owned, move, restore, empty, trash_seconds, is_trashed, to_trash, out_of_trash, due_at,
  is_trash_of,
}

-- An active document without trash dates that was moved to the trash can be restored less than
-- thirty days later, while the session authenticates, and its row is then what it was.
pub move-restore :
    (now later owner identity : ℕ) (state : SessionState) (db db' : Db) (row : Resource)
    → find resource_key identity db.resources ≡ some row
    → row.state ≡ ResourceState.active
    → row.trashed_at ≡ none
    → row.purge_after ≡ none
    → move now state identity db ≡ ok (tt, db')
    → active_user later state db' ≡ ok (owner, db')
    → later < now + trash_seconds
    → (db'' : Db) × (restore later state identity db' ≡ ok (tt, db''))
      × (find resource_key identity db''.resources ≡ some row)
unfolding move restore owned active_user
move-restore now later owner identity state db db' row found live fresh idle h a soon =
    let first = find-update resource_key identity identity (to_trash now) db.resources (λ _ e. e) in
    let second = find-update resource_key identity identity out_of_trash db'.resources (λ _ e. e) in
    (
      record db' { resources = update resource_key identity out_of_trash db'.resources },
      ground (arith, first),
      ground (arith, first, second),
    )

-- After its owner has emptied the trash, no document that was in it can be restored at that time
-- or later.
pub empty-final :
    (now later identity : ℕ) (state state' : SessionState) (db db' db'' : Db) (row : Resource)
    → find resource_key identity db.resources ≡ some row
    → is_trashed row.state ≡ true
    → state.user ≡ some row.owner_id
    → empty now state db ≡ ok (tt, db')
    → now ≤ later
    → ¬ (restore later state' identity db' ≡ ok (tt, db''))
unfolding empty restore owned active_user
empty-final now later identity state state' db db' db'' row found inside own h past again = ground (
  arith,
  find-update_where resource_key (is_trash_of row.owner_id) (due_at now) identity db.resources
      (λ _. refl),
)
