-- ===== src/Documents/Titles.antt =====
-- `rename` of backend/app/documents/titles.py.
pub mod Replay
use fillable.Common.{
  ℕ, String, ◌≡◌, refl, Bool, true, false, not, ◌&&◌, Option, none, some, List, [], ◌∷◌, arith,
  ◌==◌, str_eq, eq_iff, ok, if◌then◌else◌, ◌>>=◌, ◌>>◌, pure, gets, raise_if, or_raise, modify,
  Option-cases, Bool-cases, inl, inr,
}
use fillable.Common.Table.{find, update, find-update}
use fillable.Documents.Schema.{
  Db, Resource, resource_key, revision_conflict, title_conflict, not_found,
}
use fillable.Documents.Session.{Action, SessionState, active_user, resource}
use fillable.Documents.Rows.{is_visible}

pub record RenameRequest : Type 0 where
  pub source_version_id : ℕ
  pub title : String
  pub previous_title : String

abbrev pub titled : ℕ → String → Resource → Resource
titled now title r = record r { title = title; updated_at = now }

unfoldable pub rename : ℕ → SessionState → ℕ → RenameRequest → Action Resource
rename now state identity request = do
  owner ← active_user now state
  document ← resource owner identity
  raise_if (not (document.current_version_id == request.source_version_id)) revision_conflict
  raise_if
      (not (str_eq document.title request.title)
        && not (str_eq document.title request.previous_title))
      title_conflict
  modify (λ db. if str_eq document.title request.title then db else record db {
    resources = update resource_key identity (titled now request.title) db.resources;
  })
  visible ← gets (λ db. is_visible db owner identity)
  raise_if (not visible) not_found
  or_raise (← gets (λ db. find resource_key identity db.resources)) not_found
