-- ===== src/Documents/Titles/Replay.antt =====
-- Repeating a `rename` of backend/app/documents/titles.py.
use fillable.Common.{ℕ, ◌≡◌, arith, str_eq, eq_iff, ok, Option-cases, Bool-cases, inl, inr}
use fillable.Common.Table.{find, find-update}
use fillable.Documents.Schema.{Db, Resource, resource_key}
use fillable.Documents.Session.{SessionState, active_user, resource}
use fillable.Documents.Rows.{is_visible}
use fillable.Documents.Titles.{RenameRequest, rename, titled}

-- A rename that succeeded answers with the requested title, and the same request sent again, while
-- the session authenticates, succeeds with the same answer and changes nothing.
pub rename-again :
    (now later owner identity : ℕ) (state : SessionState) (request : RenameRequest) (db db' : Db)
    (d : Resource)
    → rename now state identity request db ≡ ok (d, db')
    → active_user later state db' ≡ ok (owner, db')
    → (d.title ≡ request.title) × (rename later state identity request db' ≡ ok (d, db'))
unfolding rename active_user resource is_visible
rename-again now later owner identity state request db db' d h a =
    let same = eq_iff request.title request.title in
    elim (Option-cases (find resource_key identity db.resources)) [
      | inl missing ↦ absurd (ground arith)
      | inr (r, found) ↦
          let moved =
            find-update resource_key identity identity (titled now request.title) db.resources
              (λ _ e. e) in
          elim (Bool-cases (str_eq r.title request.title)) [
            | inl e ↦ (ground (arith, eq_iff r.title request.title), ground arith)
            | inr e ↦ (ground (arith, moved), ground (arith, moved, same))
          ]
    ]
