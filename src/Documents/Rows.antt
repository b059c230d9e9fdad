-- ===== src/Documents/Rows.antt =====
-- Statements on whole tables that the document transactions use: DELETE by key, UPDATE by a
-- condition, and the query of the visible documents (`query` of backend/app/documents/service.py).
use fillable.Common.{
  ℕ, ◌≡◌, refl, Bool, true, false, ◌&&◌, ◌||◌, Option, none, some, List, [], ◌∷◌, ◌==◌,
  if◌then◌else◌, arith,
}
use mathlib.Core.Option
use fillable.Common.Table.{find}
use fillable.Documents.Schema.{Db, Resource, Version, resource_key, version_key}
use fillable.Documents.Session.{is_active_state}
use fillable.Storage.Schema.{StoredRow, FileState}

module _ {A : Type 0} (key : A → ℕ) where
  -- DELETE … WHERE id = k
  abbrev pub delete : ℕ → List A → List A
  delete k [] = []
  delete k (r ∷ rs) = if key r == k then delete k rs else r ∷ delete k rs

  pub find-delete : (k : ℕ) (rs : List A) → find key k (delete k rs) ≡ none
  find-delete k [] = refl
  find-delete k (r ∷ rs) = ground (arith, find-delete k rs)

  pub find-delete_other :
      (k j : ℕ) (rs : List A) → (k == j) ≡ false → find key j (delete k rs) ≡ find key j rs
  find-delete_other k j [] h = refl
  find-delete_other k j (r ∷ rs) h = ground (arith, find-delete_other k j rs)

-- UPDATE … WHERE p
abbrev pub update_where : {A : Type 0} → (A → Bool) → (A → A) → List A → List A
update_where p f [] = []
update_where p f (r ∷ rs) = (if p r then f r else r) ∷ update_where p f rs

pub find-update_where :
    {A : Type 0} (key : A → ℕ) (p : A → Bool) (f : A → A) (k : ℕ) (rs : List A)
    → ((r : A) → key (f r) ≡ key r)
    → find key k (update_where p f rs) ≡ Option.map (λ r. if p r then f r else r) (find key k rs)
find-update_where key p f k [] h = refl
find-update_where key p f k (r ∷ rs) h = ground (arith, h r, find-update_where key p f k rs h)

-- SELECT 1 … WHERE p LIMIT 1
abbrev pub exists : {A : Type 0} → (A → Bool) → List A → Bool
exists p [] = false
exists p (r ∷ rs) = p r || exists p rs

pub exists-find :
    {A : Type 0} (key : A → ℕ) (p : A → Bool) (k : ℕ) (rs : List A) {r : A}
    → find key k rs ≡ some r
    → exists p rs ≡ false
    → p r ≡ false
exists-find key p k [] h e = cc
exists-find key p k (x ∷ rs) {r} h e = ground (arith, exists-find key p k rs {r = r})

abbrev pub is_ready : FileState → Bool
is_ready FileState.ready = true
is_ready _ = false

abbrev pub file_key : StoredRow → ℕ
file_key f = f.id

abbrev has_ready_file : Db → Option Version → Bool
has_ready_file db none = false
has_ready_file db (some v) = elim (find file_key v.file_id db.storage.files) [
  | none ↦ false
  | some f ↦ is_ready f.state
]

abbrev visible_row : Db → ℕ → Option Resource → Bool
visible_row db owner none = false
visible_row db owner (some r) =
    r.owner_id == owner
    && is_active_state r.state
    && has_ready_file db (find version_key r.current_version_id db.versions)

-- Whether `query(owner)` yields the document.
unfoldable pub is_visible : Db → ℕ → ℕ → Bool
is_visible db owner identity = visible_row db owner (find resource_key identity db.resources)
