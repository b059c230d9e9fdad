-- ===== src/Documents/Retention/Sparing.antt =====
-- What the pruning of backend/app/documents/retention.py leaves alone.
use mathlib.Core.Path.{subst}
use fillable.Common.{
  ℕ, ◌+◌, ◌≡◌, ◌≤◌, ◌<◌, ◌⊎◌, true, false, some, arith, ok, Option-cases, inl, inr,
}
use fillable.Common.Table.{find, key-find}
use fillable.Documents.Schema.{Db, Resource, Version, resource_key, version_key}
use fillable.Documents.Rows.{exists, exists-find}
use fillable.Documents.Retention.Policy.{
  is_candidate, is_old, is_shared, is_referenced, pruned_in, authorize,
}

-- A version that no policy lets go: the first, the current one, or one of the latest that are kept.
pub record IsKept (db : Db) (file : ℕ) : Type 0 where
  pub version : Version
  pub resource : Resource
  pub current : Version
  pub keep : ℕ
  pub policy : db.keep_latest ≡ some keep
  pub at : find version_key version.id db.versions ≡ some version
  pub of : find resource_key version.document_id db.resources ≡ some resource
  pub newest : find version_key resource.current_version_id db.versions ≡ some current
  pub has : version.file_id ≡ file
  pub why :
      (version.number ≤ 1)
      ⊎ ((version.id ≡ resource.current_version_id) ⊎ (current.number < version.number + keep))

-- Or the file that some document was made from.
abbrev pub IsOriginal : Db → ℕ → Type 0
IsOriginal db file =
    (k : ℕ) × (r : Resource) × (find resource_key k db.resources ≡ some r)
    × (r.original_file_id ≡ file)

abbrev pub IsProtected : Db → ℕ → Type 0
IsProtected db file = IsOriginal db file ⊎ IsKept db file

-- What an authorization has found.
pub record IsAuthorized (c : Version) (db : Db) : Type 0 where
  keep : ℕ
  version : Version
  resource : Resource
  current : Version
  policy : db.keep_latest ≡ some keep
  at : find version_key c.id db.versions ≡ some version
  file : version.file_id ≡ c.file_id
  of : find resource_key version.document_id db.resources ≡ some resource
  newest : find version_key resource.current_version_id db.versions ≡ some current
  old : is_old keep version resource current ≡ true
  alone : exists (is_shared c) db.resources ≡ false
  unshared : exists (is_referenced c) db.versions ≡ false

is_candidate_lem :
    (db : Db) (keep : ℕ) (v : Version)
    → is_candidate db keep v ≡ true
    → (r : Resource) × (current : Version) × (find resource_key v.document_id db.resources ≡ some r)
      × (find version_key r.current_version_id db.versions ≡ some current)
      × (is_old keep v r current ≡ true)
unfolding is_candidate
is_candidate_lem db keep v h = elim (Option-cases (find resource_key v.document_id db.resources)) [
  | inl missing ↦ absurd (ground (arith, missing))
  | inr (r, found) ↦ elim (Option-cases (find version_key r.current_version_id db.versions)) [
    | inl missing ↦ absurd (ground (arith, found, missing))
    | inr (current, newest) ↦ (r, current, found, newest, ground (arith, found, newest))
  ]
]

pub authorize-IsAuthorized :
    (now : ℕ) (c : Version) (db db' : Db)
    → authorize now c db ≡ ok (tt, db')
    → IsAuthorized c db × (pruned_in now c db ≡ db')
unfolding authorize
authorize-IsAuthorized now c db db' h = elim (Option-cases db.keep_latest) [
  | inl unset ↦ absurd (ground (arith, unset))
  | inr (keep, policy) ↦ elim (Option-cases (find version_key c.id db.versions)) [
    | inl missing ↦ absurd (ground (arith, policy, missing))
    | inr (v, at) ↦
        let alone : exists (is_shared c) db.resources ≡ false = ground (arith, policy, at) in
        let unshared : exists (is_referenced c) db.versions ≡ false = ground (arith, policy, at) in
        let file : v.file_id ≡ c.file_id = ground (arith, policy, at) in
        let (r, current, of, newest, old) =
          is_candidate_lem db keep v (ground (arith, policy, at)) in
        (
          record {
            keep = keep;
            version = v;
            resource = r;
            current = current;
            policy = policy;
            at = at;
            file = file;
            of = of;
            newest = newest;
            old = old;
            alone = alone;
            unshared = unshared;
          },
          ground (arith, policy, at),
        )
  ]
]

unshared-same :
    (c : Version) (db : Db) (k : ℕ) (v : Version)
    → exists (is_referenced c) db.versions ≡ false
    → find version_key k db.versions ≡ some v
    → v.file_id ≡ c.file_id
    → (v.document_id ≡ c.document_id) × (v.id ≡ c.id)
unshared-same c db k v none_else at file =
    let alone = exists-find version_key (is_referenced c) k db.versions {r = v} at none_else in
    ground (arith, alone)

IsOriginal-authorize : (c : Version) (db : Db) → IsOriginal db c.file_id → IsAuthorized c db → ⊥
IsOriginal-authorize c db (k, r, at, file) a =
    let alone = exists-find resource_key (is_shared c) k db.resources {r = r} at a.alone in
    let (document, _) = unshared-same c db c.id a.version a.unshared a.at a.file in
    let own = key-find resource_key k db.resources at in
    let here : k ≡ a.version.document_id = ground (arith, alone, own, document) in
    let same = subst (λ i. find resource_key i db.resources ≡ some r) here at in
    ground (arith, a.of, same, a.old, a.file)

IsKept-authorize : (c : Version) (db : Db) → IsKept db c.file_id → IsAuthorized c db → ⊥
IsKept-authorize c db v a =
    let (_, same) = unshared-same c db v.version.id v.version a.unshared v.at v.has in
    let one : a.version ≡ v.version = ground (arith, a.at, v.at, same) in
    ground (arith, a.policy, v.policy, a.of, v.of, a.newest, v.newest, a.old, v.why)

pub IsProtected-authorize :
    (now : ℕ) (c : Version) (db db' : Db)
    → IsProtected db c.file_id
    → authorize now c db ≡ ok (tt, db')
    → ⊥
IsProtected-authorize now c db db' (inl v) h =
    IsOriginal-authorize c db v (authorize-IsAuthorized now c db db' h).0
IsProtected-authorize now c db db' (inr v) h =
    IsKept-authorize c db v (authorize-IsAuthorized now c db db' h).0
