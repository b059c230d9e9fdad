-- ===== src/Common/Table.antt =====
-- A database table as a list of rows with a numeric primary key.
use Prim.Native.Nat.{ℕ, ◌+◌, ◌≤◌}
use mathlib.Core.Path.{◌≡◌, refl}
use mathlib.Core.Bool.{Bool}
use mathlib.Core.Option.{Option, none, some}
use mathlib.Core.Option
use mathlib.Core.List.{List, [], ◌∷◌}
use native.Mathlib.Omega.{arith}
use mathlib.Core.Path.{subst}
use mathlib.Core.Logic.{inl, inr}
use fillable.Common.Tests.{Bool-cases, ◌==◌, if◌then◌else◌}
use fillable.Common.Lists.{All}

-- SELECT sum(w) and SELECT count(*) WHERE p.
abbrev pub sum : {A : Type 0} → (A → ℕ) → List A → ℕ
sum w [] = 0
sum w (r ∷ rs) = w r + sum w rs

abbrev pub count : {A : Type 0} → (A → Bool) → List A → ℕ
count p = sum (λ r. if p r then 1 else 0)

module _ {A : Type 0} (key : A → ℕ) where
  -- SELECT … WHERE id = k, at most one row
  abbrev pub find : ℕ → List A → Option A
  find k [] = none
  find k (r ∷ rs) = if key r == k then some r else find k rs

  -- UPDATE … WHERE id = k
  abbrev pub update : ℕ → (A → A) → List A → List A
  update k f [] = []
  update k f (r ∷ rs) = (if key r == k then f r else r) ∷ update k f rs

  -- The primary key.
  abbrev pub IsKeyed : List A → Type 0
  IsKeyed [] = Unit
  IsKeyed (r ∷ rs) = (find (key r) rs ≡ none) × IsKeyed rs

module _ {A : Type 0} (key : A → ℕ) where
  pub key-find : (k : ℕ) (rs : List A) {r : A} → find key k rs ≡ some r → key r ≡ k
  key-find k [] h = cc
  key-find k (x ∷ rs) {r} h = ground (arith, key-find k rs {r = r})

  pub update-none :
      (k : ℕ) (f : A → A) (rs : List A) → find key k rs ≡ none → update key k f rs ≡ rs
  update-none k f [] h = refl
  update-none k f (r ∷ rs) h = ground (arith, update-none k f rs)

  pub sum-update-none :
      (w : A → ℕ) (k : ℕ) (f : A → A) (rs : List A)
      → find key k rs ≡ none
      → sum w (update key k f rs) ≡ sum w rs
  sum-update-none w k f rs h = rw (update-none k f rs h)

  pub sum-update :
      (w : A → ℕ) (k : ℕ) (f : A → A) (rs : List A) {r : A}
      → IsKeyed key rs
      → find key k rs ≡ some r
      → sum w (update key k f rs) + w r ≡ sum w rs + w (f r)
  sum-update w k f [] u h = cc
  sum-update w k f (x ∷ rs) {r} u h =
      ground (arith, sum-update w k f rs {r = r}, sum-update-none w k f rs)

  pub le-sum : (w : A → ℕ) (k : ℕ) (rs : List A) {r : A} → find key k rs ≡ some r → w r ≤ sum w rs
  le-sum w k [] h = cc
  le-sum w k (x ∷ rs) {r} h = ground (arith, le-sum w k rs {r = r})

  pub All-find :
      (P : A → Type 0) (k : ℕ) (rs : List A) {r : A} → All P rs → find key k rs ≡ some r → P r
  All-find P k [] a h = cc
  All-find P k (x ∷ rs) {r} a h = ground (arith, All-find P k rs {r = r} a.1)

  pub find-update :
      (k j : ℕ) (f : A → A) (rs : List A)
      → ((r : A) → key r ≡ k → key (f r) ≡ k)
      → find key j (update key k f rs)
        ≡ (if k == j then Option.map f (find key j rs) else find key j rs)
  find-update k j f [] h = ground arith
  find-update k j f (x ∷ rs) h = ground (arith, h x, find-update k j f rs h)

  pub IsKeyed-update :
      (k : ℕ) (f : A → A) (rs : List A)
      → ((r : A) → key r ≡ k → key (f r) ≡ k)
      → IsKeyed key rs
      → IsKeyed key (update key k f rs)
  IsKeyed-update k f [] h u = tt
  IsKeyed-update k f (x ∷ rs) h u =
      ground (arith, h x, find-update k (key x) f rs h, IsKeyed-update k f rs h u.1)

  All-absent :
      (P : A → Type 0) (k : ℕ) (rs : List A) → find key k rs ≡ none → All (λ x. key x ≡ k → P x) rs
  All-absent P k [] h = tt
  All-absent P k (x ∷ rs) h = elim (Bool-cases (key x == k)) [
    | inl e ↦ absurd (ground arith)
    | inr e ↦ ((λ c. absurd (ground arith)), All-absent P k rs (ground arith))
  ]

  -- What holds of the row with a key holds of every row that has the key.
  pub All-keyed :
      (P : A → Type 0) (k : ℕ) (rs : List A) {r : A}
      → IsKeyed key rs
      → find key k rs ≡ some r
      → P r
      → All (λ x. key x ≡ k → P x) rs
  All-keyed P k [] u h p = tt
  All-keyed P k (x ∷ rs) {r} u h p = elim (Bool-cases (key x == k)) [
    | inl e ↦ ((λ _. subst P (ground arith) p), All-absent P k rs (ground (arith)))
    | inr e ↦ ((λ c. absurd (ground arith)), All-keyed P k rs {r = r} u.1 (ground arith) p)
  ]

  -- An update of the rows with a key, where `K` is known of them.
  pub All-update :
      (K P : A → Type 0) (k : ℕ) (f : A → A) (rs : List A)
      → ((x : A) → K x → P x → P (f x))
      → All (λ x. key x ≡ k → K x) rs
      → All P rs
      → All P (update key k f rs)
  All-update K P k f [] step at h = tt
  All-update K P k f (x ∷ rs) step at h = (
    elim (Bool-cases (key x == k)) [
      | inl e ↦ rw e (step x (at.0 (ground arith)) h.0)
      | inr e ↦ rw e h.0
    ],
    All-update K P k f rs step at.1 h.1,
  )
