-- ===== src/Fields/Validation/Ranges.antt =====
-- What the range of a span that is accepted holds (backend/app/fields/validation.py).
use mathlib.Core.Path.{subst}
use fillable.Common.{
  ℕ, zero, suc, ◌≡◌, ◌≤◌, ◌<◌, refl, Bool, true, false, ◌&&◌, some, List, [], ◌∷◌, All, get_elem?,
  arith, ◌==◌, length, Bool-cases, inl, inr,
}
use fillable.Fields.Schema.{Text}
use fillable.Fields.Model.{Inline, Scan, Known, known_at}
use fillable.Fields.Model.Plain.{IsScanOf, plain, in_block}
use fillable.Fields.Model.Holding.{Recorded}
use fillable.Fields.Validation.{same_text, touches, out_of_range}

in_block-touches :
    (start end i : ℕ) (blocked : List (ℕ × ℕ))
    → start ≤ i
    → i < end
    → in_block i blocked ≡ true
    → touches start end blocked ≡ true
in_block-touches start end i [] l r h = cc
in_block-touches start end i ((begin, stop) ∷ bs) l r h =
    ground (arith, in_block-touches start end i bs)

some_elem : (xs : List Bool) (i : ℕ) → i < length xs → (x : Bool) × (get_elem? xs i ≡ some x)
some_elem [] i h = absurd (omega arith)
some_elem (x ∷ xs) zero h = (x, refl)
some_elem (x ∷ xs) (suc i) h = some_elem xs i (omega arith)

pub same_text-≡ : (t u : Text) → same_text t u ≡ true → t ≡ u
same_text-≡ [] [] h = refl
same_text-≡ [] (d ∷ ds) h = cc
same_text-≡ (c ∷ cs) [] h = cc
same_text-≡ (c ∷ cs) (d ∷ ds) h = ground (arith, same_text-≡ cs ds)

-- The code points of the range are all the paragraph's own text.
abbrev pub AllPlain : List Inline → ℕ → ℕ → Type 0
AllPlain children start end =
    (i : ℕ) → start ≤ i → i < end → get_elem? (plain children) i ≡ some true

bit-AllPlain :
    (children : List Inline) (s : Scan) (start end i : ℕ) (bit : Bool)
    → IsScanOf children s
    → touches start end s.blocked ≡ false
    → start ≤ i
    → i < end
    → get_elem? (plain children) i ≡ some bit
    → get_elem? (plain children) i ≡ some true
bit-AllPlain children s start end i true scanned h l r e = e
bit-AllPlain children s start end i false (covers, same) h l r e =
    absurd (ground (arith, in_block-touches start end i s.blocked l r (covers.blocks i e)))

pub in_range-AllPlain :
    (children : List Inline) (s : Scan) (start end : ℕ)
    → IsScanOf children s
    → out_of_range s start end ≡ false
    → AllPlain children start end
in_range-AllPlain children s start end scanned h i l r =
    let inside : end ≤ length s.text = ground arith in
    let untouched : touches start end s.blocked ≡ false = ground arith in
    let (bit, e) = some_elem (plain children) i (omega (arith, scanned.0.long)) in
    bit-AllPlain children s start end i bit scanned untouched l r e

pub known_at-Recorded :
    (Q : ℕ → ℕ → List Inline → Type 0) (part id : ℕ) (known : List Known) (s : Scan)
    → All (Recorded Q) known
    → known_at part id known ≡ some s
    → (children : List Inline) × Q part id children × IsScanOf children s
known_at-Recorded Q part id [] s v h = cc
known_at-Recorded Q part id (k ∷ ks) s ((children, q, scanned), v) h =
    elim (Bool-cases (k.part == part && k.paragraph_id == id)) [
      | inl y ↦
          let here : k.scanned ≡ s = ground arith in
          let p : k.part ≡ part = ground arith in
          let i : k.paragraph_id ≡ id = ground arith in
          (
            children,
            subst (λ x. Q x id children) p (subst (λ x. Q k.part x children) i q),
            subst (IsScanOf children) here scanned,
          )
      | inr n ↦ known_at-Recorded Q part id ks s v (ground arith)
    ]
