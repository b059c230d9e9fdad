-- ===== src/Fields/Model/Holding.antt =====
-- Where the paragraphs that `paragraphs` (backend/app/fields/validation.py) records stand in the model.
use mathlib.Core.Path.{subst}
use fillable.Common.{
  Outcome-cases, ℕ, zero, suc, ◌+◌, ◌≡◌, refl, Option, none, some, List, [], ◌∷◌, All, arith, ok,
  inl, inr, ◌⊎◌,
}
use fillable.Fields.Model.{
  Node, Nodes, nil, cons, Inline, Known, scan, empty_scan, read_paragraph, push, walk, paragraphs,
  model_nodes,
}
use fillable.Fields.Model.Plain.{IsScanOf, scan-IsScanOf}

-- The paragraph `id` of part `p` with these children is at `node`, which stands in part `part`.
mutual
  pub Holds : ℕ → ℕ → List Inline → Option ℕ → Node → Type 0
  Holds p id children part (Node.section named nodes) = HoldsAny p id children named nodes
  Holds p id children part (Node.block nodes) = HoldsAny p id children part nodes
  Holds p id children part (Node.paragraph i cs) = (part ≡ some p) × (i ≡ id) × (cs ≡ children)
  Holds p id children part Node.leaf = ⊥

  pub HoldsAny : ℕ → ℕ → List Inline → Option ℕ → Nodes → Type 0
  HoldsAny p id children part nil = ⊥
  HoldsAny p id children part (cons n ns) =
      Holds p id children part n ⊎ HoldsAny p id children part ns

module _ (Q : ℕ → ℕ → List Inline → Type 0) where
  abbrev Item : Option ℕ × Node → Type 0
  Item (part, node) =
      (p id : ℕ) (children : List Inline) → Holds p id children part node → Q p id children

  abbrev pub Recorded : Known → Type 0
  Recorded k =
      (children : List Inline) × Q k.part k.paragraph_id children × IsScanOf children k.scanned

  push-Item :
      (part : Option ℕ) (ns : Nodes) (stack : List (Option ℕ × Node))
      → ((p id : ℕ) (children : List Inline) → HoldsAny p id children part ns → Q p id children)
      → All Item stack
      → All Item (push part ns stack)
  unfolding HoldsAny
  push-Item part nil stack f h = h
  push-Item part (cons n ns) stack f h =
      push-Item part ns ((part, n) ∷ stack) (λ p id cs x. f p id cs (inr x))
        ((λ p id cs x. f p id cs (inl x)), h)

  read_paragraph-Recorded :
      (examined characters id examined' characters' : ℕ) (known known' : List Known)
      (part : Option ℕ) (children : List Inline)
      → read_paragraph examined characters known part id children
        ≡ ok (examined', characters', known')
      → Item (part, Node.paragraph id children)
      → All Recorded known
      → All Recorded known'
  unfolding read_paragraph Holds
  read_paragraph-Recorded examined characters id examined' characters' known known' none children e
        f h =
      cc
  read_paragraph-Recorded examined characters id examined' characters' known known' (some p)
        children e f h =
      elim (Outcome-cases (scan examined characters empty_scan children)) [
        | inl (x, q) ↦ absurd (ground (arith, q))
        | inr ((e₁, c₁, s), q) ↦
            let same : record { part = p; paragraph_id = id; scanned = s } ∷ known ≡ known' =
              ground (arith, q) in
            subst (All Recorded) same (
              (
                children,
                f p id children (refl, refl, refl),
                scan-IsScanOf children examined characters e₁ c₁ s q,
              ),
              h,
            )
      ]

  walk-Recorded :
      (fuel examined characters : ℕ) (known known' : List Known) (stack : List (Option ℕ × Node))
      → walk fuel examined characters known stack ≡ ok known'
      → All Item stack
      → All Recorded known
      → All Recorded known'
  unfolding walk Holds
  walk-Recorded fuel examined characters known known' [] e f h = subst (All Recorded) (cc) h
  walk-Recorded zero examined characters known known' (item ∷ stack) e f h = cc
  walk-Recorded (suc fuel) examined characters known known' ((part, Node.section named ns) ∷ stack)
        e f h =
      walk-Recorded fuel (examined + 1) characters known known' (push named ns stack) (ground arith)
        (push-Item named ns stack f.0 f.1) h
  walk-Recorded (suc fuel) examined characters known known' ((part, Node.block ns) ∷ stack) e f h =
      walk-Recorded fuel (examined + 1) characters known known' (push part ns stack) (ground arith)
        (push-Item part ns stack f.0 f.1) h
  walk-Recorded (suc fuel) examined characters known known' ((part, Node.leaf) ∷ stack) e f h =
      walk-Recorded fuel (examined + 1) characters known known' stack (ground arith) f.1 h
  walk-Recorded (suc fuel) examined characters known known'
        ((part, Node.paragraph id children) ∷ stack) e f h =
      elim (Outcome-cases (read_paragraph (examined + 1) characters known part id children)) [
        | inl (x, q) ↦ absurd (ground (arith, q))
        | inr ((e₁, c₁, known₁), q) ↦
            walk-Recorded fuel e₁ c₁ known₁ known' stack (ground (arith, q)) f.1 (
              read_paragraph-Recorded (examined + 1) characters id e₁ c₁ known known₁ part children
                q f.0 h)
      ]

-- Each entry is the scan of a paragraph of the model, under its own part and identity.
pub paragraphs-Recorded :
    (model : Node) (known : List Known)
    → paragraphs model ≡ ok known
    → All (Recorded (λ p id children. Holds p id children none model)) known
unfolding paragraphs
paragraphs-Recorded model known h =
    walk-Recorded (λ p id children. Holds p id children none model) (model_nodes + 1) 0 0 [] known
      ((none, model) ∷ []) h ((λ p id children x. x), tt) tt
