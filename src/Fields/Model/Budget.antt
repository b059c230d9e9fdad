-- ===== src/Fields/Model/Budget.antt =====
-- The fuel of `paragraphs` (backend/app/fields/validation.py).
use fillable.Common.{
  ℕ, zero, suc, ◌+◌, ◌≡◌, sym, ap, ◌≤◌, ◌<◌, refl, Option, none, List, [], ◌∷◌, arith, leb, length,
  Outcome, Outcome-cases, ok, err, inl, inr,
}
use fillable.Fields.Schema.{FieldError, require, field_model_limit}
use fillable.Fields.Model.{
  Node, Inline, Scan, Known, scan, add_child, children_of, inline_text, empty_scan, read_paragraph,
  push, walk, paragraphs, model_nodes,
}

scan-examined :
    (children : List Inline) (examined characters examined' characters' : ℕ) (s s' : Scan)
    → scan examined characters s children ≡ ok (examined', characters', s')
    → examined ≤ examined'
unfolding scan
scan-examined [] examined characters examined' characters' s s' h = ground arith
scan-examined (c ∷ cs) examined characters examined' characters' s s' h = ground (
  arith,
  scan-examined cs (examined + (1 + children_of c)) (characters + length (inline_text c)) examined'
      characters' (add_child s c) s',
)

read_paragraph-examined :
    (examined characters examined' characters' id : ℕ) (known known' : List Known) (part : Option ℕ)
    (children : List Inline)
    → read_paragraph examined characters known part id children
      ≡ ok (examined', characters', known')
    → examined ≤ examined'
unfolding read_paragraph
read_paragraph-examined examined characters examined' characters' id known known' part children h =
    elim (Outcome-cases (scan examined characters empty_scan children)) [
      | inl (e, q) ↦ absurd (ground arith)
      | inr ((examined₁, characters₁, s), q) ↦
          ground
            (arith, scan-examined children examined characters examined₁ characters₁ empty_scan s q)
    ]

walk_stop :
    (fuel examined characters : ℕ) (known : List Known) (item : Option ℕ × Node)
    (stack : List (Option ℕ × Node))
    → model_nodes < examined
    → walk fuel examined characters known (item ∷ stack) ≡ err field_model_limit
unfolding walk
walk_stop zero examined characters known item stack h = refl
walk_stop (suc fuel) examined characters known (part, Node.section named children) stack h =
    ground arith
walk_stop (suc fuel) examined characters known (part, Node.block children) stack h = ground arith
walk_stop (suc fuel) examined characters known (part, Node.paragraph id children) stack h =
    ground arith
walk_stop (suc fuel) examined characters known (part, Node.leaf) stack h = ground arith

-- A failure is passed on, so only what follows a success matters.
continue_same :
    {A B : Type 0} (o : Outcome FieldError A) (k k' : A → Outcome FieldError B)
    → ((a : A) → o ≡ ok a → k a ≡ k' a)
    → (elim o [ err e ↦ err e | ok a ↦ k a ]) ≡ (elim o [ err e ↦ err e | ok a ↦ k' a ])
continue_same (err e) k k' h = refl
continue_same (ok a) k k' h = h a refl

-- With fuel for every node that the budget still allows, more fuel makes no difference.
pub walk_same :
    (fuel fuel' examined characters : ℕ) (known : List Known) (stack : List (Option ℕ × Node))
    → model_nodes < fuel + examined
    → model_nodes < fuel' + examined
    → walk fuel examined characters known stack ≡ walk fuel' examined characters known stack
unfolding walk
walk_same zero zero examined characters known stack h h' = refl
walk_same fuel fuel' examined characters known [] h h' = refl
walk_same zero (suc fuel') examined characters known (item ∷ stack) h h' =
    sym (walk_stop (suc fuel') examined characters known item stack (omega arith))
walk_same (suc fuel) zero examined characters known (item ∷ stack) h h' =
    walk_stop (suc fuel) examined characters known item stack (omega arith)
walk_same (suc fuel) (suc fuel') examined characters known
      ((part, Node.section named children) ∷ stack) h h' =
    ap (require (leb (examined + 1) model_nodes) field_model_limit) (
      walk_same fuel fuel' (examined + 1) characters known (push named children stack) (omega arith)
        (omega arith))
walk_same (suc fuel) (suc fuel') examined characters known ((part, Node.block children) ∷ stack) h
      h' =
    ap (require (leb (examined + 1) model_nodes) field_model_limit) (
      walk_same fuel fuel' (examined + 1) characters known (push part children stack) (omega arith)
        (omega arith))
walk_same (suc fuel) (suc fuel') examined characters known ((part, Node.leaf) ∷ stack) h h' =
    ap (require (leb (examined + 1) model_nodes) field_model_limit)
      (walk_same fuel fuel' (examined + 1) characters known stack (omega arith) (omega arith))
walk_same (suc fuel) (suc fuel') examined characters known
      ((part, Node.paragraph id children) ∷ stack) h h' =
    ap (require (leb (examined + 1) model_nodes) field_model_limit) (
      continue_same (read_paragraph (examined + 1) characters known part id children) _ _
        λ (e₁, c₁, known₁) q.
          let grows =
            read_paragraph-examined (examined + 1) characters e₁ c₁ id known known₁ part children
              q in
          walk_same fuel fuel' e₁ c₁ known₁ stack (omega (arith, grows)) (omega (arith, grows)))

-- With any fuel beyond the limit of nodes, the loop over a model gives the same answer as
-- `paragraphs`, whatever the model: the limit ends the loop before the fuel does.
pub paragraphs_fuel :
    (fuel : ℕ) (model : Node)
    → model_nodes < fuel
    → walk fuel 0 0 [] ((none, model) ∷ []) ≡ paragraphs model
unfolding paragraphs
paragraphs_fuel fuel model h =
    walk_same fuel (model_nodes + 1) 0 0 [] ((none, model) ∷ []) (omega arith) (omega arith)
