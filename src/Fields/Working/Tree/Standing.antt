-- ===== src/Fields/Working/Tree/Standing.antt =====
-- Where the paragraphs of an index stand in the tree (`index` of backend/app/fields/working.py).
use mathlib.Core.Path.{subst}
use fillable.Common.{
  ℕ, ◌+◌, ◌≡◌, refl, Option, none, some, List, [], ◌∷◌, ◌++◌, All, arith, Outcome, Outcome-cases,
  ok, inl, inr, ◌⊎◌,
}
use fillable.Fields.Working.Review.{WorkingError}
use fillable.Fields.Working.Tree.{
  Kind, Attrs, node, Node, Nodes, nil, cons, size, sizes, segments_from, Placed, Index, add_control,
  add_paragraph, visit_kind, content_start, visit, visit_all, check_node, index,
}

-- A paragraph with this content, which starts at `start`, is at or below the node at `position`.
mutual
  pub Stands : ℕ → Nodes → ℕ → Node → Type 0
  Stands start content position (node k attrs t ns) =
      ((k ≡ Kind.paragraph) × (content_start k position ≡ start) × (ns ≡ content))
      ⊎ StandsAny start content (content_start k position) ns

  pub StandsAny : ℕ → Nodes → ℕ → Nodes → Type 0
  StandsAny start content position nil = ⊥
  StandsAny start content position (cons n ns) =
      Stands start content position n ⊎ StandsAny start content (position + size n) ns

module _ (Q : ℕ → Nodes → Type 0) where
  abbrev pub IsPlaced : Placed → Type 0
  IsPlaced p =
      (content : Nodes) × Q p.start content
      × (p.stop ≡ p.start + sizes content)
      × (p.segments ≡ segments_from p.start content)

  append-All :
      (ps : List Placed) (p : Placed) → All IsPlaced ps → IsPlaced p → All IsPlaced (ps ++ (p ∷ []))
  append-All [] p h v = (v, tt)
  append-All (x ∷ ps) p h v = (h.0, append-All ps p h.1 v)

  add_control-same :
      (id : Option ℕ) (attrs : Attrs) (ns : Nodes) (i i' : Index)
      → add_control id attrs ns i ≡ ok i'
      → i.paragraphs ≡ i'.paragraphs
  add_control-same none attrs ns i i' h = cc
  add_control-same (some id) attrs ns i i' h = ground arith

  unchanged-IsPlaced :
      (i i' : Index)
      → ◌≡◌ {A = Outcome WorkingError Index} (ok i) (ok i')
      → All IsPlaced i.paragraphs
      → All IsPlaced i'.paragraphs
  unchanged-IsPlaced i i' h v =
      let e : i ≡ i' = cc in subst (λ (x : Index). All IsPlaced x.paragraphs) e v

  visit_kind-IsPlaced :
      (start : ℕ) (k : Kind) (attrs : Attrs) (ns : Nodes) (i i' : Index)
      → visit_kind start k attrs ns i ≡ ok i'
      → (k ≡ Kind.paragraph → Q start ns)
      → All IsPlaced i.paragraphs
      → All IsPlaced i'.paragraphs
  visit_kind-IsPlaced start Kind.paragraph attrs ns i i' h q v =
      let e : add_paragraph start ns i ≡ i' = cc in
      subst (λ (x : Index). All IsPlaced x.paragraphs) e
        (append-All i.paragraphs _ v (ns, q refl, refl, refl))
  visit_kind-IsPlaced start Kind.field attrs ns i i' h q v =
      subst (All IsPlaced) (add_control-same attrs.id attrs ns i i' h) v
  visit_kind-IsPlaced start Kind.doc attrs ns i i' h q v = unchanged-IsPlaced i i' h v
  visit_kind-IsPlaced start Kind.section attrs ns i i' h q v = unchanged-IsPlaced i i' h v
  visit_kind-IsPlaced start Kind.table attrs ns i i' h q v = unchanged-IsPlaced i i' h v
  visit_kind-IsPlaced start Kind.table_row attrs ns i i' h q v = unchanged-IsPlaced i i' h v
  visit_kind-IsPlaced start Kind.table_cell attrs ns i i' h q v = unchanged-IsPlaced i i' h v
  visit_kind-IsPlaced start Kind.locked_block attrs ns i i' h q v = unchanged-IsPlaced i i' h v
  visit_kind-IsPlaced start Kind.locked_inline attrs ns i i' h q v = unchanged-IsPlaced i i' h v
  visit_kind-IsPlaced start Kind.checkbox attrs ns i i' h q v = unchanged-IsPlaced i i' h v
  visit_kind-IsPlaced start Kind.text attrs ns i i' h q v = unchanged-IsPlaced i i' h v
  visit_kind-IsPlaced start Kind.other attrs ns i i' h q v = unchanged-IsPlaced i i' h v

  mutual
    unfolding visit Stands

    visit-IsPlaced :
        (position : ℕ) (n : Node) (i i' : Index)
        → visit position n i ≡ ok i'
        → ((start : ℕ) (content : Nodes) → Stands start content position n → Q start content)
        → All IsPlaced i.paragraphs
        → All IsPlaced i'.paragraphs
    visit-IsPlaced position (node k attrs t ns) i i' h q v =
        elim (Outcome-cases (visit_kind (content_start k position) k attrs ns i)) [
          | inl (e, failed) ↦ absurd (ground (arith, failed))
          | inr (i₁, went) ↦
              visit_all-IsPlaced (content_start k position) ns i₁ i' (ground (arith, went))
                (λ start content s. q start content (inr s))
                (visit_kind-IsPlaced (content_start k position) k attrs ns i i₁ went
                  (λ e. q (content_start k position) ns (inl (e, refl, refl))) v)
        ]

    visit_all-IsPlaced :
        (position : ℕ) (ns : Nodes) (i i' : Index)
        → visit_all position ns i ≡ ok i'
        → ((start : ℕ) (content : Nodes) → StandsAny start content position ns → Q start content)
        → All IsPlaced i.paragraphs
        → All IsPlaced i'.paragraphs
    visit_all-IsPlaced position nil i i' h q v = unchanged-IsPlaced i i' h v
    visit_all-IsPlaced position (cons n ns) i i' h q v = elim (Outcome-cases (visit position n i)) [
      | inl (e, failed) ↦ absurd (ground (arith, failed))
      | inr (i₁, went) ↦
          visit_all-IsPlaced (position + size n) ns i₁ i' (ground (arith, went))
            (λ start content s. q start content (inr s))
            (visit-IsPlaced position n i i₁ went (λ start content s. q start content (inl s)) v)
    ]

-- Each paragraph of the index has its content and its place.
pub index-IsPlaced :
    (model : Node) (i : Index)
    → index model ≡ ok i
    → All (IsPlaced (λ start content. Stands start content 0 model)) i.paragraphs
unfolding index
index-IsPlaced model i h =
    let went : visit 0 model (record { paragraphs = []; controls = [] }) ≡ ok i =
      elim (Outcome-cases (check_node 0 model)) [
        | inl (e, failed) ↦ absurd (ground (arith, failed))
        | inr (n, fine) ↦ ground (arith, fine)
      ] in
    visit-IsPlaced (λ start content. Stands start content 0 model) 0 model
      (record { paragraphs = []; controls = [] }) i went (λ start content s. s) tt
