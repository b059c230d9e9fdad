-- ===== src/Fields/Working/Validating/Tracking.antt =====
-- The controls that an accepted review tracks (`_validate_working` of backend/app/fields/working.py).
use mathlib.Core.Path.{subst}
use fillable.Common.{
  ℕ, suc, ◌≡◌, sym, ap, ◌∙◌, refl, true, false, Option, some, List, [], ◌∷◌, arith, get_elem?, ◌==◌,
  Outcome-cases, ok, Bool-cases, Option-cases, inl, inr, ◌⊎◌,
}
use fillable.Fields.References.{member, is_subset}
use fillable.Fields.Validation.Ranges.{same_text-≡}
use fillable.Fields.Working.Review.{WorkingItem, WorkingReview, Location}
use fillable.Fields.Working.Tree.{Node, Attrs, Index, index}
use fillable.Fields.Working.Spans.{validate_span}
use fillable.Fields.Working.Validating.{
  attrs_of, check_properties, check_location, check_locations, control_ids, check_against,
  validate_working,
}

-- The item of a control that stands in the document.
abbrev pub Tracks : ℕ → Attrs → WorkingItem → Type 0
Tracks id attrs item =
    (item.location ≡ Location.control id)
    × (item.missing ≡ false)
    × (attrs.label ≡ some item.label)
    × (attrs.key ≡ some item.key)

properties-same :
    (item : WorkingItem) (attrs : Attrs)
    → check_properties item (some attrs) ≡ ok tt
    → (attrs.label ≡ some item.label) × (attrs.key ≡ some item.key)
properties-same item attrs h = elim (Option-cases attrs.label) [
  | inl missing ↦ absurd (ground (arith, missing))
  | inr (label, q) ↦ elim (Option-cases attrs.key) [
    | inl missing ↦ absurd (ground (arith, q, missing))
    | inr (key, r) ↦ ground (arith, q, r, same_text-≡ item.label label, same_text-≡ item.key key)
  ]
]

location-Tracks :
    (i : Index) (seen seen' : List ℕ) (item : WorkingItem) (location : Location) (id : ℕ)
    (attrs : Attrs)
    → item.location ≡ location
    → check_location i seen item location ≡ ok seen'
    → attrs_of id i.controls ≡ some attrs
    → member id seen' ≡ true
    → (member id seen ≡ true) ⊎ Tracks id attrs item
location-Tracks i seen seen' item (Location.span s) id attrs e h at m =
    elim (Bool-cases item.missing) [
      | inl gone ↦ inl (ground (arith, gone))
      | inr here ↦ elim (Outcome-cases (validate_span s i.paragraphs)) [
        | inl (x, failed) ↦ absurd (ground (arith, here, failed))
        | inr (_, fine) ↦ inl (ground (arith, here, fine))
      ]
    ]
location-Tracks i seen seen' item (Location.control c) id attrs e h at m =
    elim (Bool-cases (c == id)) [
      | inr other ↦ elim (Outcome-cases (check_properties item (attrs_of c i.controls))) [
        | inl (x, failed) ↦ absurd (ground (arith, failed))
        | inr (_, fine) ↦ inl (ground (arith, other, fine))
      ]
      | inl same ↦
          let one : c ≡ id = ground (arith, same) in
          let found = subst (λ x. attrs_of x i.controls ≡ some attrs) (sym one) at in
          elim (Outcome-cases (check_properties item (some attrs))) [
            | inl (x, failed) ↦ absurd (ground (arith, found, failed))
            | inr (_, fine) ↦
                let (label, key) = properties-same item attrs fine in
                let present : item.missing ≡ false = ground (arith, found) in
                inr (e ∙ ap Location.control one, present, label, key)
          ]
    ]

locations-Tracks :
    (i : Index) (seen seen' : List ℕ) (items : List WorkingItem) (id : ℕ) (attrs : Attrs)
    → check_locations i seen items ≡ ok seen'
    → attrs_of id i.controls ≡ some attrs
    → member id seen' ≡ true
    → (member id seen ≡ true)
      ⊎ ((k : ℕ) × (item : WorkingItem) × (get_elem? items k ≡ some item) × Tracks id attrs item)
unfolding check_locations
locations-Tracks i seen seen' [] id attrs h at m = inl (ground arith)
locations-Tracks i seen seen' (item ∷ items) id attrs h at m =
    elim (Outcome-cases (check_location i seen item item.location)) [
      | inl (x, failed) ↦ absurd (ground (arith, failed))
      | inr (seen₁, went) ↦
          elim (locations-Tracks i seen₁ seen' items id attrs (ground (arith, went)) at m) [
            | inr (k, later, found, tracks) ↦ inr (suc k, later, found, tracks)
            | inl old ↦
                elim (location-Tracks i seen seen₁ item item.location id attrs refl went at old) [
                  | inl older ↦ inl older
                  | inr tracks ↦ inr (0, item, refl, tracks)
                ]
          ]
    ]

subset-member :
    (cs : List (ℕ × Attrs)) (seen : List ℕ) (id : ℕ) (attrs : Attrs)
    → attrs_of id cs ≡ some attrs
    → is_subset (control_ids cs) seen ≡ true
    → member id seen ≡ true
subset-member [] seen id attrs h s = cc
subset-member ((c, x) ∷ cs) seen id attrs h s = elim (Bool-cases (c == id)) [
  | inl same ↦
      let one : c ≡ id = ground (arith, same) in
      let inside : member c seen ≡ true = ground arith in
      subst (λ y. member y seen ≡ true) one inside
  | inr other ↦ subset-member cs seen id attrs (ground (arith, other)) (ground arith)
]

-- When `validate_working` accepts a document with a review, every control that the index of the
-- document holds has an item of the review that is not missing and has its label and its key.
pub validate_working-Tracks :
    (model : Node) (i : Index) (review : WorkingReview) (source : ℕ) (previous : Option ℕ) (id : ℕ)
    (attrs : Attrs)
    → index model ≡ ok i
    → validate_working model (some review) source previous ≡ ok tt
    → attrs_of id i.controls ≡ some attrs
    → (k : ℕ) × (item : WorkingItem) × (get_elem? review.items k ≡ some item) × Tracks id attrs item
unfolding validate_working check_against
validate_working-Tracks model i review source previous id attrs placed h at =
    elim (Outcome-cases (check_locations i [] review.items)) [
      | inl (x, failed) ↦ absurd (ground (arith, placed, failed))
      | inr (seen, went) ↦
          let all : is_subset (control_ids i.controls) seen ≡ true = ground (arith, placed, went) in
          elim (locations-Tracks i [] seen review.items id attrs went at
            (subset-member i.controls seen id attrs at all)) [
              | inl none_seen ↦ absurd (ground arith)
              | inr found ↦ found
            ]
    ]
