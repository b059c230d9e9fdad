-- ===== src/Fields/Rebase/Runs.antt =====
-- A copy at concrete inputs (`rebase_discovery` of backend/app/documents/rebase.py).
use fillable.Common.{ℕ, ◌+◌, ◌≡◌, refl, Option, none, some, List, [], ◌∷◌, ok, get_elem?}
use fillable.Fields.Schema.{Anchor, FieldSnapshot, check_items}
use fillable.Fields.References.{references}
use fillable.Fields.Model.{Node, nil, cons, Inline, paragraphs, walk, read_paragraph, scan}
use fillable.Fields.Model.Plain.{paragraph_text}
use fillable.Fields.Model.Holding.{Holds}
use fillable.Fields.Validation.{slice, validate_snapshot, check_anchors}
use fillable.Fields.Validation.Ranges.{AllPlain}
use fillable.Fields.Rebase.{rebase_discovery}
use fillable.Fields.Rebase.Copied.{rebase_discovery-AllPlain}
use fillable.Fields.Examples.{model, snapshot, control_c, span_ab, span_de}

-- The same paragraph with other identities.
abbrev copy : Node
copy = Node.block (
    cons
      (Node.section (some 1) (
        cons
          (Node.paragraph 105 (
            Inline.text (65 ∷ 66 ∷ [])
            ∷ Inline.field 109 ((67 ∷ []) ∷ [])
            ∷ Inline.text (68 ∷ 69 ∷ [])
            ∷ []))
          nil))
      nil)

abbrev shifted : ℕ → Option ℕ
shifted n = some (n + 100)

abbrev copied : FieldSnapshot
copied = record snapshot {
  source_version_id = 20;
  occurrences =
      record control_c { anchor = Anchor.control 1 105 109 }
      ∷ record span_ab { anchor = Anchor.span 1 105 0 2 }
      ∷ record span_de { anchor = Anchor.span 1 105 3 5 }
      ∷ [];
}

rebased : rebase_discovery snapshot 10 model 20 copy shifted ≡ ok copied
unfolding rebase_discovery validate_snapshot check_items references paragraphs walk read_paragraph
    scan check_anchors
rebased = refl

rebase_discovery-AllPlain_example :
    (target : ℕ) × (children : List Inline) × (shifted 5 ≡ some target)
    × (get_elem? copied.occurrences 2
        ≡ some (record { id = 3; anchor = Anchor.span 1 target 3 5; value = 68 ∷ 69 ∷ [] }))
    × Holds 1 target children none copy
    × (68 ∷ 69 ∷ [] ≡ slice 3 5 (paragraph_text children))
    × AllPlain children 3 5
rebase_discovery-AllPlain_example =
    rebase_discovery-AllPlain snapshot copied 10 20 model copy shifted 2 3 1 5 3 5 (68 ∷ 69 ∷ [])
      rebased refl
