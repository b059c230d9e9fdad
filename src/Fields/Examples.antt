-- ===== src/Fields/Examples.antt =====
-- Runs of the field proposals at concrete inputs (backend/app/fields/).
use fillable.Common.{◌≡◌, ◌↔◌, List, refl, true, none, some, [], ◌∷◌, ok, err, arith}
use fillable.Fields.Schema.{
  Anchor, Occurrence, TextField, FieldType, Candidate, Reason, ReviewDecision, ReviewStatus,
  FieldSnapshot, field_text_mismatch,
}
use fillable.Fields.References.{references, member}
use fillable.Fields.References.Assigned.{references-assigned}
use fillable.Fields.Model.{Node, nil, cons, Inline, Scan, walk, paragraphs}
use fillable.Fields.Model.Budget.{paragraphs_fuel}
use fillable.Fields.Model.Plain.{paragraph_text}
use fillable.Fields.Model.Holding.{Holds}
use fillable.Fields.Validation.{slice, validate_snapshot, check_anchors}
use fillable.Fields.Validation.Ranges.{AllPlain}
use fillable.Fields.Validation.Spans.{
  IsApart, validate_snapshot-IsApart, validate_snapshot-AllPlain,
}

-- "AB", the control 9 with "C", and "DE".
abbrev pub model : Node
model = Node.block (
    cons
      (Node.section (some 1) (
        cons
          (Node.paragraph 5 (
            Inline.text (65 ∷ 66 ∷ [])
            ∷ Inline.field 9 ((67 ∷ []) ∷ [])
            ∷ Inline.text (68 ∷ 69 ∷ [])
            ∷ []))
          (cons (Node.paragraph 6 []) nil)))
      nil)

abbrev pub control_c : Occurrence
control_c = record { id = 1; anchor = Anchor.control 1 5 9; value = 67 ∷ [] }

abbrev pub span_ab : Occurrence
span_ab = record { id = 2; anchor = Anchor.span 1 5 0 2; value = 65 ∷ 66 ∷ [] }

abbrev pub span_de : Occurrence
span_de = record { id = 3; anchor = Anchor.span 1 5 3 5; value = 68 ∷ 69 ∷ [] }

abbrev field_one : TextField
field_one = record { id = 20; type = FieldType.text; label = []; occurrence_ids = 1 ∷ 3 ∷ [] }

abbrev candidate_c : Candidate
candidate_c = record {
  id = 30;
  occurrence_id = 1;
  label = [];
  source_key = none;
  reason = Reason.native_control;
  context = [];
  type = FieldType.text;
}

abbrev candidate_ab : Candidate
candidate_ab = record {
  id = 31;
  occurrence_id = 2;
  label = [];
  source_key = none;
  reason = Reason.placeholder;
  context = [];
  type = FieldType.text;
}

abbrev accept_c : ReviewDecision
accept_c = record { candidate_id = 30; status = ReviewStatus.accepted; field_id = some 20 }

abbrev pub snapshot : FieldSnapshot
snapshot = record {
  source_version_id = 10;
  fields = field_one ∷ [];
  occurrences = control_c ∷ span_ab ∷ span_de ∷ [];
  candidates = candidate_c ∷ candidate_ab ∷ [];
  decisions =
      accept_c
      ∷ record { candidate_id = 31; status = ReviewStatus.dismissed; field_id = none }
      ∷ [];
}

valid : validate_snapshot snapshot 10 model ≡ ok snapshot
unfolding validate_snapshot fillable.Fields.Schema.check_items references paragraphs walk
    fillable.Fields.Model.read_paragraph fillable.Fields.Model.scan check_anchors
valid = refl

-- A value that is not the text of its range.
stale_value :
    validate_snapshot
      (record snapshot {
        occurrences = control_c ∷ record span_ab { value = 65 ∷ [] } ∷ span_de ∷ [];
      })
      10
      model
    ≡ err field_text_mismatch
unfolding validate_snapshot fillable.Fields.Schema.check_items references paragraphs walk
    fillable.Fields.Model.read_paragraph fillable.Fields.Model.scan check_anchors
stale_value = refl

references-assigned_example :
    (member 1 (1 ∷ 3 ∷ []) ≡ true)
    ↔ ((ReviewStatus.accepted ≡ ReviewStatus.accepted) × (accept_c.field_id ≡ some 20))
unfolding references
references-assigned_example =
    references-assigned snapshot 0 20 accept_c candidate_c field_one refl refl refl refl

paragraphs_fuel_example : walk 200000 0 0 [] ((none, model) ∷ []) ≡ paragraphs model
paragraphs_fuel_example = paragraphs_fuel 200000 model (omega arith)

validate_snapshot-IsApart_example : IsApart (Anchor.span 1 5 0 2) (Anchor.span 1 5 3 5)
validate_snapshot-IsApart_example =
    validate_snapshot-IsApart snapshot snapshot 10 model 1 2 span_ab span_de valid (omega arith)
      refl refl

validate_snapshot-AllPlain_example :
    (children : List Inline) × Holds 1 5 children none model
    × (68 ∷ 69 ∷ [] ≡ slice 3 5 (paragraph_text children))
    × AllPlain children 3 5
validate_snapshot-AllPlain_example =
    validate_snapshot-AllPlain snapshot snapshot 10 model 2 3 1 5 3 5 (68 ∷ 69 ∷ []) valid refl
