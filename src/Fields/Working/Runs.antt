-- ===== src/Fields/Working/Runs.antt =====
-- A document and its review at concrete inputs (backend/app/fields/working.py).
use fillable.Common.{
  ℕ, ◌-◌, ◌≡◌, ◌≤◌, refl, true, false, none, some, [], ◌∷◌, ok, err, map, length, take, drop,
  get_elem?, arith,
}
use fillable.Fields.Schema.{FieldType, Reason}
use fillable.Fields.Working.Encoding.{Units, utf16}
use fillable.Fields.Working.Review.{
  WorkingSpan, WorkingItem, WorkingReview, Location, Decision, check_review, protected_working_span,
}
use fillable.Fields.Working.Tree.{
  Kind, Attrs, node, Node, Nodes, nil, cons, Index, index, size, visit,
}
use fillable.Fields.Working.Tree.Standing.{Stands}
use fillable.Fields.Working.Spans.{validate_span, collect}
use fillable.Fields.Working.Spans.Matching.{cells}
use fillable.Fields.Working.Spans.Accepting.{validate_span-matches}
use fillable.Fields.Working.Validating.{validate_working, check_against, check_locations}
use fillable.Fields.Working.Validating.Tracking.{Tracks, validate_working-Tracks}

abbrev plain : Attrs
plain = record { id = none; label = none; key = none; exact = true }

abbrev control : Attrs
control = record { id = some 9; label = some (76 ∷ []); key = some (75 ∷ []); exact = true }

-- "A", U+1F600 in the same text, and a control with "C".
abbrev model : Node
model = node Kind.doc plain [] (
    cons
      (node Kind.section plain [] (
        cons
          (node Kind.paragraph plain [] (
            cons (node Kind.text plain (65 ∷ 128512 ∷ []) nil) (
              cons (node Kind.field control [] (cons (node Kind.text plain (67 ∷ []) nil) nil))
                nil)))
          nil))
      nil)

abbrev placed : Index
placed = record {
  paragraphs =
      record {
        start = 2;
        stop = 8;
        segments =
            record { begin = 2; stop = 5; text = some (65 ∷ 55357 ∷ 56832 ∷ []) }
            ∷ record { begin = 5; stop = 8; text = none }
            ∷ [];
      }
      ∷ [];
  controls = (9, control) ∷ [];
}

index_run : index model ≡ ok placed
unfolding index fillable.Fields.Working.Tree.check_node visit fillable.Fields.Working.Tree.sizes
    size
index_run = refl

-- The face: two code units, at the positions 3 and 4.
abbrev face : WorkingSpan
face = record { start = 3; end = 5; text = 128512 ∷ [] }

face_run : validate_span face placed.paragraphs ≡ ok tt
unfolding validate_span collect
face_run = refl

-- A span that reaches into the control.
protected_run :
    validate_span (record { start = 3; end = 6; text = 65 ∷ 66 ∷ 67 ∷ [] }) placed.paragraphs
    ≡ err protected_working_span
unfolding validate_span collect
protected_run = refl

abbrev proposal : WorkingItem
proposal = record {
  id = 1;
  occurrence_id = 1;
  reason = Reason.placeholder;
  source_key = none;
  context = [];
  label = [];
  key = [];
  type = FieldType.text;
  decision = Decision.proposed;
  missing = false;
  location = Location.span face;
}

abbrev accepted : WorkingItem
accepted = record proposal {
  id = 2;
  occurrence_id = 2;
  label = 76 ∷ [];
  key = 75 ∷ [];
  decision = Decision.accepted;
  location = Location.control 9;
}

abbrev review : WorkingReview
review = record { source_version = some 10; items = proposal ∷ accepted ∷ [] }

review_run : validate_working model (some review) 10 none ≡ ok tt
unfolding validate_working index fillable.Fields.Working.Tree.check_node visit check_review
    check_against check_locations validate_span fillable.Fields.Working.Tree.sizes collect
review_run = refl

validate_span-matches_example :
    (start : ℕ) × (content : Nodes) × (us : Units) × Stands start content 0 model
    × (start ≤ 3)
    × (utf16 (128512 ∷ []) ≡ some us)
    × (length us ≡ 5 - 3)
    × (take (5 - 3) (drop (3 - start) (cells content)) ≡ map some us)
validate_span-matches_example =
    validate_span-matches model placed face index_run face_run (omega arith)

validate_working-Tracks_example :
    (k : ℕ) × (item : WorkingItem) × (get_elem? (proposal ∷ accepted ∷ []) k ≡ some item)
    × Tracks 9 control item
validate_working-Tracks_example =
    validate_working-Tracks model placed review 10 none 9 control index_run review_run refl
