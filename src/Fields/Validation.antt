-- ===== src/Fields/Validation.antt =====
-- `validate_snapshot` of backend/app/fields/validation.py: the occurrences against the paragraphs of
-- the model of their version.
pub mod Ranges
pub mod Spans
use fillable.Common.{
  ℕ, Bool, true, false, not, ◌&&◌, ◌||◌, Option, none, some, List, [], ◌∷◌, ◌==◌, leb, ltb, length,
  take, drop, Outcome, ok, err, if◌then◌else◌,
}
use fillable.Fields.Schema.{
  Text, Anchor, Occurrence, FieldSnapshot, FieldError, Check, require, and_then, check_items,
  stale_field_snapshot, unknown_field_anchor, unknown_field_control, invalid_field_range,
  duplicate_field_anchor, overlapping_field_anchors, field_text_mismatch,
}
use fillable.Fields.References.{references}
use fillable.Fields.Model.{Node, Scan, Known, known_at, control_value, paragraphs}

abbrev pub part_of : Anchor → ℕ
part_of (Anchor.control part paragraph_id control_id) = part
part_of (Anchor.span part paragraph_id start end) = part

abbrev pub paragraph_of : Anchor → ℕ
paragraph_of (Anchor.control part paragraph_id control_id) = paragraph_id
paragraph_of (Anchor.span part paragraph_id start end) = paragraph_id

-- Equality of the keys of `seen`, of three or of four parts.
abbrev pub same_anchor : Anchor → Anchor → Bool
same_anchor (Anchor.control p i c) (Anchor.control p' i' c') = p == p' && i == i' && c == c'
same_anchor (Anchor.span p i s e) (Anchor.span p' i' s' e') =
    p == p' && i == i' && s == s' && e == e'
same_anchor _ _ = false

abbrev pub is_seen : Anchor → List Anchor → Bool
is_seen a [] = false
is_seen a (b ∷ bs) = same_anchor a b || is_seen a bs

abbrev pub same_text : Text → Text → Bool
same_text [] [] = true
same_text (c ∷ cs) (d ∷ ds) = c == d && same_text cs ds
same_text _ _ = false

abbrev pub touches : ℕ → ℕ → List (ℕ × ℕ) → Bool
touches start end [] = false
touches start end ((begin, stop) ∷ blocked) =
    ltb start stop && ltb begin end
    || leb start begin && begin == stop && ltb stop end
    || touches start end blocked

abbrev is_empty {ℓ} : {A : Type ℓ} → List A → Bool
is_empty [] = true
is_empty (x ∷ xs) = false

abbrev pub out_of_range : Scan → ℕ → ℕ → Bool
out_of_range s start end =
    ltb (length s.text) end
    || start == end && (not (is_empty s.text) || not (is_empty s.blocked))
    || touches start end s.blocked

-- text[start:end]
abbrev pub slice : ℕ → ℕ → Text → Text
slice start end t = drop start (take end t)

abbrev found_control : Option Text → Outcome FieldError Text
found_control none = err unknown_field_control
found_control (some v) = ok v

abbrev pub value_at : Scan → Anchor → Outcome FieldError Text
value_at s (Anchor.control part paragraph_id control_id) =
    found_control (control_value control_id s.controls)
value_at s (Anchor.span part paragraph_id start end) =
    require (not (out_of_range s start end)) invalid_field_range (ok (slice start end s.text))

-- `spans`, with the paragraph of each interval.
pub record Interval : Type 0 where
  pub part : ℕ
  pub paragraph_id : ℕ
  pub start : ℕ
  pub end : ℕ

abbrev pub overlaps : ℕ → ℕ → ℕ → ℕ → List Interval → Bool
overlaps part paragraph_id start end [] = false
overlaps part paragraph_id start end (i ∷ is) =
    i.part == part && i.paragraph_id == paragraph_id && ltb start i.end && ltb i.start end
    || overlaps part paragraph_id start end is

abbrev pub is_overlapping : Anchor → List Interval → Bool
is_overlapping (Anchor.control part paragraph_id control_id) spans = false
is_overlapping (Anchor.span part paragraph_id start end) spans =
    overlaps part paragraph_id start end spans

abbrev pub placed : Anchor → List Interval → List Interval
placed (Anchor.control part paragraph_id control_id) spans = spans
placed (Anchor.span part paragraph_id start end) spans =
    record { part = part; paragraph_id = paragraph_id; start = start; end = end } ∷ spans

-- The body of the loop, up to the new `seen` and `spans`.
abbrev pub check_value : List Anchor → List Interval → Occurrence → Outcome FieldError Text → Check
check_value seen spans o (err e) = err e
check_value seen spans o (ok value) = require (not (is_seen o.anchor seen)) duplicate_field_anchor (
    require (not (is_overlapping o.anchor spans)) overlapping_field_anchors
      (require (same_text o.value value) field_text_mismatch (ok tt)))

abbrev pub check_scan : List Anchor → List Interval → Occurrence → Option Scan → Check
check_scan seen spans o none = err unknown_field_anchor
check_scan seen spans o (some s) = check_value seen spans o (value_at s o.anchor)

unfoldable pub check_anchors : List Known → List Anchor → List Interval → List Occurrence → Check
check_anchors known seen spans [] = ok tt
check_anchors known seen spans (o ∷ os) =
    and_then (check_scan seen spans o (known_at (part_of o.anchor) (paragraph_of o.anchor) known))
      (check_anchors known (o.anchor ∷ seen) (placed o.anchor spans) os)

unfoldable pub validate_snapshot : FieldSnapshot → ℕ → Node → Outcome FieldError FieldSnapshot
validate_snapshot s source_version_id model = and_then (check_items s) (
    and_then (references s) (
      require (s.source_version_id == source_version_id) stale_field_snapshot
        (elim (paragraphs model) [
          | err e ↦ err e
          | ok known ↦ and_then (check_anchors known [] [] s.occurrences) (ok s)
        ])))
