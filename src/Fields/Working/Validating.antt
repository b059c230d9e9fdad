-- ===== src/Fields/Working/Validating.antt =====
-- `_validate_working` of backend/app/fields/working.py, after `bounded`: a document beside its review.
pub mod Tracking
use fillable.Common.{
  ℕ, Bool, true, false, not, ◌&&◌, ◌||◌, Option, none, some, List, [], ◌∷◌, ◌==◌, leb, ltb, map,
  is_some, eq_option, Outcome, ok, err, if◌then◌else◌,
}
use fillable.Fields.Schema.{Text}
use fillable.Fields.References.{member, is_subset}
use fillable.Fields.Validation.{same_text}
use fillable.Fields.Working.Review.{
  WorkingError, WorkingSpan, WorkingItem, WorkingReview, Location, require, and_then, check_review,
  same_bool, invalid_working_root, stale_working_review, overlapping_working_spans,
  duplicate_working_control, working_presence_mismatch, working_property_mismatch,
  untracked_working_control, invalid_working_model,
}
use fillable.Fields.Working.Tree.{Kind, node, Node, Attrs, Placed, Index, index}
use fillable.Fields.Working.Spans.{validate_span}

-- The order of the pairs of positions.
abbrev pub before : ℕ × ℕ → ℕ × ℕ → Bool
before (s, e) (s', e') = ltb s s' || s == s' && leb e e'

abbrev pub put_span : ℕ × ℕ → List (ℕ × ℕ) → List (ℕ × ℕ)
put_span p [] = p ∷ []
put_span p (q ∷ qs) = let rest = put_span p qs in if before p q then p ∷ q ∷ qs else q ∷ rest

abbrev pub sorted : List (ℕ × ℕ) → List (ℕ × ℕ)
sorted [] = []
sorted (p ∷ ps) = put_span p (sorted ps)

abbrev with_span : Bool → Location → List (ℕ × ℕ) → List (ℕ × ℕ)
with_span false (Location.span s) rest = (s.start, s.end) ∷ rest
with_span _ _ rest = rest

abbrev pub spans_of : List WorkingItem → List (ℕ × ℕ)
spans_of [] = []
spans_of (i ∷ is) = with_span i.missing i.location (spans_of is)

-- any(… for … in zip(spans, spans[1:]))
abbrev pub is_crowded : List (ℕ × ℕ) → Bool
is_crowded [] = false
is_crowded (p ∷ []) = false
is_crowded ((s, e) ∷ (s', e') ∷ qs) = ltb s' e || s' == s && e' == e || is_crowded ((s', e') ∷ qs)

abbrev pub attrs_of : ℕ → List (ℕ × Attrs) → Option Attrs
attrs_of id [] = none
attrs_of id ((c, attrs) ∷ cs) = if c == id then some attrs else attrs_of id cs

-- A property that is missing raises a `KeyError`.
abbrev same_property : Text → Option Text → Outcome WorkingError Unit → Outcome WorkingError Unit
same_property t none rest = err invalid_working_model
same_property t (some u) rest = require (same_text t u) working_property_mismatch rest

abbrev pub check_properties : WorkingItem → Option Attrs → Outcome WorkingError Unit
check_properties item none = ok tt
check_properties item (some attrs) =
    same_property item.label attrs.label (same_property item.key attrs.key (ok tt))

-- The body of the loop over the items; the answer is `seen`.
abbrev pub check_location : Index → List ℕ → WorkingItem → Location → Outcome WorkingError (List ℕ)
check_location index seen item (Location.span s) =
    if item.missing then ok seen else and_then (validate_span s index.paragraphs) (ok seen)
check_location index seen item (Location.control id) =
    require (not (member id seen)) duplicate_working_control (
      require (same_bool item.missing (not (is_some (attrs_of id index.controls))))
        working_presence_mismatch
        (and_then (check_properties item (attrs_of id index.controls)) (ok (id ∷ seen))))

unfoldable pub check_locations : Index → List ℕ → List WorkingItem → Outcome WorkingError (List ℕ)
check_locations index seen [] = ok seen
check_locations index seen (item ∷ items) = elim (check_location index seen item item.location) [
  | err e ↦ err e
  | ok seen' ↦ check_locations index seen' items
]

abbrev is_current : Option ℕ → ℕ → Option ℕ → Bool
is_current none source previous = true
is_current (some v) source previous = v == source || eq_option (some v) previous

abbrev pub control_ids : List (ℕ × Attrs) → List ℕ
control_ids [] = []
control_ids ((c, attrs) ∷ cs) = c ∷ control_ids cs

abbrev tracked : Index → Outcome WorkingError (List ℕ) → Outcome WorkingError Unit
tracked index (err e) = err e
tracked index (ok seen) =
    require (is_subset (control_ids index.controls) seen) untracked_working_control (ok tt)

unfoldable pub check_against : Index → WorkingReview → ℕ → Option ℕ → Outcome WorkingError Unit
check_against index review source previous =
    require (is_current review.source_version source previous) stale_working_review (
      require (not (is_crowded (sorted (spans_of review.items)))) overlapping_working_spans
        (tracked index (check_locations index [] review.items)))

-- `type` is "doc" and `attrs` has no key beside the review.
abbrev is_root : Node → Bool
is_root (node Kind.doc attrs t ns) = attrs.exact
is_root _ = false

abbrev reviewed : Index → Option WorkingReview → ℕ → Option ℕ → Outcome WorkingError Unit
reviewed index none source previous = ok tt
reviewed index (some review) source previous =
    and_then (check_review review) (check_against index review source previous)

unfoldable pub validate_working :
    Node → Option WorkingReview → ℕ → Option ℕ → Outcome WorkingError Unit
validate_working model review source previous =
    require (is_root model) invalid_working_root
      (elim (index model) [ err e ↦ err e | ok i ↦ reviewed i review source previous ])
