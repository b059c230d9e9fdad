-- ===== src/Fields/Working/Spans.antt =====
-- `validate_span` and `_validate_working` of backend/app/fields/working.py.
pub mod Matching
pub mod Accepting
use fillable.Common.{
  ℕ, zero, suc, ◌+◌, ◌-◌, Bool, true, false, not, ◌&&◌, ◌||◌, Option, none, some, List, [], ◌∷◌,
  ◌++◌, ◌==◌, leb, ltb, length, min, map, is_some, take, drop, get_elem?, eq_option, Outcome, ok,
  err, if◌then◌else◌,
}
use fillable.Fields.Schema.{Text}
use fillable.Fields.References.{member}
use fillable.Fields.Validation.{same_text}
use fillable.Fields.Working.Encoding.{Units, utf16, decode}
use fillable.Fields.Working.Review.{
  WorkingError, WorkingSpan, WorkingItem, WorkingReview, Location, require, and_then, check_review,
  same_bool, invalid_working_span, working_text_mismatch, protected_working_span,
  invalid_working_root, stale_working_review, overlapping_working_spans, duplicate_working_control,
  working_presence_mismatch, working_property_mismatch, untracked_working_control,
  invalid_working_model,
}
use fillable.Fields.Working.Tree.{Kind, Node, kind_of, Attrs, Placed, Segment, Index, index}

-- `bisect_right` of the standard library, on a list in order.
abbrev pub bisect_right : List ℕ → ℕ → ℕ
bisect_right [] x = 0
bisect_right (y ∷ ys) x = let rest = bisect_right ys x in if leb y x then rest + 1 else 0

abbrev pub decoded : Option Text → Outcome WorkingError Text → Outcome WorkingError Text
decoded none rest = err invalid_working_model
decoded (some t) (err e) = err e
decoded (some t) (ok u) = ok (t ++ u)

-- encoded[max(0, start - begin) * 2 : (min(stop, end) - begin) * 2], in units
abbrev pub part_of : ℕ → ℕ → ℕ → ℕ → Units → Units
part_of start end begin stop us = drop (start - begin) (take (min stop end - begin) us)

-- The loop over the segments from the first that is in the span. The first failure of the source is
-- met in the same order.
abbrev pub collect_at :
    ℕ → ℕ → Segment → Option Units → Outcome WorkingError Text → Outcome WorkingError Text
collect_at start end s none rest = err protected_working_span
collect_at start end s (some us) rest = decoded (decode (part_of start end s.begin s.stop us)) rest

unfoldable pub collect : ℕ → ℕ → List Segment → Outcome WorkingError Text
collect start end [] = ok []
collect start end (s ∷ ss) =
    let rest = collect start end ss in
    if leb end s.begin then ok [] else collect_at start end s s.text rest

abbrev pub begins : List Segment → List ℕ
begins ss = map (λ s. s.begin) ss

abbrev pub compared : Text → Outcome WorkingError Text → Outcome WorkingError Unit
compared t (err e) = err e
compared t (ok value) = require (same_text value t) working_text_mismatch (ok tt)

abbrev is_empty : Text → Bool
is_empty [] = true
is_empty (c ∷ cs) = false

abbrev pub measured : ℕ → Option Units → Outcome WorkingError Unit → Outcome WorkingError Unit
measured n none rest = err invalid_working_model
measured n (some us) rest = require (n == length us) working_text_mismatch rest

abbrev pub check_placed : WorkingSpan → Option Placed → Outcome WorkingError Unit
check_placed l none = err invalid_working_span
check_placed l (some p) = require (leb l.start l.end && leb l.end p.stop) invalid_working_span (
    if l.start == l.end
    then require (p.start == p.stop && is_empty l.text) invalid_working_span (ok tt)
    else measured (l.end - l.start) (utf16 l.text) (
        compared l.text
          (collect l.start l.end (drop (bisect_right (begins p.segments) l.start - 1) p.segments))))

abbrev pub starts_of : List Placed → List ℕ
starts_of ps = map (λ p. p.start) ps

-- Position -1 is refused.
abbrev pub selected : ℕ → List Placed → Option Placed
selected zero ps = none
selected (suc n) ps = get_elem? ps n

unfoldable pub validate_span : WorkingSpan → List Placed → Outcome WorkingError Unit
validate_span l ps = check_placed l (selected (bisect_right (starts_of ps) l.start) ps)
