-- ===== src/Fields/References.antt =====
-- `FieldSnapshot.references` of backend/app/fields/schema.py.
pub mod Assigned
use fillable.Common.{
  ℕ, ◌+◌, Bool, true, false, not, ◌&&◌, ◌||◌, Option, none, some, List, [], ◌∷◌, ◌==◌, length,
  flatten, map, Outcome, ok, err, if◌then◌else◌,
}
use fillable.Common.Table.{find}
use fillable.Fields.Schema.{
  Anchor, Occurrence, TextField, Candidate, Reason, ReviewDecision, FieldSnapshot, FieldError,
  Check, require, and_then, each, is_accepted, duplicate_field_identity, invalid_field_occurrences,
  invalid_candidate_occurrence, invalid_candidate_anchor, duplicate_review_decision,
  unknown_review_candidate, invalid_review_field, dismissed_field_occurrence,
}

abbrev pub member : ℕ → List ℕ → Bool
member x [] = false
member x (y ∷ ys) = y == x || member x ys

-- `set(xs)` as the list of its elements.
abbrev pub as_set : List ℕ → List ℕ
as_set [] = []
as_set (x ∷ xs) = let rest = as_set xs in if member x xs then rest else x ∷ rest

-- len(set(xs)) == len(xs)
abbrev pub all_distinct : List ℕ → Bool
all_distinct xs = length (as_set xs) == length xs

-- set(xs) <= ys
abbrev pub is_subset : List ℕ → List ℕ → Bool
is_subset [] ys = true
is_subset (x ∷ xs) ys = member x ys && is_subset xs ys

abbrev pub field_key : TextField → ℕ
field_key f = f.id

abbrev pub occurrence_key : Occurrence → ℕ
occurrence_key o = o.id

abbrev pub candidate_key : Candidate → ℕ
candidate_key c = c.id

abbrev pub assigned : List TextField → List ℕ
assigned fields = flatten (map (λ f. f.occurrence_ids) fields)

abbrev pub proposed : List Candidate → List ℕ
proposed candidates = map (λ c. c.occurrence_id) candidates

abbrev pub decided : List ReviewDecision → List ℕ
decided decisions = map (λ d. d.candidate_id) decisions

abbrev is_control : Anchor → Bool
is_control (Anchor.control _ _ _) = true
is_control (Anchor.span _ _ _ _) = false

abbrev pub anchor_fits : Reason → Anchor → Bool
anchor_fits Reason.native_control a = is_control a
anchor_fits Reason.manual a = true
anchor_fits Reason.placeholder a = not (is_control a)
anchor_fits Reason.blank_line a = not (is_control a)
anchor_fits Reason.blank_cell a = not (is_control a)

abbrev fits_row : Reason → Option Occurrence → Bool
fits_row reason none = false
fits_row reason (some o) = anchor_fits reason o.anchor

abbrev pub check_candidate_anchor : List Occurrence → Candidate → Check
check_candidate_anchor occurrences c =
    require (fits_row c.reason (find occurrence_key c.occurrence_id occurrences))
      invalid_candidate_anchor (ok tt)

abbrev holds_occurrence : ℕ → Option TextField → Bool
holds_occurrence occurrence none = false
holds_occurrence occurrence (some f) = member occurrence f.occurrence_ids

abbrev field_of : List TextField → Option ℕ → Option TextField
field_of fields none = none
field_of fields (some id) = find field_key id fields

abbrev reviewed : List TextField → ReviewDecision → Option Candidate → Check
reviewed fields d none = err unknown_review_candidate
reviewed fields d (some c) =
    if is_accepted d.status
    then require (holds_occurrence c.occurrence_id (field_of fields d.field_id))
        invalid_review_field (ok tt)
    else require (not (member c.occurrence_id (assigned fields))) dismissed_field_occurrence (ok tt)

abbrev pub check_review : FieldSnapshot → ReviewDecision → Check
check_review s d = reviewed s.fields d (find candidate_key d.candidate_id s.candidates)

unfoldable pub references : FieldSnapshot → Check
references s =
    let occurrences = map occurrence_key s.occurrences in
    require
      (all_distinct (map field_key s.fields)
        && all_distinct occurrences
        && all_distinct (map candidate_key s.candidates))
      duplicate_field_identity
      (require (all_distinct (assigned s.fields) && is_subset (assigned s.fields) occurrences)
        invalid_field_occurrences
        (require
          (all_distinct (proposed s.candidates) && is_subset (proposed s.candidates) occurrences)
          invalid_candidate_occurrence
          (and_then (each (check_candidate_anchor s.occurrences) s.candidates) (
            require (all_distinct (decided s.decisions)) duplicate_review_decision
              (each (check_review s) s.decisions)))))
