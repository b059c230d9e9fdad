-- ===== src/Fields/Schema.antt =====
-- The proposals of backend/app/fields/schema.py and what Pydantic checks of each. Identities are
-- opaque and compared only, so they are numbers; texts are lists of code points.
use fillable.Common.{
  ℕ, ◌*◌, Bool, true, false, not, ◌&&◌, Option, none, some, List, [], ◌∷◌, leb, length, is_some,
  Outcome, ok, err,
}

abbrev pub Text : Type 0
Text = List ℕ

pub data FieldType : Type 0 where
  text number date : FieldType

pub data Anchor : Type 0 where
  control : (part paragraph_id control_id : ℕ) → Anchor
  span : (part paragraph_id start end : ℕ) → Anchor

pub record Occurrence : Type 0 where
  pub id : ℕ
  pub anchor : Anchor
  pub value : Text

pub record TextField : Type 0 where
  pub id : ℕ
  pub type : FieldType
  pub label : Text
  pub occurrence_ids : List ℕ

pub data Reason : Type 0 where
  native_control placeholder blank_line blank_cell manual : Reason

pub record Candidate : Type 0 where
  pub id : ℕ
  pub occurrence_id : ℕ
  pub label : Text
  pub source_key : Option Text
  pub reason : Reason
  pub context : Text
  pub type : FieldType

pub data ReviewStatus : Type 0 where
  accepted dismissed : ReviewStatus

pub record ReviewDecision : Type 0 where
  pub candidate_id : ℕ
  pub status : ReviewStatus
  pub field_id : Option ℕ

pub record FieldSnapshot : Type 0 where
  pub source_version_id : ℕ
  pub fields : List TextField
  pub occurrences : List Occurrence
  pub candidates : List Candidate
  pub decisions : List ReviewDecision

-- The `ValueError` of each check, by its text; `shape` is a value that Pydantic refuses, and
-- `unknown_identity` the `KeyError` of a rebase.
pub data FieldError : Type 0 where
  shape invalid_field_range invalid_review_assignment : FieldError
  duplicate_field_identity invalid_field_occurrences invalid_candidate_occurrence : FieldError
  invalid_candidate_anchor duplicate_review_decision unknown_review_candidate : FieldError
  invalid_review_field dismissed_field_occurrence : FieldError
  field_model_limit invalid_paragraph_identity duplicate_control_identity : FieldError
  stale_field_snapshot unknown_field_anchor unknown_field_control : FieldError
  duplicate_field_anchor overlapping_field_anchors field_text_mismatch unknown_identity : FieldError

abbrev pub Check : Type 0
Check = Outcome FieldError Unit

-- `if not test: raise error`, and then the rest.
abbrev pub require : {A : Type 0} → Bool → FieldError → Outcome FieldError A → Outcome FieldError A
require true e rest = rest
require false e rest = err e

abbrev pub and_then : {A : Type 0} → Check → Outcome FieldError A → Outcome FieldError A
and_then (ok _) rest = rest
and_then (err e) rest = err e

abbrev pub each : {A : Type 0} → (A → Check) → List A → Check
each f [] = ok tt
each f (x ∷ xs) = and_then (f x) (each f xs)

abbrev pub max_items : ℕ
max_items = 2000

abbrev max_offset : ℕ
max_offset = 50 * 1024 * 1024

-- `SpanAnchor` with its `Offset`s and `ordered`.
abbrev pub check_anchor : Anchor → Check
check_anchor (Anchor.control part paragraph_id control_id) = ok tt
check_anchor (Anchor.span part paragraph_id start end) =
    require (leb start max_offset && leb end max_offset) shape
      (require (leb start end) invalid_field_range (ok tt))

abbrev pub check_occurrence : Occurrence → Check
check_occurrence o =
    and_then (check_anchor o.anchor) (require (leb (length o.value) 65536) shape (ok tt))

abbrev pub check_field : TextField → Check
check_field f =
    require
      (leb (length f.label) 512
        && leb 1 (length f.occurrence_ids)
        && leb (length f.occurrence_ids) max_items)
      shape (ok tt)

abbrev optional_within : ℕ → Option Text → Bool
optional_within n none = true
optional_within n (some t) = leb (length t) n

abbrev pub check_candidate : Candidate → Check
check_candidate c =
    require
      (leb (length c.label) 512 && optional_within 512 c.source_key && leb (length c.context) 1024)
      shape (ok tt)

abbrev pub is_accepted : ReviewStatus → Bool
is_accepted ReviewStatus.accepted = true
is_accepted ReviewStatus.dismissed = false

abbrev same_bool : Bool → Bool → Bool
same_bool true b = b
same_bool false b = not b

-- `assigned`
abbrev pub check_decision : ReviewDecision → Check
check_decision d =
    require (same_bool (is_accepted d.status) (is_some d.field_id)) invalid_review_assignment
      (ok tt)

unfoldable pub check_items : FieldSnapshot → Check
check_items s =
    require
      (leb (length s.fields) max_items
        && leb (length s.occurrences) max_items
        && leb (length s.candidates) max_items
        && leb (length s.decisions) max_items)
      shape
      (and_then (each check_field s.fields) (
        and_then (each check_occurrence s.occurrences)
          (and_then (each check_candidate s.candidates) (each check_decision s.decisions))))
