-- ===== src/Fields/Working/Review.antt =====
-- backend/app/fields/working_schema.py: the records of a review and what Pydantic checks of each.
use fillable.Common.{
  ℕ, ◌+◌, ◌*◌, Bool, true, false, not, ◌&&◌, ◌||◌, Option, none, some, List, [], ◌∷◌, leb, length,
  is_some, map, Outcome, ok, err,
}
use fillable.Fields.Schema.{Text, FieldType, Reason}
use fillable.Fields.References.{all_distinct}
use fillable.Fields.Model.{model_text}

-- The `ValueError`s of working.py and working_schema.py.
pub data WorkingError : Type 0 where
  shape invalid_working_decision invalid_working_origin duplicate_working_identity : WorkingError
  unbound_working_origin working_model_limit invalid_working_node invalid_working_text :
      WorkingError
  invalid_working_leaf invalid_working_structure invalid_working_control invalid_working_span :
      WorkingError
  working_text_mismatch protected_working_span invalid_working_root stale_working_review :
      WorkingError
  overlapping_working_spans duplicate_working_control working_presence_mismatch : WorkingError
  working_property_mismatch untracked_working_control invalid_working_model : WorkingError

-- `if not test: raise error`, and then the rest.
abbrev pub require :
    {A : Type 0} → Bool → WorkingError → Outcome WorkingError A → Outcome WorkingError A
require true e rest = rest
require false e rest = err e

abbrev pub and_then :
    {A : Type 0} → Outcome WorkingError Unit → Outcome WorkingError A → Outcome WorkingError A
and_then (ok _) rest = rest
and_then (err e) rest = err e

abbrev pub each :
    {A : Type 0} → (A → Outcome WorkingError Unit) → List A → Outcome WorkingError Unit
each f [] = ok tt
each f (x ∷ xs) = and_then (f x) (each f xs)

pub record WorkingSpan : Type 0 where
  pub start : ℕ
  pub end : ℕ
  pub text : Text

pub data Location : Type 0 where
  span : WorkingSpan → Location
  control : ℕ → Location

pub data Decision : Type 0 where
  proposed accepted dismissed : Decision

pub record WorkingItem : Type 0 where
  pub id : ℕ
  pub occurrence_id : ℕ
  pub reason : Reason
  pub source_key : Option Text
  pub context : Text
  pub label : Text
  pub key : Text
  pub type : FieldType
  pub decision : Decision
  pub missing : Bool
  pub location : Location

pub record WorkingReview : Type 0 where
  pub source_version : Option ℕ
  pub items : List WorkingItem

abbrev pub is_control : Location → Bool
is_control (Location.span _) = false
is_control (Location.control _) = true

abbrev is_accepted : Decision → Bool
is_accepted Decision.accepted = true
is_accepted _ = false

abbrev pub same_bool : Bool → Bool → Bool
same_bool true b = b
same_bool false b = not b

-- `native_control` or `manual`
abbrev is_own : Reason → Bool
is_own Reason.native_control = true
is_own Reason.manual = true
is_own _ = false

abbrev max_position : ℕ
max_position = 2 * model_text + 200000

abbrev fits_location : Location → Bool
fits_location (Location.span s) =
    leb s.start max_position && leb s.end max_position && leb (length s.text) 65536
fits_location (Location.control _) = true

abbrev fits_property : Option Text → Bool
fits_property none = true
fits_property (some t) = leb (length t) model_text

-- `WorkingItem` with `shape`.
abbrev pub check_item : WorkingItem → Outcome WorkingError Unit
check_item i =
    require
      (fits_property i.source_key
        && leb (length i.context) 1024
        && leb (length i.label) model_text
        && leb (length i.key) model_text
        && fits_location i.location)
      shape
      (require (same_bool (is_control i.location) (is_accepted i.decision)) invalid_working_decision
        (require (is_control i.location || not (is_own i.reason)) invalid_working_origin (ok tt)))

abbrev all_own : List WorkingItem → Bool
all_own [] = true
all_own (i ∷ is) = is_own i.reason && all_own is

-- `WorkingReview` with `identities`.
unfoldable pub check_review : WorkingReview → Outcome WorkingError Unit
check_review r = require (leb (length r.items) 2000) shape (
    and_then (each check_item r.items) (
      require
        (all_distinct (map (λ i. i.id) r.items)
          && all_distinct (map (λ i. i.occurrence_id) r.items))
        duplicate_working_identity
        (require (is_some r.source_version || all_own r.items) unbound_working_origin (ok tt))))
