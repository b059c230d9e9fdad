-- ===== src/Fields/Rebase.antt =====
-- `rebase_discovery` of backend/app/documents/rebase.py: the proposals of a document moved to its copy.
pub mod Copied
mod Runs
use fillable.Common.{ℕ, Option, none, some, List, [], ◌∷◌, Outcome, ok, err}
use fillable.Fields.Schema.{Anchor, Occurrence, FieldSnapshot, FieldError, unknown_identity}
use fillable.Fields.Model.{Node}
use fillable.Fields.Validation.{validate_snapshot}

-- `identities` of a paragraph or a control; a missing one raises a `KeyError`.
abbrev pub Identities : Type 0
Identities = ℕ → Option ℕ

abbrev placed_control : ℕ → Option ℕ → Option ℕ → Option Anchor
placed_control part none _ = none
placed_control part (some p) none = none
placed_control part (some p) (some c) = some (Anchor.control part p c)

abbrev placed_span : ℕ → ℕ → ℕ → Option ℕ → Option Anchor
placed_span part start end none = none
placed_span part start end (some p) = some (Anchor.span part p start end)

abbrev pub moved_anchor : Identities → Anchor → Option Anchor
moved_anchor identities (Anchor.control part paragraph_id control_id) =
    placed_control part (identities paragraph_id) (identities control_id)
moved_anchor identities (Anchor.span part paragraph_id start end) =
    placed_span part start end (identities paragraph_id)

abbrev pub moved_to : Occurrence → Option Anchor → Option Occurrence
moved_to o none = none
moved_to o (some a) = some (record o { anchor = a })

abbrev pub joined : Option Occurrence → Option (List Occurrence) → Option (List Occurrence)
joined none _ = none
joined (some o) none = none
joined (some o) (some os) = some (o ∷ os)

abbrev pub moved : Identities → List Occurrence → Option (List Occurrence)
moved identities [] = some []
moved identities (o ∷ os) =
    joined (moved_to o (moved_anchor identities o.anchor)) (moved identities os)

abbrev pub checked_at :
    ℕ → Node → FieldSnapshot → Option (List Occurrence) → Outcome FieldError FieldSnapshot
checked_at target_version target s none = err unknown_identity
checked_at target_version target s (some occurrences) =
    validate_snapshot (record s { source_version_id = target_version; occurrences = occurrences })
      target_version target

unfoldable pub rebase_discovery :
    FieldSnapshot → ℕ → Node → ℕ → Node → Identities → Outcome FieldError FieldSnapshot
rebase_discovery snapshot source_version source target_version target identities =
    elim (validate_snapshot snapshot source_version source) [
      | err e ↦ err e
      | ok s ↦ checked_at target_version target s (moved identities s.occurrences)
    ]
