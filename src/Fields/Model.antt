-- ===== src/Fields/Model.antt =====
-- `paragraphs` of backend/app/fields/validation.py: the text of each paragraph of a document model,
-- the values of its controls and the ranges that no proposal may touch. A model is a tree; a part
-- that is missing or empty is `none`.
pub mod Budget
pub mod Plain
pub mod Holding
use fillable.Common.{
  ℕ, zero, suc, ◌+◌, ◌*◌, ◌-◌, Bool, true, false, not, ◌&&◌, ◌||◌, Option, none, some, List, [],
  ◌∷◌, ◌++◌, ◌==◌, leb, length, flatten, Outcome, ok, err, if◌then◌else◌,
}
use fillable.Fields.Schema.{
  Text, FieldError, require, field_model_limit, invalid_paragraph_identity,
  duplicate_control_identity,
}

abbrev pub model_nodes : ℕ
model_nodes = 100000

abbrev pub model_text : ℕ
model_text = 50 * 1024 * 1024

-- A child of a paragraph: text, a control with the texts it holds, or another kind with the number
-- of its children.
pub data Inline : Type 0 where
  text : Text → Inline
  field : ℕ → List Text → Inline
  object : ℕ → Inline

-- `block` is a document, a table, a row or a cell; `leaf` is any other kind.
mutual
  pub data Node : Type 0 where
    section : Option ℕ → Nodes → Node
    block : Nodes → Node
    paragraph : ℕ → List Inline → Node
    leaf : Node

  pub data Nodes : Type 0 where
    nil : Nodes
    cons : Node → Nodes → Nodes

-- The triple that `paragraphs` keeps for one of them.
pub record Scan : Type 0 where
  pub text : Text
  pub controls : List (ℕ × Text)
  pub blocked : List (ℕ × ℕ)

abbrev pub control_value : ℕ → List (ℕ × Text) → Option Text
control_value id [] = none
control_value id ((c, v) ∷ cs) = if c == id then some v else control_value id cs

abbrev pub is_known_control : ℕ → List (ℕ × Text) → Bool
is_known_control id [] = false
is_known_control id ((c, v) ∷ cs) = c == id || is_known_control id cs

-- U+FFFC
abbrev pub object_text : Text
object_text = 65532 ∷ []

abbrev pub children_of : Inline → ℕ
children_of (Inline.text t) = 0
children_of (Inline.field id ts) = length ts
children_of (Inline.object n) = n

abbrev pub inline_text : Inline → Text
inline_text (Inline.text t) = t
inline_text (Inline.field id ts) = flatten ts
inline_text (Inline.object n) = object_text

abbrev pub add_child : Scan → Inline → Scan
add_child s (Inline.text t) = record s { text = s.text ++ t }
add_child s (Inline.field id ts) = record {
  text = s.text ++ flatten ts;
  controls = s.controls ++ ((id, flatten ts) ∷ []);
  blocked = s.blocked ++ ((length s.text, length (s.text ++ flatten ts)) ∷ []);
}
add_child s (Inline.object n) = record s {
  text = s.text ++ object_text;
  blocked = s.blocked ++ ((length s.text, length (s.text ++ object_text)) ∷ []);
}

abbrev pub repeats_control : Scan → Inline → Bool
repeats_control s (Inline.field id ts) = is_known_control id s.controls
repeats_control s _ = false

-- `examined`, `characters` and the paragraph, after its children.
unfoldable pub scan : ℕ → ℕ → Scan → List Inline → Outcome FieldError (ℕ × ℕ × Scan)
scan examined characters s [] = ok (examined, characters, s)
scan examined characters s (child ∷ children) =
    let examined' = examined + (1 + children_of child) in
    let characters' = characters + length (inline_text child) in
    require (leb examined' model_nodes) field_model_limit (
      require (not (repeats_control s child)) duplicate_control_identity (
        require (leb characters' model_text) field_model_limit
          (scan examined' characters' (add_child s child) children)))

pub record Known : Type 0 where
  pub part : ℕ
  pub paragraph_id : ℕ
  pub scanned : Scan

abbrev pub known_at : ℕ → ℕ → List Known → Option Scan
known_at part id [] = none
known_at part id (k ∷ ks) =
    if k.part == part && k.paragraph_id == id then some k.scanned else known_at part id ks

abbrev is_known : ℕ → ℕ → List Known → Bool
is_known part id [] = false
is_known part id (k ∷ ks) = k.part == part && k.paragraph_id == id || is_known part id ks

-- `not part or identity in result`
abbrev pub refuses : Option ℕ → ℕ → List Known → Bool
refuses none id known = true
refuses (some part) id known = is_known part id known

abbrev pub empty_scan : Scan
empty_scan = record { text = []; controls = []; blocked = [] }

abbrev pub or_zero : Option ℕ → ℕ
or_zero none = 0
or_zero (some n) = n

abbrev recorded : Option ℕ → ℕ → List Known → ℕ × ℕ × Scan → ℕ × ℕ × List Known
recorded part id known (examined, characters, s) =
    (examined, characters, record { part = or_zero part; paragraph_id = id; scanned = s } ∷ known)

-- The branch of a paragraph; the newest is first in the list.
unfoldable pub read_paragraph :
    ℕ → ℕ → List Known → Option ℕ → ℕ → List Inline → Outcome FieldError (ℕ × ℕ × List Known)
read_paragraph examined characters known part id children =
    require (not (refuses part id known)) invalid_paragraph_identity
      (elim (scan examined characters empty_scan children) [
        | err e ↦ err e
        | ok found ↦ ok (recorded part id known found)
      ])

-- stack.extend(children): the last child is popped first.
abbrev pub push : Option ℕ → Nodes → List (Option ℕ × Node) → List (Option ℕ × Node)
push part nil stack = stack
push part (cons n ns) stack = push part ns ((part, n) ∷ stack)

-- The loop over the stack; the fuel is a bound on the nodes it still pops.
unfoldable pub walk :
    ℕ → ℕ → ℕ → List Known → List (Option ℕ × Node) → Outcome FieldError (List Known)
walk fuel examined characters known [] = ok known
walk zero examined characters known (item ∷ stack) = err field_model_limit
walk (suc fuel) examined characters known ((part, Node.section named children) ∷ stack) =
    require (leb (examined + 1) model_nodes) field_model_limit
      (walk fuel (examined + 1) characters known (push named children stack))
walk (suc fuel) examined characters known ((part, Node.block children) ∷ stack) =
    require (leb (examined + 1) model_nodes) field_model_limit
      (walk fuel (examined + 1) characters known (push part children stack))
walk (suc fuel) examined characters known ((part, Node.paragraph id children) ∷ stack) =
    require (leb (examined + 1) model_nodes) field_model_limit
      (elim (read_paragraph (examined + 1) characters known part id children) [
        | err e ↦ err e
        | ok (examined', characters', known') ↦ walk fuel examined' characters' known' stack
      ])
walk (suc fuel) examined characters known ((part, Node.leaf) ∷ stack) =
    require (leb (examined + 1) model_nodes) field_model_limit
      (walk fuel (examined + 1) characters known stack)

unfoldable pub paragraphs : Node → Outcome FieldError (List Known)
paragraphs model = walk (model_nodes + 1) 0 0 [] ((none, model) ∷ [])
