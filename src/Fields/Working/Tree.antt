-- ===== src/Fields/Working/Tree.antt =====
-- `index` of backend/app/fields/working.py: the checks of a ProseMirror tree, the positions of its
-- paragraphs and the attributes of its controls.
pub mod Standing
use fillable.Common.{
  ℕ, ◌+◌, Bool, true, false, not, ◌&&◌, ◌||◌, Option, none, some, List, [], ◌∷◌, ◌++◌, ◌==◌, leb,
  length, is_some, Outcome, ok, err, if◌then◌else◌,
}
use fillable.Fields.Schema.{Text}
use fillable.Fields.Model.{model_nodes}
use fillable.Fields.Working.Encoding.{Units, utf16}
use fillable.Fields.Working.Review.{
  WorkingError, require, working_model_limit, invalid_working_node, invalid_working_text,
  invalid_working_leaf, invalid_working_structure, invalid_working_control, invalid_working_model,
}

-- The names of CONTAINERS and LEAVES, text, and any other.
pub data Kind : Type 0 where
  doc section paragraph table table_row table_cell field : Kind
  locked_block locked_inline checkbox : Kind
  text other : Kind

-- What the code reads of `attrs`; `none` is a value that is missing or of another type. For a
-- checkbox, `exact` says that there are no other keys and that `checked` is a Boolean.
pub record Attrs : Type 0 where
  pub id : Option ℕ
  pub label : Option Text
  pub key : Option Text
  pub exact : Bool

mutual
  pub data Node : Type 0 where
    node : Kind → Attrs → Text → Nodes → Node

  pub data Nodes : Type 0 where
    nil : Nodes
    cons : Node → Nodes → Nodes

abbrev pub kind_of : Node → Kind
kind_of (node k _ _ _) = k

abbrev is_text : Kind → Bool
is_text Kind.text = true
is_text _ = false

-- CHILDREN
abbrev allows : Kind → Kind → Bool
allows Kind.doc Kind.section = true
allows Kind.section Kind.paragraph = true
allows Kind.section Kind.table = true
allows Kind.section Kind.locked_block = true
allows Kind.paragraph Kind.text = true
allows Kind.paragraph Kind.field = true
allows Kind.paragraph Kind.locked_inline = true
allows Kind.paragraph Kind.checkbox = true
allows Kind.table Kind.table_row = true
allows Kind.table_row Kind.table_cell = true
allows Kind.table_cell Kind.paragraph = true
allows Kind.table_cell Kind.table = true
allows Kind.table_cell Kind.locked_block = true
allows Kind.field Kind.text = true
allows _ _ = false

abbrev all_allowed : Kind → Nodes → Bool
all_allowed k nil = true
all_allowed k (cons n ns) = allows k (kind_of n) && all_allowed k ns

abbrev is_nil : Nodes → Bool
is_nil nil = true
is_nil (cons _ _) = false

abbrev pub units_in : Text → Units
units_in t = elim (utf16 t) [ none ↦ [] | some us ↦ us ]

-- `sizes`
unfoldable mutual
  pub size : Node → ℕ
  size (node Kind.text _ t _) = length (units_in t)
  size (node Kind.locked_block _ _ _) = 1
  size (node Kind.locked_inline _ _ _) = 1
  size (node Kind.checkbox _ _ _) = 1
  size (node Kind.doc _ _ ns) = sizes ns
  size (node _ _ _ ns) = sizes ns + 2

  pub sizes : Nodes → ℕ
  sizes nil = 0
  sizes (cons n ns) = size n + sizes ns

-- What the first loop asks of a node. A text that UTF-16 cannot hold raises a `UnicodeError`; text
-- and leaves have no children.
abbrev pub check_kind : Kind → Attrs → Text → Nodes → Outcome WorkingError Unit
check_kind Kind.text attrs t ns =
    require (is_nil ns && leb 1 (length t)) invalid_working_text
      (require (is_some (utf16 t)) invalid_working_model (ok tt))
check_kind Kind.locked_block attrs t ns = require (is_nil ns) invalid_working_leaf (ok tt)
check_kind Kind.locked_inline attrs t ns = require (is_nil ns) invalid_working_leaf (ok tt)
check_kind Kind.checkbox attrs t ns =
    require (is_nil ns && attrs.exact && is_some attrs.id) invalid_working_leaf (ok tt)
check_kind Kind.other attrs t ns = err invalid_working_node
check_kind k attrs t ns = require (all_allowed k ns) invalid_working_structure (ok tt)

-- The first loop: the answer is `examined`.
unfoldable mutual
  pub check_node : ℕ → Node → Outcome WorkingError ℕ
  check_node examined (node k attrs t ns) =
      require (leb (examined + 1) model_nodes) working_model_limit
        (elim (check_kind k attrs t ns) [ err e ↦ err e | ok _ ↦ check_nodes (examined + 1) ns ])

  pub check_nodes : ℕ → Nodes → Outcome WorkingError ℕ
  check_nodes examined nil = ok examined
  check_nodes examined (cons n ns) = elim (check_node examined n) [
    | err e ↦ err e
    | ok examined' ↦ check_nodes examined' ns
  ]

pub record Segment : Type 0 where
  pub begin : ℕ
  pub stop : ℕ
  pub text : Option Units

pub record Placed : Type 0 where
  pub start : ℕ
  pub stop : ℕ
  pub segments : List Segment

-- texts.get(id(child))
abbrev pub units_at : Node → Option Units
units_at (node Kind.text _ t _) = some (units_in t)
units_at _ = none

abbrev pub segments_from : ℕ → Nodes → List Segment
segments_from cursor nil = []
segments_from cursor (cons n ns) =
    record { begin = cursor; stop = cursor + size n; text = units_at n }
    ∷ segments_from (cursor + size n) ns

-- `paragraphs` and `controls`, the newest control first.
pub record Index : Type 0 where
  pub paragraphs : List Placed
  pub controls : List (ℕ × Attrs)

abbrev pub is_listed : ℕ → List (ℕ × Attrs) → Bool
is_listed id [] = false
is_listed id ((c, attrs) ∷ cs) = c == id || is_listed id cs

abbrev all_text : Nodes → Bool
all_text nil = true
all_text (cons n ns) = is_text (kind_of n) && all_text ns

abbrev add_control : Option ℕ → Attrs → Nodes → Index → Outcome WorkingError Index
add_control none attrs ns i = err invalid_working_control
add_control (some id) attrs ns i =
    require (not (is_listed id i.controls) && all_text ns) invalid_working_control
      (ok (record i { controls = (id, attrs) ∷ i.controls }))

abbrev add_paragraph : ℕ → Nodes → Index → Index
add_paragraph start ns i = record i {
  paragraphs =
      i.paragraphs
      ++ (record { start = start; stop = start + sizes ns; segments = segments_from start ns }
          ∷ []);
}

-- What the second loop does at a node whose content starts at `start`.
abbrev visit_kind : ℕ → Kind → Attrs → Nodes → Index → Outcome WorkingError Index
visit_kind start Kind.paragraph attrs ns i = ok (add_paragraph start ns i)
visit_kind start Kind.field attrs ns i = add_control attrs.id attrs ns i
visit_kind start _ attrs ns i = ok i

abbrev pub content_start : Kind → ℕ → ℕ
content_start Kind.doc position = position
content_start _ position = position + 1

unfoldable mutual
  pub visit : ℕ → Node → Index → Outcome WorkingError Index
  visit position (node k attrs t ns) i = elim (visit_kind (content_start k position) k attrs ns i) [
    | err e ↦ err e
    | ok i' ↦ visit_all (content_start k position) ns i'
  ]

  pub visit_all : ℕ → Nodes → Index → Outcome WorkingError Index
  visit_all position nil i = ok i
  visit_all position (cons n ns) i = elim (visit position n i) [
    | err e ↦ err e
    | ok i' ↦ visit_all (position + size n) ns i'
  ]

unfoldable pub index : Node → Outcome WorkingError Index
index model = elim (check_node 0 model) [
  | err e ↦ err e
  | ok _ ↦ visit 0 model (record { paragraphs = []; controls = [] })
]
