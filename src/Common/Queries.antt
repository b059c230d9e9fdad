-- ===== src/Common/Queries.antt =====
-- SELECT over a whole table: WHERE, ORDER BY a numeric column, and a page after a cursor.
use Prim.Native.Nat.{ℕ, ◌+◌, ◌-◌}
use mathlib.Core.Bool.{Bool, true}
use mathlib.Core.Option.{Option, none, some}
use mathlib.Core.List.{List, [], ◌∷◌}
use fillable.Common.Tests.{leb, ltb, if◌then◌else◌}
use fillable.Common.Lists.{take, length, get_elem?}

module _ {A : Type 0} where
  abbrev pub where_rows : (A → Bool) → List A → List A
  where_rows p [] = []
  where_rows p (r ∷ rs) = let rest = where_rows p rs in if p r then r ∷ rest else rest

  module _ (key : A → ℕ) where
    abbrev pub put_by : A → List A → List A
    put_by r [] = r ∷ []
    put_by r (x ∷ xs) =
        let rest = put_by r xs in if leb (key r) (key x) then r ∷ x ∷ xs else x ∷ rest

    abbrev pub order_by : List A → List A
    order_by [] = []
    order_by (r ∷ rs) = put_by r (order_by rs)

    abbrev pub is_after : Option ℕ → A → Bool
    is_after none r = true
    is_after (some cursor) r = ltb cursor (key r)

    -- ORDER BY key LIMIT batch + 1, after the cursor
    abbrev pub page : Option ℕ → ℕ → List A → List A
    page after batch rows = take (batch + 1) (order_by (where_rows (is_after after) rows))

    -- The key of the last row of the batch, when the page has one row more.
    abbrev pub cursor_of : Option A → Option ℕ
    cursor_of none = none
    cursor_of (some r) = some (key r)

    abbrev pub next_cursor : ℕ → List A → Option ℕ
    next_cursor batch rows =
        if ltb batch (length rows) then cursor_of (get_elem? rows (batch - 1)) else none
