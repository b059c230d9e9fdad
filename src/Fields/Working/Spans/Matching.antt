-- ===== src/Fields/Working/Spans/Matching.antt =====
-- What the segments that a span collects hold (`validate_span` of backend/app/fields/working.py).
use mathlib.Core.Path.{subst}
use fillable.Common.{
  ℕ, zero, suc, ◌+◌, ◌-◌, ◌≡◌, sym, ap, ◌∙◌, ◌≤◌, refl, Option, none, some, List, [], ◌∷◌, ◌++◌,
  map, min, max, arith, leb, length, length-drop, take, drop, Outcome, ok, err, Bool-cases, inl,
  inr,
}
use fillable.Common.Slices.{
  take-zero, take_nil, drop-zero, drop-suc, take-append, drop-append, drop_all, drop-take,
  take_same, take-map, drop-map, length-map, map-append,
}
use fillable.Fields.Schema.{Text}
use fillable.Fields.Working.Encoding.{Units, utf16, decode, decode-utf16, utf16-append}
use fillable.Fields.Working.Review.{WorkingError}
use fillable.Fields.Working.Tree.{
  Kind, node, Node, Nodes, nil, cons, size, units_at, units_in, Segment, segments_from,
}
use fillable.Fields.Working.Spans.{bisect_right, begins, collect, collect_at, decoded, part_of}

abbrev pub blanks : ℕ → List (Option ℕ)
blanks zero = []
blanks (suc n) = none ∷ blanks n

-- The content of a paragraph by position: a code unit of its own text, or a position of a protected
-- part.
abbrev pub cells_of : ℕ → Option Units → List (Option ℕ)
cells_of n none = blanks n
cells_of n (some us) = map some us

abbrev pub cells : Nodes → List (Option ℕ)
cells nil = []
cells (cons n ns) = cells_of (size n) (units_at n) ++ cells ns

length-blanks : (n : ℕ) → length (blanks n) ≡ n
length-blanks zero = refl
length-blanks (suc n) = ap suc (length-blanks n)

length-cells_of : (n : Node) → length (cells_of (size n) (units_at n)) ≡ size n
unfolding size
length-cells_of (node Kind.text a t ns) = length-map some (units_in t)
length-cells_of (node Kind.doc a t ns) = length-blanks _
length-cells_of (node Kind.section a t ns) = length-blanks _
length-cells_of (node Kind.paragraph a t ns) = length-blanks _
length-cells_of (node Kind.table a t ns) = length-blanks _
length-cells_of (node Kind.table_row a t ns) = length-blanks _
length-cells_of (node Kind.table_cell a t ns) = length-blanks _
length-cells_of (node Kind.field a t ns) = length-blanks _
length-cells_of (node Kind.locked_block a t ns) = length-blanks 1
length-cells_of (node Kind.locked_inline a t ns) = length-blanks 1
length-cells_of (node Kind.checkbox a t ns) = length-blanks 1
length-cells_of (node Kind.other a t ns) = length-blanks _

-- The part of the cells from `start` to `end`, when they begin at `cursor`.
abbrev pub window : ℕ → ℕ → ℕ → List (Option ℕ) → List (Option ℕ)
window start end cursor cs = take (end - max start cursor) (drop (start - cursor) cs)

window-append :
    (start end cursor n : ℕ) (xs ys : List (Option ℕ))
    → length xs ≡ n
    → window start end cursor (xs ++ ys)
      ≡ window start end cursor xs ++ window start end (cursor + n) ys
window-append start end cursor n xs ys h =
    ap (take (end - max start cursor))
      (drop-append (start - cursor) (start - (cursor + n)) xs ys (omega arith))
    ∙ take-append (end - max start cursor) (end - max start (cursor + n)) (drop (start - cursor) xs)
        (drop (start - (cursor + n)) ys) (omega (arith, length-drop (start - cursor) xs))

part_of-window :
    (start end cursor n : ℕ) (us : Units)
    → length us ≡ n
    → map some (part_of start end cursor (cursor + n) us) ≡ window start end cursor (map some us)
part_of-window start end cursor n us h =
    let skip = start - cursor in
    let stop = min (cursor + n) end - cursor in
    let size : length (drop skip (map some us)) ≡ n - skip =
      omega (arith, length-drop skip (map some us), length-map some us) in
    drop-map some skip (take stop us)
    ∙ ap (drop skip) (take-map some stop us)
    ∙ drop-take skip stop (stop - skip) (map some us) refl
    ∙ take_same (stop - skip) (end - max start cursor) (drop skip (map some us))
        (omega (arith, size))

decoded-ok :
    (o : Option Text) (rest : Outcome WorkingError Text) (value : Text)
    → decoded o rest ≡ ok value
    → (t : Text) × (u : Text) × (o ≡ some t) × (rest ≡ ok u) × (t ++ u ≡ value)
decoded-ok none rest value h = cc
decoded-ok (some t) (err e) value h = cc
decoded-ok (some t) (ok u) value h = (t, u, refl, refl, cc)

collect_at-ok :
    (start end : ℕ) (s : Segment) (found : Option Units) (rest : Outcome WorkingError Text)
    (value : Text)
    → collect_at start end s found rest ≡ ok value
    → (us : Units) × (t : Text) × (u : Text) × (found ≡ some us)
      × (utf16 t ≡ some (part_of start end s.begin s.stop us))
      × (rest ≡ ok u)
      × (t ++ u ≡ value)
collect_at-ok start end s none rest value h = cc
collect_at-ok start end s (some us) rest value h =
    let part = part_of start end s.begin s.stop us in
    let (t, u, d, r, e) = decoded-ok (decode part) rest value h in
    (us, t, u, refl, decode-utf16 part t d, r, e)

-- The collected text fills the window, whatever the first segment is.
pub collect-window :
    (start end cursor : ℕ) (ns : Nodes) (value : Text)
    → collect start end (segments_from cursor ns) ≡ ok value
    → (us : Units) × (utf16 value ≡ some us) × (map some us ≡ window start end cursor (cells ns))
unfolding collect
collect-window start end cursor nil value h =
    let e : [] ≡ value = cc in
    (
      [],
      ap utf16 (sym e),
      sym (
          ap (take (end - max start cursor)) (drop_all (start - cursor) [] (omega arith))
          ∙ take_nil (end - max start cursor)),
    )
collect-window start end cursor (cons n ns) value h = elim (Bool-cases (leb end cursor)) [
  | inl past ↦
      let e : [] ≡ value = ground (arith, past) in
      (
        [],
        ap utf16 (sym e),
        sym (
            take-zero (end - max start cursor) (drop (start - cursor) (cells (cons n ns)))
              (ground (arith, past))),
      )
  | inr inside ↦
      let s : Segment = record { begin = cursor; stop = cursor + size n; text = units_at n } in
      let (us, t, u, found, first, rest, same) =
        collect_at-ok start end s (units_at n)
          (collect start end (segments_from (cursor + size n) ns)) value (ground (arith, inside)) in
      let (vs, tail, filled) = collect-window start end (cursor + size n) ns u rest in
      let part = part_of start end cursor (cursor + size n) us in
      let mine : cells_of (size n) (units_at n) ≡ map some us = ap (cells_of (size n)) found in
      let long : length us ≡ size n =
        sym (length-map some us) ∙ ap length (sym mine) ∙ length-cells_of n in
      (
        part ++ vs,
        subst (λ x. utf16 x ≡ some (part ++ vs)) same (utf16-append t u part vs first tail),
        map-append some part vs
            ∙ ap (λ l. l ++ map some vs)
                (part_of-window start end cursor (size n) us long
                  ∙ ap (window start end cursor) (sym mine))
            ∙ ap (λ l. window start end cursor (cells_of (size n) (units_at n)) ++ l) filled
            ∙ sym (
                window-append start end cursor (size n) (cells_of (size n) (units_at n)) (cells ns)
                  (length-cells_of n)),
      )
]

-- Segments that end before the span are skipped without harm.
pub skipped-window :
    (start end cursor : ℕ) (ns : Nodes)
    → cursor ≤ start
    → (cursor' : ℕ) × (ns' : Nodes) × (drop
          (bisect_right (begins (segments_from cursor ns)) start - 1)
          (segments_from cursor ns)
        ≡ segments_from cursor' ns')
      × (window start end cursor' (cells ns') ≡ window start end cursor (cells ns))
skipped-window start end cursor nil l = (cursor, nil, refl, refl)
skipped-window start end cursor (cons n nil) l = (
  cursor,
  cons n nil,
  drop-zero (bisect_right (cursor ∷ []) start - 1) (segments_from cursor (cons n nil))
      (ground (arith, l)),
  refl,
)
skipped-window start end cursor (cons n (cons m ns)) l =
    elim (Bool-cases (leb (cursor + size n) start)) [
      | inr first ↦ (
        cursor,
        cons n (cons m ns),
        drop-zero (bisect_right (begins (segments_from cursor (cons n (cons m ns)))) start - 1)
            (segments_from cursor (cons n (cons m ns))) (ground (arith, l, first)),
        refl,
      )
      | inl later ↦
          let (cursor', ns', same, equal) =
            skipped-window start end (cursor + size n) (cons m ns) (ground (arith, later)) in
          let rest = bisect_right (begins (segments_from (cursor + size n) (cons m ns))) start in
          let here : Segment = record {
            begin = cursor;
            stop = cursor + size n;
            text = units_at n;
          } in
          (
            cursor',
            ns',
            drop-suc (bisect_right (begins (segments_from cursor (cons n (cons m ns)))) start - 1)
                  (rest - 1) here (segments_from (cursor + size n) (cons m ns))
                  (ground (arith, l, later))
                ∙ same,
            equal
                ∙ sym (
                    window-append start end cursor (size n) (cells_of (size n) (units_at n))
                      (cells (cons m ns)) (length-cells_of n)
                    ∙ ap (λ xs. xs ++ window start end (cursor + size n) (cells (cons m ns)))
                        (ap (take (end - max start cursor)) (
                            drop_all (start - cursor) (cells_of (size n) (units_at n))
                              (ground (arith, length-cells_of n, later)))
                          ∙ take_nil (end - max start cursor))),
          )
    ]
