-- ===== src/Fields/Working/Spans/Accepting.antt =====
-- What a span that `validate_span` (backend/app/fields/working.py) accepts selects.
use mathlib.Core.Path.{subst}
use fillable.Common.{
  ℕ, zero, suc, ◌-◌, ◌≡◌, sym, ap, ◌∙◌, ◌≤◌, ◌<◌, refl, Option, none, some, List, [], ◌∷◌, map, max,
  arith, length, take, drop, get_elem?, All-get_elem?, Outcome, ok, err, Option-cases, inl, inr,
}
use fillable.Fields.Schema.{Text}
use fillable.Fields.Validation.Ranges.{same_text-≡}
use fillable.Fields.Working.Encoding.{Units, utf16}
use fillable.Fields.Working.Review.{WorkingError, WorkingSpan}
use fillable.Fields.Working.Tree.{Node, Nodes, Placed, Index, index, segments_from}
use fillable.Fields.Working.Tree.Standing.{Stands, IsPlaced, index-IsPlaced}
use fillable.Fields.Working.Spans.{
  bisect_right, begins, collect, compared, measured, check_placed, selected, starts_of,
  validate_span,
}
use fillable.Fields.Working.Spans.Matching.{cells, collect-window, skipped-window}

-- The entry before the insertion point is not greater.
bisect_right-≤ :
    (ps : List Placed) (x n : ℕ) (p : Placed)
    → bisect_right (starts_of ps) x ≡ suc n
    → get_elem? ps n ≡ some p
    → p.start ≤ x
bisect_right-≤ [] x n p h e = cc
bisect_right-≤ (q ∷ ps) x zero p h e = ground arith
bisect_right-≤ (q ∷ ps) x (suc n) p h e = bisect_right-≤ ps x n p (ground arith) e

selected-get_elem? :
    (ps : List Placed) (x n : ℕ) (p : Placed)
    → bisect_right (starts_of ps) x ≡ n
    → selected n ps ≡ some p
    → (k : ℕ) × (get_elem? ps k ≡ some p) × (p.start ≤ x)
selected-get_elem? ps x zero p h e = cc
selected-get_elem? ps x (suc k) p h e = (k, e, bisect_right-≤ ps x k p h e)

compared-ok : (t : Text) (o : Outcome WorkingError Text) → compared t o ≡ ok tt → o ≡ ok t
compared-ok t (err e) h = cc
compared-ok t (ok value) h = ap ok (same_text-≡ value t (ground arith))

measured-ok :
    (n : ℕ) (o : Option Units) (rest : Outcome WorkingError Unit)
    → measured n o rest ≡ ok tt
    → (us : Units) × (o ≡ some us) × (n ≡ length us) × (rest ≡ ok tt)
measured-ok n none rest h = cc
measured-ok n (some us) rest h = (us, refl, ground arith, ground arith)

-- When the index of a document succeeds and `validate_span` accepts a span that is not empty, the
-- span starts in the content of a paragraph of the document that stands at that position, every
-- position of it is the paragraph's own text, and the UTF-16 units there are those of the span's
-- text.
pub validate_span-matches :
    (model : Node) (i : Index) (l : WorkingSpan)
    → index model ≡ ok i
    → validate_span l i.paragraphs ≡ ok tt
    → l.start < l.end
    → (start : ℕ) × (content : Nodes) × (us : Units) × Stands start content 0 model
      × (start ≤ l.start)
      × (utf16 l.text ≡ some us)
      × (length us ≡ l.end - l.start)
      × (take (l.end - l.start) (drop (l.start - start) (cells content)) ≡ map some us)
unfolding validate_span
validate_span-matches model i l placed accepted wide =
    elim (Option-cases (selected (bisect_right (starts_of i.paragraphs) l.start) i.paragraphs)) [
      | inl missing ↦ absurd (ground (arith, missing))
      | inr (p, chosen) ↦
          let (k, at, before) =
            selected-get_elem? i.paragraphs l.start (bisect_right (starts_of i.paragraphs) l.start)
              p refl chosen in
          let checked : check_placed l (some p) ≡ ok tt =
            subst (λ o. check_placed l o ≡ ok tt) chosen accepted in
          let found = drop (bisect_right (begins p.segments) l.start - 1) p.segments in
          let inner : measured (l.end - l.start) (utf16 l.text)
                (compared l.text (collect l.start l.end found))
              ≡ ok tt =
            ground (arith, checked, wide) in
          let (us, encoded, long, same) =
            measured-ok (l.end - l.start) (utf16 l.text)
              (compared l.text (collect l.start l.end found)) inner in
          let (content, stands, stop, segments) =
            All-get_elem? (IsPlaced (λ start content. Stands start content 0 model)) i.paragraphs k
              (index-IsPlaced model i placed) at in
          let (cursor, rest, skipped, equal) =
            skipped-window l.start l.end p.start content before in
          let went : collect l.start l.end (segments_from cursor rest) ≡ ok l.text =
            ap (collect l.start l.end) (
              sym skipped
              ∙ ap (λ ss. drop (bisect_right (begins ss) l.start - 1) ss) (sym segments))
            ∙ compared-ok l.text (collect l.start l.end found) same in
          let (vs, encodes, fills) = collect-window l.start l.end cursor rest l.text went in
          let one : vs ≡ us = ground (arith, encoded, encodes) in
          let width : max l.start p.start ≡ l.start = omega arith in
          (
            p.start,
            content,
            us,
            stands,
            before,
            encoded,
            sym long,
            ap (λ m. take (l.end - m) (drop (l.start - p.start) (cells content))) (sym width)
                ∙ sym equal
                ∙ sym fills
                ∙ ap (map some) one,
          )
    ]
