-- ===== src/Fields/Validation/Spans.antt =====
-- What the occurrences that `validate_snapshot` (backend/app/fields/validation.py) accepts satisfy.
use mathlib.Core.Path.{subst}
use fillable.Common.{
  Outcome-cases, ℕ, zero, suc, ◌≡◌, sym, ap, ◌∙◌, ◌≤◌, ◌<◌, refl, false, Option, none, some, List,
  [], ◌∷◌, All, All-get_elem?, get_elem?, arith, Outcome, ok, err, inl, inr, ◌⊎◌,
}
use fillable.Fields.Schema.{FieldError, Text, Anchor, Occurrence, FieldSnapshot, Check, and_then}
use fillable.Fields.Model.{Node, Inline, Scan, Known, known_at, paragraphs}
use fillable.Fields.Model.Plain.{paragraph_text}
use fillable.Fields.Model.Holding.{Holds, paragraphs-Recorded}
use fillable.Fields.Validation.{
  part_of, paragraph_of, is_seen, out_of_range, slice, value_at, Interval, is_overlapping, placed,
  check_value, check_scan, check_anchors, validate_snapshot,
}
use fillable.Fields.Validation.Ranges.{AllPlain, in_range-AllPlain, known_at-Recorded, same_text-≡}

-- An occurrence whose anchor was found with its value.
abbrev Settled : List Known → Occurrence → Type 0
Settled known o =
    (s : Scan) × (known_at (part_of o.anchor) (paragraph_of o.anchor) known ≡ some s)
    × (value_at s o.anchor ≡ ok o.value)

-- An anchor that neither repeats a key nor overlaps an interval.
abbrev IsClear : List Anchor → List Interval → Occurrence → Type 0
IsClear seen spans o = (is_seen o.anchor seen ≡ false) × (is_overlapping o.anchor spans ≡ false)

check_value-ok :
    (seen : List Anchor) (spans : List Interval) (o : Occurrence) (value : Outcome FieldError Text)
    → check_value seen spans o value ≡ ok tt
    → (value ≡ ok o.value) × IsClear seen spans o
check_value-ok seen spans o (err e) h = cc
check_value-ok seen spans o (ok value) h = ground (arith, same_text-≡ o.value value)

check_scan-ok :
    (seen : List Anchor) (spans : List Interval) (o : Occurrence) (found : Option Scan)
    → check_scan seen spans o found ≡ ok tt
    → ((s : Scan) × (found ≡ some s) × (value_at s o.anchor ≡ ok o.value)) × IsClear seen spans o
check_scan-ok seen spans o none h = cc
check_scan-ok seen spans o (some s) h =
    let (same, clear) = check_value-ok seen spans o (value_at s o.anchor) h in
    ((s, refl, same), clear)

and_then-ok :
    {A : Type 0} (c : Check) (rest : Outcome FieldError A) (x : A)
    → and_then c rest ≡ ok x
    → (c ≡ ok tt) × (rest ≡ ok x)
and_then-ok (ok tt) rest x h = (refl, h)
and_then-ok (err e) rest x h = cc

is_overlapping-placed :
    (a b : Anchor) (spans : List Interval)
    → is_overlapping a (placed b spans) ≡ false
    → is_overlapping a spans ≡ false
is_overlapping-placed (Anchor.control p i c) b spans h = refl
is_overlapping-placed (Anchor.span p i s e) (Anchor.control p' i' c) spans h = h
is_overlapping-placed (Anchor.span p i s e) (Anchor.span p' i' s' e') spans h = ground arith

fewer-IsClear :
    (a : Anchor) (seen : List Anchor) (spans : List Interval) (os : List Occurrence)
    → All (IsClear (a ∷ seen) (placed a spans)) os
    → All (IsClear seen spans) os
fewer-IsClear a seen spans [] h = tt
fewer-IsClear a seen spans (o ∷ os) ((s, v), h) =
    ((ground arith, is_overlapping-placed o.anchor a spans v), fewer-IsClear a seen spans os h)

check_anchors-ok :
    (known : List Known) (seen : List Anchor) (spans : List Interval) (os : List Occurrence)
    → check_anchors known seen spans os ≡ ok tt
    → All (Settled known) os × All (IsClear seen spans) os
unfolding check_anchors
check_anchors-ok known seen spans [] h = (tt, tt)
check_anchors-ok known seen spans (o ∷ os) h =
    let (now, later) =
      and_then-ok
        (check_scan seen spans o (known_at (part_of o.anchor) (paragraph_of o.anchor) known))
        (check_anchors known (o.anchor ∷ seen) (placed o.anchor spans) os) tt h in
    let (settled, clear) =
      check_scan-ok seen spans o (known_at (part_of o.anchor) (paragraph_of o.anchor) known) now in
    let (rest, clears) =
      check_anchors-ok known (o.anchor ∷ seen) (placed o.anchor spans) os later in
    ((settled, rest), (clear, fewer-IsClear o.anchor seen spans os clears))

-- Two anchors that differ, whose ranges are disjoint when they are of one paragraph.
abbrev pub IsApart : Anchor → Anchor → Type 0
IsApart (Anchor.span p i s e) (Anchor.span p' i' s' e') =
    (p ≡ p' → i ≡ i' → (e ≤ s') ⊎ (e' ≤ s)) × ¬ ((p ≡ p') × (i ≡ i') × (s ≡ s') × (e ≡ e'))
IsApart (Anchor.control p i c) (Anchor.control p' i' c') = ¬ ((p ≡ p') × (i ≡ i') × (c ≡ c'))
IsApart _ _ = Unit

IsClear-IsApart :
    (a : Anchor) (b : Occurrence) (seen : List Anchor) (spans : List Interval)
    → IsClear (a ∷ seen) (placed a spans) b
    → IsApart a b.anchor
IsClear-IsApart a b seen spans (s, v) = apart a b.anchor s v
  where
    apart :
        (a b : Anchor)
        → is_seen b (a ∷ seen) ≡ false
        → is_overlapping b (placed a spans) ≡ false
        → IsApart a b
    apart (Anchor.control p i c) (Anchor.control p' i' c') s v = λ e. ground (arith, e)
    apart (Anchor.control p i c) (Anchor.span p' i' s' e') s v = tt
    apart (Anchor.span p i s e) (Anchor.control p' i' c') x v = tt
    apart (Anchor.span p i s e) (Anchor.span p' i' s' e') x v =
        ((λ f g. ground (arith, f, g)), λ f. ground (arith, f))

check_anchors-IsApart :
    (known : List Known) (seen : List Anchor) (spans : List Interval) (os : List Occurrence)
    (i j : ℕ) (o o' : Occurrence)
    → check_anchors known seen spans os ≡ ok tt
    → i < j
    → get_elem? os i ≡ some o
    → get_elem? os j ≡ some o'
    → IsApart o.anchor o'.anchor
unfolding check_anchors
check_anchors-IsApart known seen spans [] i j o o' h l e e' = cc
check_anchors-IsApart known seen spans (x ∷ os) i zero o o' h l e e' = absurd (omega arith)
check_anchors-IsApart known seen spans (x ∷ os) zero (suc j) o o' h l e e' =
    let rest =
      (and_then-ok
        (check_scan seen spans x (known_at (part_of x.anchor) (paragraph_of x.anchor) known))
        (check_anchors known (x.anchor ∷ seen) (placed x.anchor spans) os) tt h).1 in
    let clears = (check_anchors-ok known (x.anchor ∷ seen) (placed x.anchor spans) os rest).1 in
    let same : x ≡ o = cc in
    subst (λ y. IsApart y.anchor o'.anchor) same
      (IsClear-IsApart x.anchor o' seen spans
        (All-get_elem? (IsClear (x.anchor ∷ seen) (placed x.anchor spans)) os j clears e'))
check_anchors-IsApart known seen spans (x ∷ os) (suc i) (suc j) o o' h l e e' =
    let rest =
      (and_then-ok
        (check_scan seen spans x (known_at (part_of x.anchor) (paragraph_of x.anchor) known))
        (check_anchors known (x.anchor ∷ seen) (placed x.anchor spans) os) tt h).1 in
    check_anchors-IsApart known (x.anchor ∷ seen) (placed x.anchor spans) os i j o o' rest
      (omega arith) e e'

pub validate_snapshot-ok :
    (s s' : FieldSnapshot) (source : ℕ) (model : Node)
    → validate_snapshot s source model ≡ ok s'
    → (known : List Known) × (paragraphs model ≡ ok known)
      × (check_anchors known [] [] s.occurrences ≡ ok tt)
unfolding validate_snapshot
validate_snapshot-ok s s' source model h = elim (Outcome-cases (paragraphs model)) [
  | inl (e, q) ↦ absurd (ground (arith, q))
  | inr (known, q) ↦ (known, q, ground (arith, q))
]

-- In a snapshot that `validate_snapshot` accepts, two occurrences at different places of the list
-- have different anchors, and their ranges do not overlap when they are of one paragraph.
pub validate_snapshot-IsApart :
    (s s' : FieldSnapshot) (source : ℕ) (model : Node) (i j : ℕ) (o o' : Occurrence)
    → validate_snapshot s source model ≡ ok s'
    → i < j
    → get_elem? s.occurrences i ≡ some o
    → get_elem? s.occurrences j ≡ some o'
    → IsApart o.anchor o'.anchor
validate_snapshot-IsApart s s' source model i j o o' h l e e' =
    let (known, q, c) = validate_snapshot-ok s s' source model h in
    check_anchors-IsApart known [] [] s.occurrences i j o o' c l e e'

-- When `validate_snapshot` accepts a snapshot, the range of each of its spans lies in a paragraph
-- of the model with that part and identity, its value is the text of that range, and every code
-- point of the range is the paragraph's own text, outside its controls and objects.
pub validate_snapshot-AllPlain :
    (s s' : FieldSnapshot) (source : ℕ) (model : Node) (i id part paragraph_id start end : ℕ)
    (value : Text)
    → validate_snapshot s source model ≡ ok s'
    → get_elem? s.occurrences i
      ≡ some (record { id = id; anchor = Anchor.span part paragraph_id start end; value = value })
    → (children : List Inline) × Holds part paragraph_id children none model
      × (value ≡ slice start end (paragraph_text children))
      × AllPlain children start end
validate_snapshot-AllPlain s s' source model i id part paragraph_id start end value h e =
    let (known, q, c) = validate_snapshot-ok s s' source model h in
    let (scanned, found, settled) =
      All-get_elem? (Settled known) s.occurrences i (check_anchors-ok known [] [] s.occurrences c).0
        e in
    let (children, holds, scan) =
      known_at-Recorded (λ p id children. Holds p id children none model) part paragraph_id known
        scanned (paragraphs-Recorded model known q) found in
    let fits : out_of_range scanned start end ≡ false = ground arith in
    let same : slice start end scanned.text ≡ value = ground arith in
    (
      children,
      holds,
      sym same ∙ ap (slice start end) scan.1,
      in_range-AllPlain children scanned start end scan fits,
    )
