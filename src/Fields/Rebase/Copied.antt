-- ===== src/Fields/Rebase/Copied.antt =====
-- What the proposals of a copy point at (`rebase_discovery` of backend/app/documents/rebase.py).
use mathlib.Core.Path.{subst}
use fillable.Common.{
  ℕ, zero, suc, ◌≡◌, sym, refl, Option, none, some, List, [], ◌∷◌, get_elem?, arith, Outcome-cases,
  ok, Option-cases, inl, inr,
}
use fillable.Fields.Schema.{Text, Anchor, Occurrence, FieldSnapshot}
use fillable.Fields.Model.{Node, Inline}
use fillable.Fields.Model.Plain.{paragraph_text}
use fillable.Fields.Model.Holding.{Holds}
use fillable.Fields.Validation.{slice, validate_snapshot}
use fillable.Fields.Validation.Ranges.{AllPlain}
use fillable.Fields.Validation.Spans.{validate_snapshot-ok, validate_snapshot-AllPlain}
use fillable.Fields.Rebase.{
  Identities, moved_anchor, moved_to, joined, moved, checked_at, rebase_discovery,
}

-- What validation returns is what it was given.
validate_snapshot-same :
    (s s' : FieldSnapshot) (source : ℕ) (model : Node)
    → validate_snapshot s source model ≡ ok s'
    → s ≡ s'
unfolding validate_snapshot
validate_snapshot-same s s' source model h =
    let (known, q, c) = validate_snapshot-ok s s' source model h in ground (arith, q, c)

joined-some :
    (o : Option Occurrence) (rest : Option (List Occurrence)) (os : List Occurrence)
    → joined o rest ≡ some os
    → (p : Occurrence) × (ps : List Occurrence) × (o ≡ some p) × (rest ≡ some ps) × (p ∷ ps ≡ os)
joined-some none rest os h = cc
joined-some (some p) none os h = cc
joined-some (some p) (some ps) os h = (p, ps, refl, refl, cc)

moved-get_elem? :
    (identities : Identities) (os os' : List Occurrence) (i : ℕ) (o : Occurrence)
    → moved identities os ≡ some os'
    → get_elem? os i ≡ some o
    → (o' : Occurrence) × (get_elem? os' i ≡ some o')
      × (moved_to o (moved_anchor identities o.anchor) ≡ some o')
moved-get_elem? identities [] os' i o h e = cc
moved-get_elem? identities (x ∷ xs) os' zero o h e =
    let (p, ps, first, rest, same) =
      joined-some (moved_to x (moved_anchor identities x.anchor)) (moved identities xs) os' h in
    let here : x ≡ o = cc in
    (
      p,
      subst (λ l. get_elem? l 0 ≡ some p) same refl,
      subst (λ (y : Occurrence). moved_to y (moved_anchor identities y.anchor) ≡ some p) here first,
    )
moved-get_elem? identities (x ∷ xs) os' (suc i) o h e =
    let (p, ps, first, rest, same) =
      joined-some (moved_to x (moved_anchor identities x.anchor)) (moved identities xs) os' h in
    let (o', at, went) = moved-get_elem? identities xs ps i o rest e in
    (o', subst (λ l. get_elem? l (suc i) ≡ some o') same at, went)

-- What a rebase that succeeds has done.
record HasMoved (snapshot s' : FieldSnapshot) (target_version : ℕ) (target : Node)
    (identities : Identities) : Type 0 where
  occurrences : List Occurrence
  went : moved identities snapshot.occurrences ≡ some occurrences
  accepted :
      validate_snapshot
        (record snapshot { source_version_id = target_version; occurrences = occurrences })
        target_version
        target
      ≡ ok s'

rebase_discovery-HasMoved :
    (snapshot s' : FieldSnapshot) (source_version target_version : ℕ) (source target : Node)
    (identities : Identities)
    → rebase_discovery snapshot source_version source target_version target identities ≡ ok s'
    → HasMoved snapshot s' target_version target identities
unfolding rebase_discovery
rebase_discovery-HasMoved snapshot s' source_version target_version source target identities h =
    elim (Outcome-cases (validate_snapshot snapshot source_version source)) [
      | inl (e, q) ↦ absurd (ground (arith, q))
      | inr (s, q) ↦
          let same = validate_snapshot-same snapshot s source_version source q in
          let step : checked_at target_version target snapshot
                (moved identities snapshot.occurrences)
              ≡ ok s' =
            subst
              (λ (x : FieldSnapshot).
                checked_at target_version target x (moved identities x.occurrences) ≡ ok s')
              (sym same) (ground (arith, q)) in
          elim (Option-cases (moved identities snapshot.occurrences)) [
            | inl missing ↦ absurd (ground (arith, step, missing))
            | inr (os, went) ↦ record {
              occurrences = os;
              went = went;
              accepted = subst (λ o. checked_at target_version target snapshot o ≡ ok s') went step;
            }
          ]
    ]

-- When `rebase_discovery` succeeds, the occurrence that stands at a place of the source's list
-- with a span stands at the same place of the result with the same value and the span moved to the
-- paragraph that the identities name; the copy has that paragraph in that part, the value is the
-- text of the range there, and every code point of the range is the paragraph's own text.
pub rebase_discovery-AllPlain :
    (snapshot s' : FieldSnapshot) (source_version target_version : ℕ) (source target : Node)
    (identities : Identities) (i id part paragraph_id start end : ℕ) (value : Text)
    → rebase_discovery snapshot source_version source target_version target identities ≡ ok s'
    → get_elem? snapshot.occurrences i
      ≡ some (record { id = id; anchor = Anchor.span part paragraph_id start end; value = value })
    → (copied : ℕ) × (children : List Inline) × (identities paragraph_id ≡ some copied)
      × (get_elem? s'.occurrences i
          ≡ some (record { id = id; anchor = Anchor.span part copied start end; value = value }))
      × Holds part copied children none target
      × (value ≡ slice start end (paragraph_text children))
      × AllPlain children start end
rebase_discovery-AllPlain snapshot s' source_version target_version source target identities i id
      part paragraph_id start end value h e =
    let m =
      rebase_discovery-HasMoved snapshot s' source_version target_version source target identities
        h in
    let o : Occurrence = record {
      id = id;
      anchor = Anchor.span part paragraph_id start end;
      value = value;
    } in
    let (o', at, went) =
      moved-get_elem? identities snapshot.occurrences m.occurrences i o m.went e in
    elim (Option-cases (identities paragraph_id)) [
      | inl missing ↦ absurd (ground (arith, went, missing))
      | inr (copied, found) ↦
          let there : get_elem? m.occurrences i
              ≡ some
                  (record { id = id; anchor = Anchor.span part copied start end; value = value }) =
            ground (arith, at, went, found) in
          let same =
            validate_snapshot-same
              (record snapshot { source_version_id = target_version; occurrences = m.occurrences })
              s' target_version target m.accepted in
          let (children, holds, text, plain) =
            validate_snapshot-AllPlain
              (record snapshot { source_version_id = target_version; occurrences = m.occurrences })
              s' target_version target i id part copied start end value m.accepted there in
          (
            copied,
            children,
            found,
            subst
                (λ (x : FieldSnapshot).
                  get_elem? x.occurrences i
                  ≡ some (record {
                    id = id;
                    anchor = Anchor.span part copied start end;
                    value = value;
                  }))
                same there,
            holds,
            text,
            plain,
          )
    ]
