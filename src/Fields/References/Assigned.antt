-- ===== src/Fields/References/Assigned.antt =====
-- What a snapshot that passes `references` of backend/app/fields/schema.py says of each occurrence.
use fillable.Common.{
  ℕ, zero, suc, ◌≡◌, ◌≤◌, ◌↔◌, refl, true, false, ◌||◌, some, List, [], ◌∷◌, ◌++◌, arith, length,
  ok, get_elem?, Option-cases, inl, inr,
}
use fillable.Common.Table.{find}
use fillable.Fields.Schema.{
  TextField, Candidate, ReviewDecision, ReviewStatus, FieldSnapshot, Check, each,
}
use fillable.Fields.References.{
  references, member, as_set, all_distinct, field_key, candidate_key, assigned, check_review,
}

abbrev pub IsDistinct : List ℕ → Type 0
IsDistinct [] = Unit
IsDistinct (x ∷ xs) = (member x xs ≡ false) × IsDistinct xs

length-as_set : (xs : List ℕ) → length (as_set xs) ≤ length xs
length-as_set [] = omega arith
length-as_set (x ∷ xs) = ground (arith, length-as_set xs)

pub all_distinct-IsDistinct : (xs : List ℕ) → all_distinct xs ≡ true → IsDistinct xs
all_distinct-IsDistinct [] h = tt
all_distinct-IsDistinct (x ∷ xs) h = ground (arith, length-as_set xs, all_distinct-IsDistinct xs)

member-append : (o : ℕ) (xs ys : List ℕ) → member o (xs ++ ys) ≡ (member o xs || member o ys)
member-append o [] ys = refl
member-append o (x ∷ xs) ys = ground (arith, member-append o xs ys)

append-apart :
    (o : ℕ) (xs ys : List ℕ) → IsDistinct (xs ++ ys) → member o xs ≡ true → member o ys ≡ false
append-apart o [] ys d m = cc
append-apart o (x ∷ xs) ys d m =
    ground (arith, append-apart o xs ys, member-append x xs ys, member-append o xs ys)

append-rest : (xs ys : List ℕ) → IsDistinct (xs ++ ys) → IsDistinct ys
append-rest [] ys d = d
append-rest (x ∷ xs) ys d = append-rest xs ys d.1

member-assigned :
    (o i : ℕ) (fields : List TextField) {f : TextField}
    → find field_key i fields ≡ some f
    → member o f.occurrence_ids ≡ true
    → member o (assigned fields) ≡ true
member-assigned o i [] h m = cc
member-assigned o i (x ∷ xs) {f} h m =
    ground (arith, member-assigned o i xs {f = f}, member-append o x.occurrence_ids (assigned xs))

-- An occurrence is in one field at most.
pub assigned_once :
    (o i j : ℕ) (fields : List TextField) {f g : TextField}
    → IsDistinct (assigned fields)
    → find field_key i fields ≡ some f
    → find field_key j fields ≡ some g
    → member o f.occurrence_ids ≡ true
    → member o g.occurrence_ids ≡ true
    → i ≡ j
assigned_once o i j [] d hf hg mf mg = cc
assigned_once o i j (x ∷ xs) {f} {g} d hf hg mf mg = ground (
  arith,
  assigned_once o i j xs {f = f} {g = g} (append-rest x.occurrence_ids (assigned xs) d),
  append-apart o x.occurrence_ids (assigned xs) d,
  member-assigned o i xs {f = f},
  member-assigned o j xs {f = g},
)

each-get_elem? :
    {A : Type 0} (f : A → Check) (xs : List A) (k : ℕ) {x : A}
    → each f xs ≡ ok tt
    → get_elem? xs k ≡ some x
    → f x ≡ ok tt
each-get_elem? f [] k h e = cc
each-get_elem? f (x ∷ xs) zero {x = y} h e = ground (arith, e)
each-get_elem? f (x ∷ xs) (suc k) {x = y} h e = each-get_elem? f xs k {x = y} (ground arith) e

-- In a snapshot whose `references` check succeeds, the occurrence of a reviewed candidate is one
-- of the occurrences of a field exactly when the decision is accepted and names that field.
pub references-assigned :
    (s : FieldSnapshot) (k i : ℕ) (d : ReviewDecision) (c : Candidate) (f : TextField)
    → references s ≡ ok tt
    → get_elem? s.decisions k ≡ some d
    → find candidate_key d.candidate_id s.candidates ≡ some c
    → find field_key i s.fields ≡ some f
    → (member c.occurrence_id f.occurrence_ids ≡ true)
      ↔ ((d.status ≡ ReviewStatus.accepted) × (d.field_id ≡ some i))
unfolding references
references-assigned s k i d c f h at candidate field =
    let distinct = all_distinct-IsDistinct (assigned s.fields) (ground arith) in
    let review : check_review s d ≡ ok tt =
      each-get_elem? (check_review s) s.decisions k {x = d} (ground arith) at in
    let inside = member-assigned c.occurrence_id i s.fields {f = f} field in
    elim (Option-cases d.field_id) [
      | inl unset ↦ ((λ m. ground (arith, inside, review)), (λ e. ground arith))
      | inr (j, chosen) ↦ elim (Option-cases (find field_key j s.fields)) [
        | inl missing ↦ ((λ m. ground (arith, inside, review)), (λ e. ground (arith, review)))
        | inr (g, own) ↦ (
          (λ m. ground (
            arith,
            inside,
            review,
            assigned_once c.occurrence_id i j s.fields {f = f} {g = g} distinct field own m,
          )),
          (λ e. ground (arith, review)),
        )
      ]
    ]
