-- ===== src/Fields/Working/Encoding.antt =====
-- UTF-16 as backend/app/fields/working.py uses it: code units for the pairs of bytes of `utf-16-le`.
use Prim.Native.Nat.{◌/◌, ◌%◌}
use fillable.Common.{
  ℕ, ◌+◌, ◌-◌, ◌*◌, ◌≡◌, sym, ap, ◌∙◌, refl, Bool, true, ◌&&◌, ◌||◌, Option, none, some, List, [],
  ◌∷◌, ◌++◌, leb, ltb, arith, if◌then◌else◌, inl, inr, Bool-cases,
}
use mathlib.Core.Path.{subst}
use mathlib.Core.List.{append_assoc}
use fillable.Fields.Schema.{Text}

abbrev pub Units : Type 0
Units = List ℕ

-- A surrogate has no encoding.
abbrev pub units_of : ℕ → Option Units
units_of c =
    if ltb c 55296 || leb 57344 c && ltb c 65536
    then some (c ∷ [])
    else if leb 65536 c && ltb c 1114112
    then some ((55296 + (c - 65536) / 1024) ∷ (56320 + (c - 65536) % 1024) ∷ [])
    else none

abbrev pub joined : Option Units → Option Units → Option Units
joined none _ = none
joined (some us) none = none
joined (some us) (some vs) = some (us ++ vs)

-- t.encode("utf-16-le")
abbrev pub utf16 : Text → Option Units
utf16 [] = some []
utf16 (c ∷ cs) = joined (units_of c) (utf16 cs)

abbrev pub put_code : ℕ → Option Text → Option Text
put_code c none = none
put_code c (some cs) = some (c ∷ cs)

abbrev is_unit : ℕ → Bool
is_unit u = ltb u 55296 || leb 57344 u && ltb u 65536

abbrev is_pair : ℕ → ℕ → Bool
is_pair u v = leb 55296 u && ltb u 56320 && leb 56320 v && ltb v 57344

-- us.decode("utf-16-le"), which refuses a lone surrogate.
abbrev pub decode : Units → Option Text
decode [] = some []
decode (u ∷ []) = if is_unit u then some (u ∷ []) else none
decode (u ∷ v ∷ us) =
    let rest = decode (v ∷ us) in
    let after = decode us in
    if is_unit u
    then put_code u rest
    else if is_pair u v
    then put_code (65536 + (u - 55296) * 1024 + (v - 56320)) after
    else none

units_of-pair :
    (u v : ℕ)
    → is_pair u v ≡ true
    → units_of (65536 + (u - 55296) * 1024 + (v - 56320)) ≡ some (u ∷ v ∷ [])
units_of-pair u v h = ground arith

put_code-some :
    (c : ℕ) (o : Option Text) (t : Text)
    → put_code c o ≡ some t
    → (cs : Text) × (o ≡ some cs) × (c ∷ cs ≡ t)
put_code-some c none t h = cc
put_code-some c (some cs) t h = (cs, refl, cc)

joined_lem :
    (o p : Option Units) (xs ys : Units) → o ≡ some xs → p ≡ some ys → joined o p ≡ some (xs ++ ys)
joined_lem o p xs ys h g = rw (h, g) refl

-- What was decoded encodes to the same units.
pub decode-utf16 : (us : Units) (t : Text) → decode us ≡ some t → utf16 t ≡ some us
decode-utf16 [] t h = let e : [] ≡ t = cc in subst (λ x. utf16 x ≡ some []) e refl
decode-utf16 (u ∷ []) t h = elim (Bool-cases (is_unit u)) [
  | inl unit ↦
      let same : u ∷ [] ≡ t = ground (arith, unit) in
      subst (λ x. utf16 x ≡ some (u ∷ [])) same (ground (arith, unit))
  | inr other ↦ absurd (ground (arith, other))
]
decode-utf16 (u ∷ v ∷ us) t h = elim (Bool-cases (is_unit u)) [
  | inl unit ↦
      let (cs, rest, same) = put_code-some u (decode (v ∷ us)) t (ground (arith, unit)) in
      let tail = decode-utf16 (v ∷ us) cs rest in
      let one : units_of u ≡ some (u ∷ []) = ground (arith, unit) in
      subst (λ x. utf16 x ≡ some (u ∷ v ∷ us)) same
        (joined_lem (units_of u) (utf16 cs) (u ∷ []) (v ∷ us) one tail)
  | inr other ↦ elim (Bool-cases (is_pair u v)) [
    | inr neither ↦ absurd (ground (arith, other, neither))
    | inl pair ↦
        let c = 65536 + (u - 55296) * 1024 + (v - 56320) in
        let (cs, rest, same) = put_code-some c (decode us) t (ground (arith, other, pair)) in
        subst (λ x. utf16 x ≡ some (u ∷ v ∷ us)) same
          (joined_lem (units_of c) (utf16 cs) (u ∷ v ∷ []) us (units_of-pair u v pair)
            (decode-utf16 us cs rest))
  ]
]

joined-some :
    (o p : Option Units) (us : Units)
    → joined o p ≡ some us
    → (xs : Units) × (ys : Units) × (o ≡ some xs) × (p ≡ some ys) × (xs ++ ys ≡ us)
joined-some none p us h = cc
joined-some (some xs) none us h = cc
joined-some (some xs) (some ys) us h = (xs, ys, refl, refl, cc)

pub utf16-append :
    (s t : Text) (us vs : Units)
    → utf16 s ≡ some us
    → utf16 t ≡ some vs
    → utf16 (s ++ t) ≡ some (us ++ vs)
utf16-append [] t us vs h g = let e : [] ≡ us = cc in subst (λ x. utf16 t ≡ some (x ++ vs)) e g
utf16-append (c ∷ cs) t us vs h g =
    let (xs, ys, first, rest, same) = joined-some (units_of c) (utf16 cs) us h in
    joined_lem (units_of c) (utf16 (cs ++ t)) xs (ys ++ vs) first (utf16-append cs t ys vs rest g)
    ∙ ap some (sym (append_assoc xs ys vs) ∙ ap (λ x. x ++ vs) same)
