-- ===== src/Fields/Model/Plain.antt =====
-- What `paragraphs` of backend/app/fields/validation.py blocks, against the kind of each character.
use fillable.Common.{
  ℕ, zero, suc, ◌+◌, ◌-◌, ◌≡◌, sym, ap, ◌<◌, refl, Bool, true, false, ◌&&◌, ◌||◌, some, List, [],
  ◌∷◌, ◌++◌, ◌∙◌, arith, leb, ltb, length, length-append, get_elem?, flatten, ok, if◌then◌else◌,
}
use mathlib.Core.Path.{subst}
use mathlib.Core.List.{append-nil, append_assoc}
use fillable.Fields.Schema.{Text}
use fillable.Fields.Model.{
  Inline, Scan, scan, add_child, inline_text, children_of, empty_scan, object_text,
}

abbrev pub flags : Bool → Text → List Bool
flags b [] = []
flags b (c ∷ cs) = b ∷ flags b cs

-- Whether each code point of a paragraph stands in its own text, rather than in a control or an
-- object.
abbrev pub inline_plain : Inline → List Bool
inline_plain (Inline.text t) = flags true t
inline_plain (Inline.field id ts) = flags false (flatten ts)
inline_plain (Inline.object n) = false ∷ []

abbrev pub plain : List Inline → List Bool
plain [] = []
plain (c ∷ cs) = inline_plain c ++ plain cs

abbrev pub paragraph_text : List Inline → Text
paragraph_text [] = []
paragraph_text (c ∷ cs) = inline_text c ++ paragraph_text cs

abbrev pub in_block : ℕ → List (ℕ × ℕ) → Bool
in_block i [] = false
in_block i ((b, e) ∷ bs) = leb b i && ltb i e || in_block i bs

in_block-append :
    (i : ℕ) (xs ys : List (ℕ × ℕ)) → in_block i (xs ++ ys) ≡ (in_block i xs || in_block i ys)
in_block-append i [] ys = refl
in_block-append i ((b, e) ∷ xs) ys = ground (arith, in_block-append i xs ys)

length-flags : (b : Bool) (t : Text) → length (flags b t) ≡ length t
length-flags b [] = refl
length-flags b (c ∷ cs) = ground (arith, length-flags b cs)

flags-get_elem? :
    (b c : Bool) (t : Text) (i : ℕ) → get_elem? (flags b t) i ≡ some c → (c ≡ b) × (i < length t)
flags-get_elem? b c [] i h = cc
flags-get_elem? b c (x ∷ xs) zero h = (cc, ground arith)
flags-get_elem? b c (x ∷ xs) (suc i) h =
    let (s, l) = flags-get_elem? b c xs i h in (s, omega (arith, l))

get_elem?-append :
    (xs ys : List Bool) (i : ℕ)
    → get_elem? (xs ++ ys) i
      ≡ (if ltb i (length xs) then get_elem? xs i else get_elem? ys (i - length xs))
get_elem?-append [] ys i = ground arith
get_elem?-append (x ∷ xs) ys zero = ground arith
get_elem?-append (x ∷ xs) ys (suc i) = ground (arith, get_elem?-append xs ys i)

single : (i : ℕ) → get_elem? (false ∷ []) i ≡ some false → i < 1
single zero h = omega arith
single (suc i) h = cc

-- Every code point that is not plain is in a blocked range.
pub record Covers (fs : List Bool) (s : Scan) : Type 0 where
  pub long : length fs ≡ length s.text
  pub blocks : (i : ℕ) → get_elem? fs i ≡ some false → in_block i s.blocked ≡ true

add_child-Covers :
    (fs : List Bool) (s : Scan) (c : Inline)
    → Covers fs s
    → Covers (fs ++ inline_plain c) (add_child s c)
add_child-Covers fs s (Inline.text t) v = record {
  long = ground (
    arith,
    v.long,
    length-append {0} fs (flags true t),
    length-append {0} s.text t,
    length-flags true t,
  );
  blocks = λ i h. ground (
    arith,
    v.blocks i,
    get_elem?-append fs (flags true t) i,
    flags-get_elem? true false t (i - length fs),
  );
}
add_child-Covers fs s (Inline.field id ts) v = record {
  long = ground (
    arith,
    v.long,
    length-append {0} fs (flags false (flatten ts)),
    length-append {0} s.text (flatten ts),
    length-flags false (flatten ts),
  );
  blocks = λ i h. ground (
    arith,
    v.long,
    v.blocks i,
    get_elem?-append fs (flags false (flatten ts)) i,
    flags-get_elem? false false (flatten ts) (i - length fs),
    length-append {0} s.text (flatten ts),
    in_block-append i s.blocked ((length s.text, length (s.text ++ flatten ts)) ∷ []),
  );
}
add_child-Covers fs s (Inline.object n) v = record {
  long =
      ground
        (arith, v.long, length-append {0} fs (false ∷ []), length-append {0} s.text object_text);
  blocks = λ i h. ground (
    arith,
    v.long,
    v.blocks i,
    get_elem?-append fs (false ∷ []) i,
    single (i - length fs),
    length-append {0} s.text object_text,
    in_block-append i s.blocked ((length s.text, length (s.text ++ object_text)) ∷ []),
  );
}

add_child-text : (s : Scan) (c : Inline) → (add_child s c).text ≡ s.text ++ inline_text c
add_child-text s (Inline.text t) = refl
add_child-text s (Inline.field id ts) = refl
add_child-text s (Inline.object n) = refl

scan-step :
    (c : Inline) (cs : List Inline) (examined characters examined' characters' : ℕ) (s s' : Scan)
    → scan examined characters s (c ∷ cs) ≡ ok (examined', characters', s')
    → scan (examined + (1 + children_of c)) (characters + length (inline_text c)) (add_child s c) cs
      ≡ ok (examined', characters', s')
unfolding scan
scan-step c cs examined characters examined' characters' s s' h = ground arith

pub scan-Covers :
    (children : List Inline) (examined characters examined' characters' : ℕ) (s s' : Scan)
    (fs : List Bool)
    → Covers fs s
    → scan examined characters s children ≡ ok (examined', characters', s')
    → Covers (fs ++ plain children) s' × (s'.text ≡ s.text ++ paragraph_text children)
unfolding scan
scan-Covers [] examined characters examined' characters' s s' fs v h =
    let q : s ≡ s' = cc in
    (
      subst (λ gs. Covers gs s') (sym (append-nil fs)) (subst (Covers fs) q v),
      rw (append-nil s.text) cc,
    )
scan-Covers (c ∷ cs) examined characters examined' characters' s s' fs v h =
    let (covers, same) =
      scan-Covers cs (examined + (1 + children_of c)) (characters + length (inline_text c))
        examined' characters' (add_child s c) s' (fs ++ inline_plain c) (add_child-Covers fs s c v)
        (scan-step c cs examined characters examined' characters' s s' h) in
    (
      subst (λ gs. Covers gs s') (append_assoc fs (inline_plain c) (plain cs)) covers,
      same
          ∙ ap (λ t. t ++ paragraph_text cs) (add_child-text s c)
          ∙ append_assoc s.text (inline_text c) (paragraph_text cs),
    )

-- The scan of the children of one paragraph.
abbrev pub IsScanOf : List Inline → Scan → Type 0
IsScanOf children s = Covers (plain children) s × (s.text ≡ paragraph_text children)

pub scan-IsScanOf :
    (children : List Inline) (examined characters examined' characters' : ℕ) (s : Scan)
    → scan examined characters empty_scan children ≡ ok (examined', characters', s)
    → IsScanOf children s
scan-IsScanOf children examined characters examined' characters' s h =
    scan-Covers children examined characters examined' characters' empty_scan s []
      (record { long = refl; blocks = λ i e. cc }) h
