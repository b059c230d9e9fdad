-- ===== src/Common/Slices.antt =====
-- `take` and `drop` of lists that are joined, mapped or cut again.
use Prim.Native.Nat.{ℕ, zero, suc, ◌-◌, ◌≤◌, min}
use mathlib.Core.Path.{◌≡◌, refl, ap, sym}
use mathlib.Core.List.{List, [], ◌∷◌, ◌++◌, map}
use native.Mathlib.Omega.{arith}
use fillable.Common.Lists.{length, take, drop}

module _ {A : Type 0} where
  pub take-zero : (n : ℕ) (xs : List A) → n ≡ 0 → take n xs ≡ []
  take-zero zero xs h = refl
  take-zero (suc n) xs h = absurd (omega arith)

  pub take_nil : (n : ℕ) → take {A = A} n [] ≡ []
  take_nil zero = refl
  take_nil (suc n) = refl

  pub drop-suc : (n k : ℕ) (x : A) (xs : List A) → n ≡ suc k → drop n (x ∷ xs) ≡ drop k xs
  drop-suc zero k x xs h = absurd (omega arith)
  drop-suc (suc n) k x xs h = let e : n ≡ k = omega arith in ap (λ i. drop i xs) e

  pub drop-zero : (n : ℕ) (xs : List A) → n ≡ 0 → drop n xs ≡ xs
  drop-zero zero xs h = refl
  drop-zero (suc n) xs h = absurd (omega arith)

  pub take-append :
      (n k : ℕ) (xs ys : List A) → k ≡ n - length xs → take n (xs ++ ys) ≡ take n xs ++ take k ys
  take-append zero k xs ys h = sym (take-zero k ys (omega arith))
  take-append (suc n) k [] ys h = let e : suc n ≡ k = omega arith in ap (λ i. take i ys) e
  take-append (suc n) k (x ∷ xs) ys h = ap (λ l. x ∷ l) (take-append n k xs ys (omega arith))

  pub drop-append :
      (n k : ℕ) (xs ys : List A) → k ≡ n - length xs → drop n (xs ++ ys) ≡ drop n xs ++ drop k ys
  drop-append zero k xs ys h = ap (λ l. xs ++ l) (sym (drop-zero k ys (omega arith)))
  drop-append (suc n) k [] ys h = let e : suc n ≡ k = omega arith in ap (λ i. drop i ys) e
  drop-append (suc n) k (x ∷ xs) ys h = drop-append n k xs ys (omega arith)

  pub drop_all : (n : ℕ) (xs : List A) → length xs ≤ n → drop n xs ≡ []
  drop_all zero [] h = refl
  drop_all zero (x ∷ xs) h = absurd (omega arith)
  drop_all (suc n) [] h = refl
  drop_all (suc n) (x ∷ xs) h = drop_all n xs (omega arith)

  pub drop-take : (n m k : ℕ) (xs : List A) → k ≡ m - n → drop n (take m xs) ≡ take k (drop n xs)
  drop-take zero m k xs h = let e : m ≡ k = omega arith in ap (λ i. take i xs) e
  drop-take (suc n) zero k xs h = sym (take-zero k (drop (suc n) xs) (omega arith))
  drop-take (suc n) (suc m) zero [] h = refl
  drop-take (suc n) (suc m) (suc k) [] h = refl
  drop-take (suc n) (suc m) k (x ∷ xs) h = drop-take n m k xs (omega arith)

  pub take_same :
      (n m : ℕ) (xs : List A) → min n (length xs) ≡ min m (length xs) → take n xs ≡ take m xs
  take_same zero zero xs h = refl
  take_same zero (suc m) [] h = refl
  take_same zero (suc m) (x ∷ xs) h = absurd (omega arith)
  take_same (suc n) zero [] h = refl
  take_same (suc n) zero (x ∷ xs) h = absurd (omega arith)
  take_same (suc n) (suc m) [] h = refl
  take_same (suc n) (suc m) (x ∷ xs) h = ap (λ l. x ∷ l) (take_same n m xs (omega arith))

module _ {A B : Type 0} (f : A → B) where
  pub take-map : (n : ℕ) (xs : List A) → map f (take n xs) ≡ take n (map f xs)
  take-map zero xs = refl
  take-map (suc n) [] = refl
  take-map (suc n) (x ∷ xs) = ap (λ l. f x ∷ l) (take-map n xs)

  pub drop-map : (n : ℕ) (xs : List A) → map f (drop n xs) ≡ drop n (map f xs)
  drop-map zero xs = refl
  drop-map (suc n) [] = refl
  drop-map (suc n) (x ∷ xs) = drop-map n xs

  pub length-map : (xs : List A) → length (map f xs) ≡ length xs
  length-map [] = refl
  length-map (x ∷ xs) = ap suc (length-map xs)

  pub map-append : (xs ys : List A) → map f (xs ++ ys) ≡ map f xs ++ map f ys
  map-append [] ys = refl
  map-append (x ∷ xs) ys = ap (λ l. f x ∷ l) (map-append xs ys)
