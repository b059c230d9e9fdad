-- ===== src/Common/Transactions.antt =====
-- Raised errors as values, and database transactions over them: a transaction that raises is
-- rolled back, so its error carries no state.
use mathlib.Core.Path.{◌≡◌, refl}
use mathlib.Core.Logic.{◌⊎◌, inl, inr}
use mathlib.Core.Bool.{Bool, true, false}
use mathlib.Core.Option.{Option, none, some}

pub data Outcome (E A : Type 0) : Type 0 where
  ok : A → Outcome E A
  err : E → Outcome E A

pub Outcome-cases :
    {E A : Type 0} (o : Outcome E A) → ((e : E) × (o ≡ err e)) ⊎ ((a : A) × (o ≡ ok a))
Outcome-cases (err e) = inl (e, refl)
Outcome-cases (ok a) = inr (a, refl)

abbrev pub Tx : Type 0 → Type 0 → Type 0 → Type 0
Tx S E A = S → Outcome E (A × S)

infixl 5 ◌>>=◌ ◌>>◌
abbrev pub ◌>>=◌ : {S E A B : Type 0} → Tx S E A → (A → Tx S E B) → Tx S E B
◌>>=◌ m f s = elim (m s) [ ok (a, s') ↦ f a s' | err e ↦ err e ]

abbrev pub ◌>>◌ : {S E A B : Type 0} → Tx S E A → Tx S E B → Tx S E B
m >> k = m >>= λ _. k

module _ {S E A : Type 0} where
  abbrev pub pure : A → Tx S E A
  pure a s = ok (a, s)

  abbrev pub raise : E → Tx S E A
  raise e s = err e

  abbrev pub gets : (S → A) → Tx S E A
  gets f s = ok (f s, s)

  abbrev pub or_raise : Option A → E → Tx S E A
  or_raise none e s = err e
  or_raise (some a) e s = ok (a, s)

module _ {S E : Type 0} where
  abbrev pub raise_if : Bool → E → Tx S E Unit
  raise_if true e s = err e
  raise_if false e s = ok (tt, s)

  abbrev pub modify : (S → S) → Tx S E Unit
  modify f s = ok (tt, f s)

-- `with engine.begin()`: commit or roll back.
abbrev pub transact : {S E A : Type 0} → Tx S E A → S → Outcome E A × S
transact m s = elim (m s) [ ok (a, s') ↦ (ok a, s') | err e ↦ (err e, s) ]
