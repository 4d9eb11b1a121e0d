-- ===== src/Prelude/Results.antt =====
-- Fallible code, and database transactions as state passing over fallible code.
use mathlib.Core.Path.{◌≡◌, refl}
use mathlib.Core.Logic.{◌⊎◌, inl, inr}
use mathlib.Core.Bool.{Bool, true, false}
use mathlib.Core.Option.{Option, none, some}

pub data Result (E A : Type 0) : Type 0 where
  ok : A → Result E A
  err : E → Result E A

pub Result-cases :
    {E A : Type 0} (r : Result E A) → ((e : E) × (r ≡ err e)) ⊎ ((a : A) × (r ≡ ok a))
Result-cases (ok a) = inr (a, refl)
Result-cases (err e) = inl (e, refl)

-- The body of a transaction: it reads and writes the tables, or fails.
abbrev pub Tx : Type 0 → Type 0 → Type 0 → Type 0
Tx S E A = S → Result E (A × S)

module _ {S E : Type 0} where
  abbrev pub pure : {A : Type 0} → A → Tx S E A
  pure a s = ok (a, s)

  abbrev pub fail : {A : Type 0} → E → Tx S E A
  fail e s = err e

  abbrev pub gets : {A : Type 0} → (S → A) → Tx S E A
  gets f s = ok (f s, s)

  abbrev pub modify : (S → S) → Tx S E (Unit {0})
  modify f s = ok (tt, f s)

  -- A call that returns an error when `broken`; otherwise it goes on.
  abbrev pub fail_if : Bool → E → Tx S E (Unit {0})
  fail_if true e s = err e
  fail_if false e s = ok (tt, s)

  abbrev pub or_fail : {A : Type 0} → Option A → E → Tx S E A
  or_fail none e s = err e
  or_fail (some a) e s = ok (a, s)

  infixl 5 ◌>>=◌ ◌>>◌
  abbrev pub ◌>>=◌ : {A B : Type 0} → Tx S E A → (A → Tx S E B) → Tx S E B
  ◌>>=◌ m f s = elim (m s) [ ok (a, s') ↦ f a s' | err e ↦ err e ]

  abbrev pub ◌>>◌ : {B : Type 0} → Tx S E (Unit {0}) → Tx S E B → Tx S E B
  m >> k = m >>= λ _. k

  -- BEGIN, the body, COMMIT. The deferred ROLLBACK drops the writes of a body that failed.
  abbrev pub transact : {A : Type 0} → Tx S E A → S → Result E A × S
  transact m s = elim (m s) [ ok (a, s') ↦ (ok a, s') | err e ↦ (err e, s) ]
