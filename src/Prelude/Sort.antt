-- ===== src/Prelude/Sort.antt =====
-- Sorting by a number: `sort.Slice` on keys that differ, and ORDER BY.
use mathlib.Core.List.{Perm}
use mathlib.Core.List.Perm
use freshflow.Prelude.Tests.{leb, if◌then◌else◌, Bool-cases}
use freshflow.Prelude.Lists.{All}
use freshflow.Prelude.Tables.{exists}
use mathlib.Core.Path.{◌≡◌, refl}
use mathlib.Core.Bool.{Bool, ◌||◌}
use Prim.Native.Nat.{ℕ, ◌≤◌}
use mathlib.Core.Logic.{inl, inr}
use mathlib.Core.List.{List, [], ◌∷◌}
use native.Mathlib.Omega.{arith}

module _ {A : Type 0} (key : A → ℕ) where
  unfoldable pub insert_by : A → List A → List A
  insert_by a [] = a ∷ []
  insert_by a (b ∷ bs) = if leb (key a) (key b) then a ∷ b ∷ bs else b ∷ insert_by a bs

  unfoldable pub sort_by : List A → List A
  unfolding insert_by
  sort_by [] = []
  sort_by (a ∷ xs) = insert_by a (sort_by xs)

  abbrev pub IsSorted : List A → Type 0
  IsSorted [] = Unit
  IsSorted (a ∷ xs) = All (λ b. key a ≤ key b) xs × IsSorted xs

  above-insert_by :
      (n : ℕ) (a : A) (bs : List A)
      → n ≤ key a
      → All (λ b. n ≤ key b) bs
      → All (λ b. n ≤ key b) (insert_by a bs)
  unfolding insert_by
  above-insert_by n a [] h k = (h, tt)
  above-insert_by n a (b ∷ bs) h k = elim (Bool-cases (leb (key a) (key b))) [
    | inl le ↦ rw le (h, k)
    | inr gt ↦ rw gt (k.0, above-insert_by n a bs h k.1)
  ]

  above_trans : (m n : ℕ) (bs : List A) → m ≤ n → All (λ b. n ≤ key b) bs → All (λ b. m ≤ key b) bs
  above_trans m n [] h k = tt
  above_trans m n (b ∷ bs) h k = (omega arith, above_trans m n bs h k.1)

  insert_by-IsSorted : (a : A) (bs : List A) → IsSorted bs → IsSorted (insert_by a bs)
  unfolding insert_by
  insert_by-IsSorted a [] h = (tt, tt)
  insert_by-IsSorted a (b ∷ bs) h = elim (Bool-cases (leb (key a) (key b))) [
    | inl le ↦ rw le ((ground arith, above_trans (key a) (key b) bs (ground arith) h.0), h)
    | inr gt ↦ rw gt (above-insert_by (key b) a bs (ground arith) h.0, insert_by-IsSorted a bs h.1)
  ]

  pub sort_by-IsSorted : (xs : List A) → IsSorted (sort_by xs)
  unfolding sort_by
  sort_by-IsSorted [] = tt
  sort_by-IsSorted (a ∷ xs) = insert_by-IsSorted a (sort_by xs) (sort_by-IsSorted xs)

  insert_by-perm : (a : A) (bs : List A) → Perm (insert_by a bs) (a ∷ bs)
  unfolding insert_by
  insert_by-perm a [] = Perm.refl (a ∷ [])
  insert_by-perm a (b ∷ bs) = elim (Bool-cases (leb (key a) (key b))) [
    | inl le ↦ rw le (Perm.refl (a ∷ b ∷ bs))
    | inr gt ↦ rw gt (Perm.trans (Perm.cons b (insert_by-perm a bs)) (Perm.swap a b bs))
  ]

  pub sort_by-perm : (xs : List A) → Perm (sort_by xs) xs
  unfolding sort_by
  sort_by-perm [] = Perm.refl []
  sort_by-perm (a ∷ xs) = Perm.trans (insert_by-perm a (sort_by xs)) (Perm.cons a (sort_by-perm xs))

  exists-insert_by :
      (p : A → Bool) (a : A) (bs : List A) → exists p (insert_by a bs) ≡ (p a || exists p bs)
  unfolding insert_by
  exists-insert_by p a [] = refl
  exists-insert_by p a (b ∷ bs) = ground (arith, exists-insert_by p a bs)

  pub exists-sort_by : (p : A → Bool) (xs : List A) → exists p (sort_by xs) ≡ exists p xs
  unfolding sort_by
  exists-sort_by p [] = refl
  exists-sort_by p (a ∷ xs) = ground (arith, exists-insert_by p a (sort_by xs), exists-sort_by p xs)
