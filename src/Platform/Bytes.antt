-- ===== src/Platform/Bytes.antt =====
-- Texts as lists of bytes, and what the services use of the package strings: comparison, suffixes,
-- white space and splitting. White space is that of ASCII.
use freshflow.Prelude.{
  ℕ, ◌≡◌, refl, Bool, true, false, ◌&&◌, ◌||◌, List, [], ◌∷◌, ◌++◌, ◌==◌, ==_refl, if◌then◌else◌,
  arith,
}

unfoldable pub bytes_eq : List ℕ → List ℕ → Bool
bytes_eq [] [] = true
bytes_eq [] (d ∷ ds) = false
bytes_eq (c ∷ cs) [] = false
bytes_eq (c ∷ cs) (d ∷ ds) = c == d && bytes_eq cs ds

pub bytes_eq_refl : (cs : List ℕ) → bytes_eq cs cs ≡ true
unfolding bytes_eq
bytes_eq_refl [] = refl
bytes_eq_refl (c ∷ cs) = ground (arith, ==_refl c, bytes_eq_refl cs)

pub bytes_eq→eq : (cs ds : List ℕ) → bytes_eq cs ds ≡ true → cs ≡ ds
unfolding bytes_eq
bytes_eq→eq [] [] h = refl
bytes_eq→eq [] (d ∷ ds) h = cc
bytes_eq→eq (c ∷ cs) [] h = cc
bytes_eq→eq (c ∷ cs) (d ∷ ds) h = ground (arith, bytes_eq→eq cs ds)

pub bytes_eq_comm : (cs ds : List ℕ) → bytes_eq cs ds ≡ bytes_eq ds cs
unfolding bytes_eq
bytes_eq_comm [] [] = refl
bytes_eq_comm [] (d ∷ ds) = refl
bytes_eq_comm (c ∷ cs) [] = refl
bytes_eq_comm (c ∷ cs) (d ∷ ds) = ground (arith, bytes_eq_comm cs ds)

-- `strings.HasSuffix`
unfoldable pub has_suffix : List ℕ → List ℕ → Bool
unfolding bytes_eq
has_suffix suffix [] = bytes_eq [] suffix
has_suffix suffix (c ∷ cs) = bytes_eq (c ∷ cs) suffix || has_suffix suffix cs

abbrev pub is_space : ℕ → Bool
is_space c = c == 9 || c == 10 || c == 11 || c == 12 || c == 13 || c == 32

unfoldable pub is_blank : List ℕ → Bool
is_blank [] = true
is_blank (c ∷ cs) = is_space c && is_blank cs

-- The white space at the front, and at the end, is dropped.
unfoldable pub trim_left : List ℕ → List ℕ
trim_left [] = []
trim_left (c ∷ cs) = let rest = trim_left cs in if is_space c then rest else c ∷ cs

unfoldable pub trim_right : List ℕ → List ℕ
unfolding is_blank
trim_right [] = []
trim_right (c ∷ cs) = let rest = trim_right cs in if is_blank (c ∷ cs) then [] else c ∷ rest

-- `strings.TrimSpace`
unfoldable pub trim_space : List ℕ → List ℕ
unfolding trim_left trim_right
trim_space cs = trim_right (trim_left cs)

-- `strings.Split` at one byte: `part` is what has been read of the part at hand.
unfoldable pub split_from : ℕ → List ℕ → List ℕ → List (List ℕ)
split_from sep part [] = part ∷ []
split_from sep part (c ∷ cs) =
    let next = split_from sep [] cs in
    let longer = split_from sep (part ++ c ∷ []) cs in if c == sep then part ∷ next else longer

-- `strings.TrimPrefix`
unfoldable pub strip_prefix : List ℕ → List ℕ → Bool × List ℕ
strip_prefix [] cs = (true, cs)
strip_prefix (p ∷ ps) [] = (false, [])
strip_prefix (p ∷ ps) (c ∷ cs) =
    let rest = strip_prefix ps cs in if p == c then rest else (false, cs)

unfoldable pub trim_prefix : List ℕ → List ℕ → List ℕ
unfolding strip_prefix
trim_prefix prefix cs = if (strip_prefix prefix cs).0 then (strip_prefix prefix cs).1 else cs
