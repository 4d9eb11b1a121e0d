-- ===== src/Platform/Id/Fresh.antt =====
-- A UUID that is drawn is one that the services accept (pkg/platform/id/id.go).
use freshflow.Prelude.{
  ℕ, zero, suc, ◌/◌, ◌%◌, ◌<◌, ◌≡◌, refl, Bool, true, ◌&&◌, some, List, [], ◌∷◌, length, All, arith,
}
use freshflow.Platform.Id.{
  uuid_pattern, matches, uuid_text, stamped, is_uuid, new_uuid, is_hex, is_version, is_variant,
  hex_digit, stamp_version, stamp_variant,
}

abbrev pub IsByte : ℕ → Type 0
IsByte b = b < 256

is_hex-hex_digit : (n : ℕ) → n < 16 → is_hex (hex_digit n) ≡ true
is_hex-hex_digit n h = ground arith

-- A test that holds of every number below a bound.
all_below : ℕ → (ℕ → Bool) → Bool
all_below zero p = true
all_below (suc n) p = p n && all_below n p

all_below_lem : (n : ℕ) (p : ℕ → Bool) (x : ℕ) → all_below n p ≡ true → x < n → p x ≡ true
unfolding all_below
all_below_lem zero p x h k = absurd (omega arith)
all_below_lem (suc n) p x h k = ground (arith, all_below_lem n p x)

abbrev version_test : ℕ → Bool
version_test b =
    is_version (hex_digit (stamp_version b / 16)) && is_hex (hex_digit (stamp_version b % 16))

abbrev variant_test : ℕ → Bool
variant_test b =
    is_variant (hex_digit (stamp_variant b / 16)) && is_hex (hex_digit (stamp_variant b % 16))

version_table : all_below 256 version_test ≡ true
unfolding all_below
version_table = refl

variant_table : all_below 256 variant_test ≡ true
unfolding all_below
variant_table = refl

hi : (b : ℕ) → IsByte b → is_hex (hex_digit (b / 16)) ≡ true
hi b h = is_hex-hex_digit (b / 16) (omega arith)

lo : (b : ℕ) → is_hex (hex_digit (b % 16)) ≡ true
lo b = is_hex-hex_digit (b % 16) (omega arith)

hex_pair :
    (b : ℕ) (q : Bool)
    → IsByte b
    → q ≡ true
    → (is_hex (hex_digit (b / 16)) && (is_hex (hex_digit (b % 16)) && q)) ≡ true
hex_pair b q h k = rw (hi b h, lo b, k)

version_pair :
    (b : ℕ) (q : Bool)
    → IsByte b
    → q ≡ true
    → (is_version (hex_digit (stamp_version b / 16))
        && (is_hex (hex_digit (stamp_version b % 16)) && q))
      ≡ true
version_pair b q h k = ground (arith, all_below_lem 256 version_test b version_table h, k)

variant_pair :
    (b : ℕ) (q : Bool)
    → IsByte b
    → q ≡ true
    → (is_variant (hex_digit (stamp_variant b / 16))
        && (is_hex (hex_digit (stamp_variant b % 16)) && q))
      ≡ true
variant_pair b q h k = ground (arith, all_below_lem 256 variant_test b variant_table h, k)

-- Sixteen bytes that are stamped and printed match the pattern.
stamped_text :
    (value : List ℕ)
    → length value ≡ 16
    → All IsByte value
    → matches uuid_pattern (uuid_text (stamped value)) ≡ true
stamped_text [] e h = absurd (omega (arith, e))
stamped_text (b0 ∷ []) e h = absurd (omega (arith, e))
stamped_text (b0 ∷ b1 ∷ []) e h = absurd (omega (arith, e))
stamped_text (b0 ∷ b1 ∷ b2 ∷ []) e h = absurd (omega (arith, e))
stamped_text (b0 ∷ b1 ∷ b2 ∷ b3 ∷ []) e h = absurd (omega (arith, e))
stamped_text (b0 ∷ b1 ∷ b2 ∷ b3 ∷ b4 ∷ []) e h = absurd (omega (arith, e))
stamped_text (b0 ∷ b1 ∷ b2 ∷ b3 ∷ b4 ∷ b5 ∷ []) e h = absurd (omega (arith, e))
stamped_text (b0 ∷ b1 ∷ b2 ∷ b3 ∷ b4 ∷ b5 ∷ b6 ∷ []) e h = absurd (omega (arith, e))
stamped_text (b0 ∷ b1 ∷ b2 ∷ b3 ∷ b4 ∷ b5 ∷ b6 ∷ b7 ∷ []) e h = absurd (omega (arith, e))
stamped_text (b0 ∷ b1 ∷ b2 ∷ b3 ∷ b4 ∷ b5 ∷ b6 ∷ b7 ∷ b8 ∷ []) e h = absurd (omega (arith, e))
stamped_text (b0 ∷ b1 ∷ b2 ∷ b3 ∷ b4 ∷ b5 ∷ b6 ∷ b7 ∷ b8 ∷ b9 ∷ []) e h = absurd (omega (arith, e))
stamped_text (b0 ∷ b1 ∷ b2 ∷ b3 ∷ b4 ∷ b5 ∷ b6 ∷ b7 ∷ b8 ∷ b9 ∷ b10 ∷ []) e h =
    absurd (omega (arith, e))
stamped_text (b0 ∷ b1 ∷ b2 ∷ b3 ∷ b4 ∷ b5 ∷ b6 ∷ b7 ∷ b8 ∷ b9 ∷ b10 ∷ b11 ∷ []) e h =
    absurd (omega (arith, e))
stamped_text (b0 ∷ b1 ∷ b2 ∷ b3 ∷ b4 ∷ b5 ∷ b6 ∷ b7 ∷ b8 ∷ b9 ∷ b10 ∷ b11 ∷ b12 ∷ []) e h =
    absurd (omega (arith, e))
stamped_text (b0 ∷ b1 ∷ b2 ∷ b3 ∷ b4 ∷ b5 ∷ b6 ∷ b7 ∷ b8 ∷ b9 ∷ b10 ∷ b11 ∷ b12 ∷ b13 ∷ []) e h =
    absurd (omega (arith, e))
stamped_text (b0 ∷ b1 ∷ b2 ∷ b3 ∷ b4 ∷ b5 ∷ b6 ∷ b7 ∷ b8 ∷ b9 ∷ b10 ∷ b11 ∷ b12 ∷ b13 ∷ b14 ∷ []) e
      h =
    absurd (omega (arith, e))
stamped_text
      (b0 ∷ b1 ∷ b2 ∷ b3 ∷ b4 ∷ b5 ∷ b6 ∷ b7 ∷ b8 ∷ b9 ∷ b10 ∷ b11 ∷ b12 ∷ b13 ∷ b14 ∷ b15 ∷ []) e
      h =
    hex_pair b0 _ h.0 (
      hex_pair b1 _ h.1.0 (
        hex_pair b2 _ h.1.1.0 (
          hex_pair b3 _ h.1.1.1.0 (
            hex_pair b4 _ h.1.1.1.1.0 (
              hex_pair b5 _ h.1.1.1.1.1.0 (
                version_pair b6 _ h.1.1.1.1.1.1.0 (
                  hex_pair b7 _ h.1.1.1.1.1.1.1.0 (
                    variant_pair b8 _ h.1.1.1.1.1.1.1.1.0 (
                      hex_pair b9 _ h.1.1.1.1.1.1.1.1.1.0 (
                        hex_pair b10 _ h.1.1.1.1.1.1.1.1.1.1.0 (
                          hex_pair b11 _ h.1.1.1.1.1.1.1.1.1.1.1.0 (
                            hex_pair b12 _ h.1.1.1.1.1.1.1.1.1.1.1.1.0 (
                              hex_pair b13 _ h.1.1.1.1.1.1.1.1.1.1.1.1.1.0 (
                                hex_pair b14 _ h.1.1.1.1.1.1.1.1.1.1.1.1.1.1.0 (
                                  hex_pair b15 _ h.1.1.1.1.1.1.1.1.1.1.1.1.1.1.1.0
                                    (refl))))))))))))))))
stamped_text
      (b0 ∷ b1 ∷ b2 ∷ b3 ∷ b4 ∷ b5 ∷ b6 ∷ b7 ∷ b8 ∷ b9 ∷ b10 ∷ b11 ∷ b12 ∷ b13 ∷ b14 ∷ b15 ∷ x ∷ xs)
      e h =
    absurd (omega (arith, e))

-- A UUID that is drawn from sixteen random bytes is one that `IsUUID` accepts, with the version and
-- the variant in their places.
pub is_uuid-new_uuid :
    (value text : List ℕ)
    → length value ≡ 16
    → All IsByte value
    → new_uuid (some value) ≡ some text
    → is_uuid text ≡ true
unfolding is_uuid new_uuid
is_uuid-new_uuid value text e h drawn =
    let q : uuid_text (stamped value) ≡ text = cc in rw (← q) (stamped_text value e h)
