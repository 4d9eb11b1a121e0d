-- ===== src/Platform/Id.antt =====
-- UUIDs as text (pkg/platform/id/id.go). Random bytes are numbers below 256.
pub mod Fresh
pub mod Tests
use Prim.Native.Nat.{bit_and, bit_or}
use freshflow.Prelude.{
  ℕ, zero, suc, ◌+◌, ◌*◌, ◌/◌, ◌%◌, ◌-◌, Bool, true, false, ◌&&◌, ◌||◌, Option, none, some, List,
  [], ◌∷◌, ◌++◌, ◌==◌, ltb, if◌then◌else◌, take, drop, set,
}
use freshflow.Platform.Text.{in_range, is_digit}

abbrev pub is_hex : ℕ → Bool
is_hex c = is_digit c || in_range b'a' b'f' c || in_range b'A' b'F' c

abbrev is_dash : ℕ → Bool
is_dash c = c == b'-'

abbrev pub is_version : ℕ → Bool
is_version c = in_range b'1' b'8' c

abbrev pub is_variant : ℕ → Bool
is_variant c = c == b'8' || c == b'9' || c == b'a' || c == b'b' || c == b'A' || c == b'B'

abbrev times : ℕ → (ℕ → Bool) → List (ℕ → Bool)
times zero p = []
times (suc n) p = p ∷ times n p

-- The classes of `uuidPattern`, from its first to its last character.
abbrev pub uuid_pattern : List (ℕ → Bool)
uuid_pattern =
    times 8 is_hex
    ++ is_dash
      ∷ (times 4 is_hex
          ++ is_dash
            ∷ is_version
            ∷ (times 3 is_hex
                ++ is_dash ∷ is_variant ∷ (times 3 is_hex ++ is_dash ∷ times 12 is_hex)))

-- A text matches a pattern that is anchored at both ends.
abbrev pub matches : List (ℕ → Bool) → List ℕ → Bool
matches [] [] = true
matches [] (c ∷ cs) = false
matches (p ∷ ps) [] = false
matches (p ∷ ps) (c ∷ cs) = p c && matches ps cs

-- `IsUUID`
unfoldable pub is_uuid : List ℕ → Bool
is_uuid value = matches uuid_pattern value

-- A digit of `%x`.
abbrev pub hex_digit : ℕ → ℕ
hex_digit n = if ltb n 10 then 48 + n else 87 + n

abbrev pub hex_bytes : List ℕ → List ℕ
hex_bytes [] = []
hex_bytes (b ∷ bs) = hex_digit (b / 16) ∷ hex_digit (b % 16) ∷ hex_bytes bs

-- The version and the variant, put into the random bytes.
abbrev pub stamp_version : ℕ → ℕ
stamp_version b = bit_or (bit_and b 0x0f) 0x40

abbrev pub stamp_variant : ℕ → ℕ
stamp_variant b = bit_or (bit_and b 0x3f) 0x80

abbrev byte_at : ℕ → List ℕ → ℕ
byte_at i [] = 0
byte_at zero (b ∷ bs) = b
byte_at (suc i) (b ∷ bs) = byte_at i bs

abbrev pub stamped : List ℕ → List ℕ
stamped value =
    let value6 = set value 6 (stamp_version (byte_at 6 value)) in
    set value6 8 (stamp_variant (byte_at 8 value6))

abbrev slice : ℕ → ℕ → List ℕ → List ℕ
slice from to value = take (to - from) (drop from value)

-- `fmt.Sprintf` of the groups.
abbrev pub uuid_text : List ℕ → List ℕ
uuid_text value =
    hex_bytes (slice 0 4 value)
    ++ b'-'
      ∷ (hex_bytes (slice 4 6 value)
          ++ b'-'
            ∷ (hex_bytes (slice 6 8 value)
                ++ b'-' ∷ (hex_bytes (slice 8 10 value) ++ b'-' ∷ hex_bytes (slice 10 16 value))))

-- `NewUUID` of the sixteen bytes that are drawn, if they can be.
unfoldable pub new_uuid : Option (List ℕ) → Option (List ℕ)
new_uuid none = none
new_uuid (some value) = some (uuid_text (stamped value))

-- The number that a uuid column keeps for a text that matches: its hex digits.
abbrev digit_value : ℕ → ℕ
digit_value c = if is_digit c then c - 48 else if in_range b'a' b'f' c then c - 87 else c - 55

unfoldable pub uuid_value_from : ℕ → List ℕ → ℕ
uuid_value_from acc [] = acc
uuid_value_from acc (c ∷ cs) =
    uuid_value_from (if is_dash c then acc else acc * 16 + digit_value c) cs

unfoldable pub uuid_value : List ℕ → ℕ
unfolding uuid_value_from
uuid_value value = uuid_value_from 0 value
