-- ===== src/Driver/ObjectIds/RoundTrip.antt =====
-- The printing of an `ObjectId` and the reading of its text.
use wave_judge.Prelude.{
  ℕ, ◌*◌, ◌/◌, ◌%◌, ◌<◌, ◌≡◌, refl, ap, true, false, some, List, [], ◌∷◌, length, All, ok, arith,
  ◌==◌,
}
use wave_judge.Driver.ObjectIds.{
  visited, visit_str, serialize, ObjectId, to_digit, two_digits, from_str_radix, is_char_boundary,
  with_byte, pairs, identified, from_str, hex_digit, hex_bytes, fmt,
}

-- Twelve bytes.
pub record IsValid (id : ObjectId) : Type 0 where
  pub size : length id.raw ≡ 12
  pub bytes : All (λ b. b < 256) id.raw

to_digit-hex_digit : (d : ℕ) → d < 16 → to_digit (hex_digit d) ≡ some d
unfolding to_digit hex_digit
to_digit-hex_digit d h = ground arith

hex_digit-not_plus : (d : ℕ) → d < 16 → (hex_digit d == 43) ≡ false
unfolding hex_digit
hex_digit-not_plus d h = ground arith

from_str_radix-hex :
    (b : ℕ) → b < 256 → from_str_radix (hex_digit (b / 16)) (hex_digit (b % 16)) ≡ some b
unfolding from_str_radix two_digits
from_str_radix-hex b h =
    rw
      (
        hex_digit-not_plus (b / 16) (omega arith),
        to_digit-hex_digit (b / 16) (omega arith),
        to_digit-hex_digit (b % 16) (omega arith),
      )
      (ap (λ (n : ℕ). some n) (omega arith))

boundary-hex :
    (bytes : List ℕ) → All (λ b. b < 256) bytes → is_char_boundary (hex_bytes bytes) ≡ true
unfolding is_char_boundary hex_bytes hex_digit
boundary-hex [] h = refl
boundary-hex (b ∷ bytes) h = ground arith

pairs-hex : (bytes : List ℕ) → All (λ b. b < 256) bytes → pairs (hex_bytes bytes) ≡ ok bytes
unfolding pairs hex_bytes with_byte
pairs-hex [] h = refl
pairs-hex (b ∷ bytes) h =
    rw (boundary-hex bytes h.1, from_str_radix-hex b h.0, pairs-hex bytes h.1) refl

length-hex : (bytes : List ℕ) → length (hex_bytes bytes) ≡ length bytes * 2
unfolding hex_bytes
length-hex [] = refl
length-hex (b ∷ bytes) = omega (arith, length-hex bytes)

pub from_str-fmt : (id : ObjectId) → IsValid id → from_str (fmt id) ≡ ok id
unfolding from_str fmt identified
from_str-fmt id v = rw (length-hex id.raw, v.size, pairs-hex id.raw v.bytes) refl

-- An identifier of twelve bytes, as it is written in a message, is read back as it was.
pub visit_str-serialize : (id : ObjectId) → IsValid id → visit_str (serialize id) ≡ ok id
unfolding visit_str visited serialize
visit_str-serialize id v = rw (from_str-fmt id v) refl
