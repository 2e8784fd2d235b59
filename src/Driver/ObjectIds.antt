-- ===== src/Driver/ObjectIds.antt =====
-- driver/src/restful/entities.rs: `ObjectId`, 12 bytes written as 24 hexadecimal digits.
pub mod RoundTrip
use wave_judge.Prelude.{
  ℕ, zero, suc, ◌+◌, ◌-◌, ◌*◌, ◌/◌, ◌%◌, Bool, true, false, not, ◌&&◌, leb, ltb, ◌==◌, Option, none,
  some, List, [], ◌∷◌, length, Text, Result, ok, err, panic, if◌then◌else◌,
}

-- The bytes of the identifier.
pub record ObjectId : Type 0 where
  pub raw : List ℕ

-- `char::to_digit(16)`.
unfoldable pub to_digit : ℕ → Option ℕ
to_digit c =
    if leb 48 c && leb c 57
    then some (c - 48)
    else if leb 97 c && leb c 102
    then some (c - 87)
    else if leb 65 c && leb c 70
    then some (c - 55)
    else none

two_digits : Option ℕ → Option ℕ → Option ℕ
two_digits (some a) (some b) = some (a * 16 + b)
two_digits _ _ = none

-- `u8::from_str_radix(.., 16)` on two characters: a plus sign may stand before the digits.
unfoldable pub from_str_radix : ℕ → ℕ → Option ℕ
unfolding to_digit two_digits
from_str_radix a b = if a == 43 then to_digit b else two_digits (to_digit a) (to_digit b)

-- A slice of a string may end here: no character goes on.
unfoldable pub is_char_boundary : Text → Bool
is_char_boundary [] = true
is_char_boundary (c ∷ rest) = not (leb 128 c && leb c 191)

with_byte : Option ℕ → Result Unit (List ℕ) → Result Unit (List ℕ)
with_byte none rest = err tt
with_byte (some b) (ok bytes) = ok (b ∷ bytes)
with_byte (some b) (err e) = err e
with_byte (some b) panic = panic

-- The loop of `from_str`; to slice a character in two is a panic.
pairs : Text → Result Unit (List ℕ)
unfolding from_str_radix is_char_boundary with_byte
pairs [] = ok []
pairs (a ∷ []) = ok []
pairs (a ∷ b ∷ rest) =
    let bytes = pairs rest in
    if is_char_boundary rest then with_byte (from_str_radix a b) bytes else panic

identified : Result Unit (List ℕ) → Result Unit ObjectId
identified (ok bytes) = ok (record { raw = bytes })
identified (err e) = err e
identified panic = panic

unfoldable pub from_str : Text → Result Unit ObjectId
unfolding pairs identified
from_str s = if not (length s == 24) then err tt else identified (pairs s)

-- A digit of `{:02x}`.
unfoldable pub hex_digit : ℕ → ℕ
hex_digit d = if ltb d 10 then 48 + d else 87 + d

hex_bytes : List ℕ → Text
unfolding hex_digit
hex_bytes [] = []
hex_bytes (b ∷ bytes) = hex_digit (b / 16) ∷ hex_digit (b % 16) ∷ hex_bytes bytes

-- `Display::fmt`.
unfoldable pub fmt : ObjectId → Text
unfolding hex_bytes
fmt id = hex_bytes id.raw

-- `Serialize`, and `visit_str` of the visitor, with serde's error for an invalid value.
unfoldable pub serialize : ObjectId → Text
unfolding fmt
serialize id = fmt id

unfoldable pub visited : Text → Result (Unit {0}) ObjectId → Result Text ObjectId
visited v (ok id) = ok id
visited v (err e) = err v
visited v panic = panic

unfoldable pub visit_str : Text → Result Text ObjectId
unfolding from_str visited
visit_str v = visited v (from_str v)
