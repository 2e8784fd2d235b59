-- ===== src/Judge/Tokens/Utf8.antt =====
-- `std::str::from_utf8`: the well-formed sequences of bytes of the Unicode standard.
use wave_judge.Prelude.{
  ℕ, zero, suc, ◌==◌, Bool, true, false, ◌&&◌, leb, ltb, [], ◌∷◌, Text, if◌then◌else◌,
}

-- Between two characters, or inside one: the next byte lies from `low` to `high`, and `more`
-- continuation bytes follow it.
pub data Position : Type 0 where
  start : Position
  inside : (low high more : ℕ) → Position
  malformed : Position

unfoldable pub lead : ℕ → Position
lead b =
    if ltb b 0x80
    then start
    else if ltb b 0xC2
    then malformed
    else if ltb b 0xE0
    then inside 0x80 0xBF 0
    else if b == 0xE0
    then inside 0xA0 0xBF 1
    else if b == 0xED
    then inside 0x80 0x9F 1
    else if ltb b 0xF0
    then inside 0x80 0xBF 1
    else if b == 0xF0
    then inside 0x90 0xBF 2
    else if ltb b 0xF4
    then inside 0x80 0xBF 2
    else if b == 0xF4
    then inside 0x80 0x8F 2
    else malformed

unfoldable pub continuation : ℕ → Position
continuation zero = start
continuation (suc more) = inside 0x80 0xBF more

unfoldable pub advance : Position → ℕ → Position
unfolding lead continuation
advance start b = lead b
advance (inside low high more) b = if leb low b && leb b high then continuation more else malformed
advance malformed b = malformed

unfoldable pub ends : Position → Bool
ends start = true
ends _ = false

unfoldable pub valid_from : Position → Text → Bool
unfolding advance ends
valid_from p [] = ends p
valid_from p (b ∷ bs) = valid_from (advance p b) bs

unfoldable pub is_utf8 : Text → Bool
unfolding valid_from
is_utf8 bs = valid_from start bs
