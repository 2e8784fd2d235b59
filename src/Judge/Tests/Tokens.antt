-- ===== src/Judge/Tests/Tokens.antt =====
-- Files of a few bytes, their tokens, and what the checkers say of them.
use wave_judge.Prelude.{
  ◌-◌, ◌/◌, ltb, ◌==◌, if◌then◌else◌, ℕ, ◌≡◌, ◌↔◌, refl, Bool, true, false, Option, none, some,
  List, [], ◌∷◌, All, Text, codes, ok, arith,
}
use wave_judge.Judge.Tokens.{Block, block, new}
use wave_judge.Judge.Tokens.Utf8.{is_utf8, valid_from, advance, lead, continuation, ends}
use wave_judge.Judge.Tokens.Words.{tokens}
use wave_judge.Judge.Tokens.Bytes.{IsBlock, content, new-Holds}
use wave_judge.Judge.Tokens.Reads.{NextToken, read_token-NextToken}
use wave_judge.Judge.Checkers.{
  CheckerResult, builtin_checker_exec, default_check, case_insensitive_check, Float64,
  floating_point_check,
}
use wave_judge.Judge.Checkers.Compare.{AllUtf8, compare, exec-compare}
use wave_judge.Judge.Checkers.Standard.{
  default_checker-accepts, lowered, case_insensitive_checker-accepts,
}
use wave_judge.Judge.Checkers.Floats.{Ieee, floating_point_check-infinite}

-- "1 2" and a newline, in two reads.
abbrev answer : List Block
answer = block (codes "1 ") ∷ block (50 ∷ 10 ∷ []) ∷ []

-- A blank, "1", a newline and "2", in one read.
abbrev output : List Block
output = block (32 ∷ 49 ∷ 10 ∷ 50 ∷ []) ∷ []

answer-IsBlock : All IsBlock answer
answer-IsBlock = (omega arith, (omega arith, tt))

output-IsBlock : All IsBlock output
output-IsBlock = (omega arith, tt)

answer-AllUtf8 : AllUtf8 (tokens (content answer))
unfolding tokens is_utf8 valid_from advance lead continuation ends
answer-AllUtf8 = (refl, (refl, tt))

output-AllUtf8 : AllUtf8 (tokens (content output))
unfolding tokens is_utf8 valid_from advance lead continuation ends
output-AllUtf8 = (refl, (refl, tt))

read_token-NextToken_example : NextToken 5 (new answer) (content answer) (tokens (content answer))
read_token-NextToken_example =
    read_token-NextToken 5 (new answer) (content answer) (new-Holds answer answer-IsBlock)
      (omega arith)

exec-compare_example :
    builtin_checker_exec 5 case_insensitive_check 0 (new answer) (new output)
    ≡ some
        (ok (compare case_insensitive_check 0 (tokens (content answer)) (tokens (content output))))
exec-compare_example =
    exec-compare case_insensitive_check 5 answer output answer-IsBlock output-IsBlock answer-AllUtf8
      output-AllUtf8 (omega arith) (omega arith)

default_checker-accepts_example :
    (r : CheckerResult) × (builtin_checker_exec 5 default_check 0 (new answer) (new output)
      ≡ some (ok r))
    × ((r.accepted ≡ true) ↔ (tokens (content answer) ≡ tokens (content output)))
default_checker-accepts_example =
    default_checker-accepts 5 answer output answer-IsBlock output-IsBlock answer-AllUtf8
      output-AllUtf8 (omega arith) (omega arith)

case_insensitive_checker-accepts_example :
    (r : CheckerResult) × (builtin_checker_exec 5 case_insensitive_check 0 (new answer) (new output)
      ≡ some (ok r))
    × ((r.accepted ≡ true)
        ↔ (lowered (tokens (content answer)) ≡ lowered (tokens (content output))))
case_insensitive_checker-accepts_example =
    case_insensitive_checker-accepts 5 answer output answer-IsBlock output-IsBlock answer-AllUtf8
      output-AllUtf8 (omega arith) (omega arith)

-- A small stand-in for `f64`: natural numbers, one infinite number and NaN.
pub data Number : Type 0 where
  finite : ℕ → Number
  infinite nan : Number

pub read_number : Text → Option Number
read_number [] = none
read_number (d ∷ rest) = some (if d == 105 then infinite else finite d)

pub is_nan : Number → Bool
is_nan nan = true
is_nan _ = false

is_infinite : Number → Bool
is_infinite infinite = true
is_infinite _ = false

-- Infinity less infinity is NaN, and an infinite operand makes the rest infinite.
pub minus : Number → Number → Number
minus (finite a) (finite b) = finite (a - b)
minus (finite a) infinite = infinite
minus infinite (finite b) = infinite
minus _ _ = nan

-- Division by infinity gives zero, but infinity over infinity is NaN.
pub over : Number → Number → Number
over (finite a) (finite b) = finite (a / b)
over (finite a) infinite = finite 0
over infinite (finite b) = infinite
over _ _ = nan

pub less : Number → Number → Bool
less (finite a) (finite b) = ltb a b
less (finite a) infinite = true
less _ _ = false

abbrev pub numbers : Float64
numbers = record {
  F = Number;
  from_str = read_number;
  show = λ _. [];
  nan = nan;
  is_nan = is_nan;
  sub = minus;
  div = over;
  abs = λ x. x;
  lt = less;
  tolerance = finite 0;
}

less-nan : (x y : Number) → is_nan y ≡ true → less x y ≡ false
unfolding is_nan less
less-nan x (finite b) h = cc
less-nan x infinite h = cc
less-nan (finite a) nan h = refl
less-nan infinite nan h = refl
less-nan nan nan h = refl

infinite_not_nan : (x : Number) → is_infinite x ≡ true → is_nan x ≡ false
unfolding is_nan is_infinite
infinite_not_nan (finite a) h = cc
infinite_not_nan infinite h = refl
infinite_not_nan nan h = cc

over-infinite :
    (u e : Number) → is_infinite e ≡ true → is_nan u ≡ false → is_nan (over (minus u e) e) ≡ true
unfolding is_nan is_infinite over minus
over-infinite u (finite b) h n = cc
over-infinite u nan h n = cc
over-infinite (finite a) infinite h n = refl
over-infinite infinite infinite h n = refl
over-infinite nan infinite h n = refl

abbrev numbers-Ieee : Ieee numbers
numbers-Ieee = record {
  is_infinite = is_infinite;
  lt-nan = less-nan;
  abs-nan = λ x h. h;
  infinite_not_nan = infinite_not_nan;
  div-infinite = over-infinite;
}

inf-read : read_number (codes "inf") ≡ some infinite
unfolding read_number
inf-read = refl

seven-read : read_number (codes "7") ≡ some (finite 55)
unfolding read_number
seven-read = refl

inf-infinite : is_infinite infinite ≡ true
unfolding is_infinite
inf-infinite = refl

seven-number : is_nan (finite 55) ≡ false
unfolding is_nan
seven-number = refl

floating_point_check-infinite_example :
    floating_point_check numbers (codes "inf") (codes "7") ≡ (true, none)
floating_point_check-infinite_example =
    floating_point_check-infinite numbers numbers-Ieee (codes "inf") (codes "7") infinite
      (finite 55) inf-read seven-read inf-infinite seven-number
