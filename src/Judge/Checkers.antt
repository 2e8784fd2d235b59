-- ===== src/Judge/Checkers.antt =====
-- judge/src/engine/checkers.rs: the built-in checkers of the standard judge mode. Floating point
-- numbers are a parameter.
pub mod Compare
pub mod Standard
pub mod Floats
use wave_judge.Prelude.{
  ℕ, zero, suc, ◌+◌, ◌-◌, ◌%◌, ◌^◌, ltb, Bool, true, false, not, ◌&&◌, leb, Option, none, some,
  List, [], ◌∷◌, ◌++◌, map, Text, codes, text_eq, decimal, Result, ok, err, panic, if◌then◌else◌,
}
use wave_judge.Judge.Tokens.{IoError, Reader, Run, read_token}

pub record CheckerResult : Type 0 where
  pub accepted : Bool
  pub comment : Option Text

-- `CheckerResult::accepted` and `CheckerResult::rejected`.
abbrev pub accept : Option Text → CheckerResult
accept comment = record { accepted = true; comment = comment }

abbrev pub reject : Option Text → CheckerResult
reject comment = record { accepted = false; comment = comment }

-- What a checker does with two tokens, the expected one first.
abbrev pub TokenCheck : Type 0
TokenCheck = Text → Text → Bool × Option Text

abbrev pub quoted : Text → Text
quoted t = 34 ∷ (t ++ 34 ∷ [])

abbrev pub found_eof : Text → Text
found_eof expected = codes "expect " ++ (quoted expected ++ codes ", but found EOF")

abbrev pub expect_eof : Text → Text
expect_eof user = codes "expect EOF, but found " ++ quoted user

-- The counter of the tokens is an `i32`, as its 32 bits: it wraps around, as in a release build, and is
-- shown with its sign.
abbrev pub next_count : ℕ → ℕ
next_count n = (n + 1) % 2 ^ 32

abbrev pub show_i32 : ℕ → Text
show_i32 n = if ltb n (2 ^ 31) then decimal n else 45 ∷ decimal (2 ^ 32 - n)

abbrev pub all_right : ℕ → Text
all_right n = codes "OK: " ++ (show_i32 n ++ codes " tokens.")

-- A token, the end, or an error that `?` returns.
abbrev pub on_token :
    {A : Type 0}
    → Run (Option Text)
    → (Text → Reader → Option (Result IoError A))
    → (Reader → Option (Result IoError A))
    → Option (Result IoError A)
on_token none next end = none
on_token (some (ok (some t), r)) next end = next t r
on_token (some (ok none, r)) next end = end r
on_token (some (err e, r)) next end = some (err e)
on_token (some (panic, r)) next end = some panic

-- The answer of the check on two tokens; the rest of the loop waits.
abbrev pub on_check :
    Bool × Option Text
    → (Unit {0} → Option (Result IoError CheckerResult))
    → Option (Result IoError CheckerResult)
on_check (true, comment) next = next tt
on_check (false, comment) next = some (ok (reject comment))

-- `builtin_checker_exec`, on fuel; `n` is the counter of the tokens that matched.
unfoldable pub builtin_checker_exec :
    ℕ → TokenCheck → ℕ → Reader → Reader → Option (Result IoError CheckerResult)
unfolding read_token
builtin_checker_exec zero check n answer output = none
builtin_checker_exec (suc f) check n answer output =
    on_token (read_token (suc f) answer)
      (λ expected answer'.
        on_token (read_token (suc f) output)
          (λ user output'.
            on_check (check expected user)
              (λ _. builtin_checker_exec f check (next_count n) answer' output'))
          (λ output'. some (ok (reject (some (found_eof expected))))))
      (λ answer'.
        on_token (read_token (suc f) output)
          (λ user output'. some (ok (reject (some (expect_eof user)))))
          (λ output'. some (ok (accept (some (all_right n))))))

unfoldable pub default_check : TokenCheck
unfolding text_eq
default_check expected user =
    if not (text_eq expected user)
    then (
      false,
      some (
          codes "expected "
          ++ (quoted expected ++ (codes ", but found " ++ (quoted user ++ codes ".")))),
    )
    else (true, none)

-- `u8::to_ascii_lowercase`.
abbrev pub to_lower : ℕ → ℕ
to_lower b = if leb 65 b && leb b 90 then b + 32 else b

unfoldable pub case_insensitive_check : TokenCheck
unfolding text_eq
case_insensitive_check expected user =
    if text_eq (map to_lower expected) (map to_lower user)
    then (true, none)
    else (false, some (codes "expected " ++ (quoted expected ++ (codes ", found " ++ quoted user))))

-- `f64` and the operations of it that the checker uses.
pub record Float64 : Type 1 where
  pub F : Type 0
  pub from_str : Text → Option F
  pub show : F → Text
  pub nan : F
  pub is_nan : F → Bool
  pub sub : F → F → F
  pub div : F → F → F
  pub abs : F → F
  pub lt : F → F → Bool
  pub tolerance : F

module _ (fl : Float64) where
  open fl use {F, from_str, show, nan, is_nan, sub, div, abs, lt, tolerance}

  abbrev pub error_message : Text → Text → F → Text
  error_message expected user error =
      codes "expected: "
      ++ (quoted expected
          ++ (codes ", but found: "
              ++ (quoted user ++ (codes ", error is " ++ (show error ++ codes ".")))))

  fp_error : F → F → F
  fp_error user expected =
      let abs_error = abs (sub user expected) in
      let rel_error = abs (div (sub user expected) expected) in
      if lt abs_error rel_error then abs_error else rel_error

  -- The match on `(expected_fp.is_nan(), user_fp.is_nan())` and what follows it.
  compare_numbers : Text → Text → F → F → Bool → Bool → Bool × Option Text
  unfolding fp_error
  compare_numbers e u expected user true true = (true, none)
  compare_numbers e u expected user true false = (false, some (error_message e u nan))
  compare_numbers e u expected user false true = (false, some (error_message e u nan))
  compare_numbers e u expected user false false =
      if lt tolerance (fp_error user expected)
      then (false, some (error_message e u (fp_error user expected)))
      else (true, none)

  compare_parsed : Text → Text → Option F → Option F → Bool × Option Text
  unfolding compare_numbers
  compare_parsed e u none user = (false, some (error_message e u nan))
  compare_parsed e u (some expected) none = (false, some (error_message e u nan))
  compare_parsed e u (some expected) (some user) =
      compare_numbers e u expected user (is_nan expected) (is_nan user)

  unfoldable pub floating_point_check : TokenCheck
  unfolding text_eq compare_parsed
  floating_point_check expected user =
      if text_eq expected user
      then (true, none)
      else compare_parsed expected user (from_str expected) (from_str user)

-- `BuiltinCheckers`.
pub data BuiltinCheckers : Type 0 where
  default floating_point_aware case_insensitive : BuiltinCheckers

-- `get_checker`: the check that a built-in checker runs `builtin_checker_exec` with.
unfoldable pub get_checker : Float64 → BuiltinCheckers → TokenCheck
unfolding default_check case_insensitive_check floating_point_check
get_checker fl default = default_check
get_checker fl floating_point_aware = floating_point_check fl
get_checker fl case_insensitive = case_insensitive_check
