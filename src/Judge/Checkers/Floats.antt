-- ===== src/Judge/Checkers/Floats.antt =====
-- The floating point aware checker on an expected answer that is infinite.
use wave_judge.Prelude.{
  ◌≡◌, refl, Bool, true, false, Bool-cases, none, some, Text, text_eq, inl, inr,
}
use wave_judge.Judge.Checkers.{
  Float64, floating_point_check, compare_parsed, compare_numbers, fp_error,
}

-- What IEEE 754 says of infinite numbers and of NaN, for the operations that the checker uses.
pub record Ieee (fl : Float64) : Type 0 where
  pub is_infinite : fl.F → Bool
  pub lt-nan : (x y : fl.F) → fl.is_nan y ≡ true → fl.lt x y ≡ false
  pub abs-nan : (x : fl.F) → fl.is_nan x ≡ true → fl.is_nan (fl.abs x) ≡ true
  pub infinite_not_nan : (x : fl.F) → is_infinite x ≡ true → fl.is_nan x ≡ false
  pub div-infinite :
      (u e : fl.F)
      → is_infinite e ≡ true
      → fl.is_nan u ≡ false
      → fl.is_nan (fl.div (fl.sub u e) e) ≡ true

module _ (fl : Float64) (ieee : Ieee fl) where
  open fl use {F, from_str, is_nan, sub, div, abs, lt, tolerance}
  open ieee use {is_infinite, lt-nan, abs-nan, infinite_not_nan, div-infinite}

  relative-nan :
      (u e : F) → is_infinite e ≡ true → is_nan u ≡ false → is_nan (abs (div (sub u e) e)) ≡ true
  relative-nan u e i n = abs-nan _ (div-infinite u e i n)

  fp_error-infinite :
      (u e : F) → is_infinite e ≡ true → is_nan u ≡ false → lt tolerance (fp_error fl u e) ≡ false
  unfolding fp_error
  fp_error-infinite u e i n =
      rw (lt-nan (abs (sub u e)) _ (relative-nan u e i n))
        (lt-nan tolerance _ (relative-nan u e i n))

  compare_parsed-infinite :
      (expected user : Text) (e u : F)
      → is_infinite e ≡ true
      → is_nan u ≡ false
      → compare_parsed fl expected user (some e) (some u) ≡ (true, none)
  unfolding compare_parsed compare_numbers
  compare_parsed-infinite expected user e u i n =
      rw (infinite_not_nan e i, n, fp_error-infinite u e i n) refl

  -- For operations that follow IEEE 754: when the expected token is an infinite number, the
  -- checker accepts each token that is a number and not NaN, since the relative error is NaN then,
  -- and NaN is not above the tolerance.
  pub floating_point_check-infinite :
      (expected user : Text) (e u : F)
      → from_str expected ≡ some e
      → from_str user ≡ some u
      → is_infinite e ≡ true
      → is_nan u ≡ false
      → floating_point_check fl expected user ≡ (true, none)
  unfolding floating_point_check
  floating_point_check-infinite expected user e u pe pu i n =
      elim (Bool-cases (text_eq expected user)) [
        | inl same ↦ rw same refl
        | inr other ↦ rw (other, pe, pu) (compare_parsed-infinite expected user e u i n)
      ]
