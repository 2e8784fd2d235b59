-- ===== src/Driver/Sync/Counting.antt =====
-- How many of the first `n` threads use a key.
use wave_judge.Prelude.{ℕ, zero, suc, ◌+◌, ◌≤◌, ◌<◌, ◌≡◌, refl, arith}
use mathlib.Core.Logic.{ite}
use native.Mathlib.Decide.{dec_lt, ℕ_discrete}
use wave_judge.Driver.Sync.{put, Phase, outside, waiting, acting, leaving, panicked}

module _ {ℓ} {P : Type ℓ} (weight : P → ℕ) where
  pub tally : ℕ → (ℕ → P) → ℕ
  tally zero ph = 0
  tally (suc n) ph = weight (ph n) + tally n ph

  tally-put_above :
      (n : ℕ) (ph : ℕ → P) (i : ℕ) (p : P) → n ≤ i → tally n (put ℕ_discrete ph i p) ≡ tally n ph
  unfolding tally put
  tally-put_above zero ph i p above = refl
  tally-put_above (suc n) ph i p above = ground (arith, tally-put_above n ph i p)

  -- Only the weight of the thread that moves changes.
  pub tally-put :
      (n : ℕ) (ph : ℕ → P) (i : ℕ) (p : P)
      → i < n
      → tally n (put ℕ_discrete ph i p) + weight (ph i) ≡ tally n ph + weight p
  unfolding tally put
  tally-put zero ph i p lt = absurd (omega arith)
  tally-put (suc n) ph i p lt = elim (dec_lt i n) [
    | yes inside ↦ ground (arith, tally-put n ph i p inside)
    | no last ↦ ground (arith, tally-put_above n ph i p)
  ]

  pub weight-le-tally : (n : ℕ) (ph : ℕ → P) (i : ℕ) → i < n → weight (ph i) ≤ tally n ph
  unfolding tally
  weight-le-tally zero ph i lt = absurd (omega arith)
  weight-le-tally (suc n) ph i lt = elim (dec_lt i n) [
    | yes inside ↦ omega (arith, weight-le-tally n ph i inside)
    | no last ↦ ground (arith)
  ]

  pub tally-le : ((p : P) → weight p ≤ 1) → (n : ℕ) (ph : ℕ → P) → tally n ph ≤ n
  unfolding tally
  tally-le light zero ph = omega arith
  tally-le light (suc n) ph = omega (arith, light (ph n), tally-le light n ph)

  pub tally-zero : (n : ℕ) (ph : ℕ → P) → ((i : ℕ) → weight (ph i) ≡ 0) → tally n ph ≡ 0
  unfolding tally
  tally-zero zero ph weightless = refl
  tally-zero (suc n) ph weightless = omega (arith, weightless n, tally-zero n ph weightless)

-- whether a thread is between the first and the last block for `key`
module _ {K : Type 0} (same : Discrete K) (key : K) where
  unfoldable pub using : Phase K → ℕ
  using outside = 0
  using (waiting k _) = ite (same key k) 1 0
  using (acting k _) = ite (same key k) 1 0
  using (leaving k _) = ite (same key k) 1 0
  using (panicked k _) = ite (same key k) 1 0

  pub using-le : (p : Phase K) → using p ≤ 1
  unfolding using
  using-le p = ground arith

  abbrev pub users : ℕ → (ℕ → Phase K) → ℕ
  users = tally using
