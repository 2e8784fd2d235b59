-- ===== src/Judge/Verdicts/Laws.antt =====
-- Lemmas on the overall verdict and the overall usage of a `JudgeResult`.
use mathlib.Core.List.{append-nil, append_assoc}
use wave_judge.Prelude.{
  ◌≡◌, ◌↔◌, refl, sym, ap, ◌∙◌, List, [], ◌∷◌, ◌++◌, All, arith, if◌then◌else◌,
}
use wave_judge.Sandbox.Usage.{Usage, no_usage}
use wave_judge.Sandbox.Usage.Laws.{◌⊑◌, update-lub}
use wave_judge.Judge.Verdicts.{
  Verdict, accepted, is_accepted, ◌&◌, TestCaseResult, JudgeResult, new_result,
  add_test_case_result, add_all,
}

-- The verdicts under `&` are a monoid with `Accepted` as its unit.
pub and-monoid :
    (a b c : Verdict) → (a & b & c ≡ a & (b & c)) × (accepted & a ≡ a) × (a & accepted ≡ a)
unfolding ◌&◌
and-monoid a b c = ground arith

-- The first verdict of a suite that is not `Accepted`.
abbrev pub first_failure : List TestCaseResult → Verdict
first_failure [] = accepted
first_failure (r ∷ rs) = if is_accepted r.verdict then first_failure rs else r.verdict

-- What a result says of the cases in it.
pub record Summarises (res : JudgeResult) (cases : List TestCaseResult) : Type 0 where
  pub suite : res.test_suite ≡ cases
  pub first : res.verdict ≡ first_failure cases
  pub peak : (u : Usage) → (res.rusage ⊑ u) ↔ ((no_usage ⊑ u) × All (λ c. c.rusage ⊑ u) cases)

first_failure-append :
    (rs : List TestCaseResult) (r : TestCaseResult)
    → first_failure (rs ++ r ∷ []) ≡ first_failure rs & r.verdict
unfolding ◌&◌
first_failure-append [] r = ground arith
first_failure-append (q ∷ rs) r = ground (arith, first_failure-append rs r)

covers-append :
    (rs : List TestCaseResult) (r : TestCaseResult) (u : Usage)
    → All (λ c. c.rusage ⊑ u) (rs ++ r ∷ []) ↔ (All (λ c. c.rusage ⊑ u) rs × (r.rusage ⊑ u))
covers-append [] r u = (λ h. (tt, h.0), λ h. (h.1, tt))
covers-append (c ∷ rs) r u = (
  λ h. let rest = (covers-append rs r u).0 h.1 in ((h.0, rest.0), rest.1),
  λ h. (h.0.0, (covers-append rs r u).1 (h.0.1, h.1)),
)

add-Summarises :
    (res : JudgeResult) (cases : List TestCaseResult) (r : TestCaseResult)
    → Summarises res cases
    → Summarises (add_test_case_result res r) (cases ++ r ∷ [])
unfolding add_test_case_result
add-Summarises res cases r s = record {
  suite = ap (λ (l : List TestCaseResult). l ++ r ∷ []) s.suite;
  first = ap (λ (v : Verdict). v & r.verdict) s.first ∙ sym (first_failure-append cases r);
  peak = λ u. (
    λ h.
        let both = (update-lub res.rusage r.rusage u).0 h in
        let before = (s.peak u).0 both.0 in
        (before.0, (covers-append cases r u).1 (before.1, both.1)),
    λ h.
        let all = (covers-append cases r u).0 h.1 in
        (update-lub res.rusage r.rusage u).1 ((s.peak u).1 (h.0, all.0), all.1),
  );
}

add_all-from :
    (res : JudgeResult) (done cases : List TestCaseResult)
    → Summarises res done
    → Summarises (add_all res cases) (done ++ cases)
unfolding add_all
add_all-from res done [] s = rw (append-nil done) s
add_all-from res done (r ∷ cases) s =
    rw (← append_assoc done (r ∷ []) cases) (
      add_all-from (add_test_case_result res r) (done ++ r ∷ []) cases
        (add-Summarises res done r s))

-- The result of a suite holds its cases in order, the first verdict that is not `Accepted` (or
-- `Accepted`), and a resource usage that is covered by exactly what covers the usage of every
-- case.
pub add_all-Summarises : (cases : List TestCaseResult) → Summarises (add_all new_result cases) cases
add_all-Summarises cases =
    add_all-from new_result [] cases
      (record { suite = refl; first = refl; peak = λ u. (λ h. (h, tt), λ h. h.0) })

first_failure-accepted :
    (cases : List TestCaseResult)
    → (first_failure cases ≡ accepted) ↔ All (λ c. c.verdict ≡ accepted) cases
unfolding is_accepted
first_failure-accepted [] = (λ _. tt, λ _. refl)
first_failure-accepted (c ∷ cases) = (
  λ h. (ground arith, (first_failure-accepted cases).0 (ground arith)),
  λ h. ground (arith, (first_failure-accepted cases).1 h.1),
)

-- A task is accepted exactly when each of its cases is.
pub add_all-accepted :
    (cases : List TestCaseResult)
    → ((add_all new_result cases).verdict ≡ accepted) ↔ All (λ c. c.verdict ≡ accepted) cases
add_all-accepted cases = rw (add_all-Summarises cases).first (first_failure-accepted cases)
