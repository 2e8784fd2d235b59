-- ===== src/Driver/Entities/Conversion.antt =====
-- The verdicts that the board is told, of a submission and of its test cases.
use wave_judge.Prelude.{arith, suc, ◌≡◌, ◌↔◌, refl, ap, List, [], ◌∷◌, map, length, All}
use wave_judge.Judge.Verdicts.{TestCaseResult, Verdict as JudgeVerdict}
use wave_judge.Judge.Verdicts.Laws.{add_all-Summarises, add_all-accepted}
use wave_judge.Judge.Verdicts.{add_all, new_result}
use wave_judge.Driver.Entities.{BoardVerdict, from_verdict, from_case, from_result}

-- The board's verdict of one that the engine gave, told back.
engine_verdict : BoardVerdict → JudgeVerdict
engine_verdict BoardVerdict.wrong_answer = JudgeVerdict.wrong_answer
engine_verdict BoardVerdict.runtime_error = JudgeVerdict.runtime_error
engine_verdict BoardVerdict.time_limit_exceeded = JudgeVerdict.time_limit_exceeded
engine_verdict BoardVerdict.memory_limit_exceeded = JudgeVerdict.memory_limit_exceeded
engine_verdict BoardVerdict.idleness_limit_exceeded = JudgeVerdict.idleness_limit_exceeded
engine_verdict BoardVerdict.bad_system_call = JudgeVerdict.banned_system_call
engine_verdict BoardVerdict.checker_failed = JudgeVerdict.checker_failed
engine_verdict BoardVerdict.interactor_failed = JudgeVerdict.interactor_failed
engine_verdict _ = JudgeVerdict.accepted

engine_verdict-from_verdict : (v : JudgeVerdict) → engine_verdict (from_verdict v) ≡ v
unfolding engine_verdict from_verdict
engine_verdict-from_verdict v = ground arith

from_verdict-injective : (a b : JudgeVerdict) → (from_verdict a ≡ from_verdict b) ↔ (a ≡ b)
from_verdict-injective a b = (
  λ e. cc (engine_verdict-from_verdict a, engine_verdict-from_verdict b, ap engine_verdict e),
  λ e. ap from_verdict e,
)

cases-accepted :
    (rs : List TestCaseResult)
    → All (λ c. c.verdict ≡ JudgeVerdict.accepted) rs
      ↔ All (λ c. c.verdict ≡ BoardVerdict.accepted) (map from_case rs)
unfolding from_case
cases-accepted [] = (λ h. h, λ h. h)
cases-accepted (r ∷ rs) = (
  λ h. ((from_verdict-injective r.verdict JudgeVerdict.accepted).1 h.0, (cases-accepted rs).0 h.1),
  λ h. ((from_verdict-injective r.verdict JudgeVerdict.accepted).0 h.0, (cases-accepted rs).1 h.1),
)

-- The board is told that a submission is accepted exactly when it is told so of each test case, and it
-- is told of as many test cases as were judged.
pub from_result-accepted :
    (rs : List TestCaseResult)
    → (((from_result (add_all new_result rs)).verdict ≡ BoardVerdict.accepted)
        ↔ All
            (λ c. c.verdict ≡ BoardVerdict.accepted)
            (from_result (add_all new_result rs)).test_cases)
      × (length (from_result (add_all new_result rs)).test_cases ≡ length rs)
unfolding from_result
from_result-accepted rs = rw (add_all-Summarises rs).suite (
  (
    λ h.
        (cases-accepted rs).0
          ((add_all-accepted rs).0 ((from_verdict-injective _ JudgeVerdict.accepted).0 h)),
    λ h.
        (from_verdict-injective _ JudgeVerdict.accepted).1
          ((add_all-accepted rs).1 ((cases-accepted rs).1 h)),
  ),
  length-cases rs,
)
  where
    length-cases : (rs : List TestCaseResult) → length (map from_case rs) ≡ length rs
    length-cases [] = refl
    length-cases (r ∷ rs) = ap suc (length-cases rs)
