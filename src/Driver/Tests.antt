-- ===== src/Driver/Tests.antt =====
-- Concrete identifiers and submissions, and the theorems on them.
mod Locks
mod Archives
mod Problems
mod Server
mod Session
mod Threads
mod Startup
use wave_judge.Prelude.{
  ℕ, true, zero, suc, inr, ◌≡◌, ◌↔◌, refl, none, List, [], ◌∷◌, replicate, All, length, Text, codes,
  ok, err, arith,
}
use wave_judge.Prelude.Work.{Work, go_on}
use wave_judge.Judge.Task.{fail}
use wave_judge.Judge.Verdicts.{TestCaseResult, new_case, wrong_answer, add_all, new_result}
use wave_judge.Driver.ObjectIds.{ObjectId, visit_str, serialize}
use wave_judge.Driver.ObjectIds.RoundTrip.{IsValid, visit_str-serialize}
use wave_judge.Driver.Entities.{BoardMode, SubmissionInfo, BoardVerdict, from_result}
use wave_judge.Driver.Entities.Conversion.{from_result-accepted}
use wave_judge.Driver.Workers.{
  patched, patch_result, Services, ProblemMetadata, has_jury, jury_compile_succeeded,
  compilation_failure, failure, after_compilation, compile_submission, handle_submission,
}
use wave_judge.Driver.Workers.Submissions.{CompilesAsEngine, NotJudged, handle_submission-NotJudged}

abbrev pub some_id : ObjectId
some_id = record { raw = 255 ∷ 16 ∷ 10 ∷ replicate 9 171 }

some_id-IsValid : IsValid some_id
some_id-IsValid = record { size = refl; bytes = ground arith }

visit_str-serialize_example : visit_str (serialize some_id) ≡ ok some_id
visit_str-serialize_example = visit_str-serialize some_id some_id-IsValid

abbrev two_cases : List TestCaseResult
two_cases = new_case ∷ record new_case { verdict = wrong_answer } ∷ []

from_result-accepted_example :
    (((from_result (add_all new_result two_cases)).verdict ≡ BoardVerdict.accepted)
      ↔ All
          (λ c. c.verdict ≡ BoardVerdict.accepted)
          (from_result (add_all new_result two_cases)).test_cases)
    × (length (from_result (add_all new_result two_cases)).test_cases ≡ length two_cases)
from_result-accepted_example = from_result-accepted two_cases

abbrev pub a_problem : ProblemMetadata
a_problem = record {
  id = some_id;
  judge_mode = BoardMode.standard;
  time_limit = 1000;
  memory_limit = 256;
  jury_src = none;
  jury_lang = none;
  jury_exec_path = none;
  archive_id = some_id;
  timestamp = 1;
}

-- Services whose compiler rejects every program.
abbrev strict : Services Unit Text
strict = record {
  problem = λ id w. (ok a_problem, w);
  archive = λ id w. (ok [], w);
  compile_source = λ source lang kind w. (ok (fail (codes "no main")), w);
  execute_cmd = λ cmd w. (err (codes "not reached"), w);
}

strict-CompilesAsEngine : CompilesAsEngine strict
strict-CompilesAsEngine source lang kind w w' r h = inr (codes "no main", cc)

abbrev pub a_submission : SubmissionInfo
a_submission = record {
  id = some_id;
  problem_id = some_id;
  source = codes "x";
  language = record { identifier = codes "c"; dialect = codes "gnu"; version = codes "11" };
}

rejected :
    handle_submission strict a_submission tt ≡ (ok (compilation_failure (codes "no main")), tt)
unfolding handle_submission go_on has_jury compile_submission after_compilation fail
    compilation_failure failure jury_compile_succeeded
rejected = refl

handle_submission-NotJudged_example : NotJudged (compilation_failure (codes "no main"))
handle_submission-NotJudged_example =
    handle_submission-NotJudged strict a_submission (compilation_failure (codes "no main")) tt tt
      strict-CompilesAsEngine rejected
