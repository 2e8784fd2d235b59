-- ===== src/Driver/Tests/Threads.antt =====
-- A submission that compiles, and the thread that received it.
use wave_judge.Prelude.{◌≡◌, refl, inl, some, [], Text, codes, ok, err}
use wave_judge.Judge.Task.{succeed}
use wave_judge.Driver.Entities.{to_judge_language}
use wave_judge.Driver.Tests.{a_problem, a_submission}
use wave_judge.Driver.Workers.{Services, has_jury}
use wave_judge.Driver.Workers.Submissions.{CompilesAsEngine}
use wave_judge.Driver.Workers.Threads.{Board, dead, worker_entry}
use wave_judge.Driver.Workers.Threads.Deaths.{Compiles, worker_entry-Compiles}

-- Services whose compiler accepts every program.
abbrev lenient : Services Unit Text
lenient = record {
  problem = λ id w. (ok a_problem, w);
  archive = λ id w. (ok [], w);
  compile_source = λ source lang kind w. (ok (succeed (codes "a.out")), w);
  execute_cmd = λ cmd w. (err (codes "not reached"), w);
}

lenient-CompilesAsEngine : CompilesAsEngine lenient
lenient-CompilesAsEngine source lang kind w w' r h = inl (codes "a.out", cc)

abbrev one_board : Board Unit Text
one_board = record {
  get_submission = λ w. (ok (some a_submission), w);
  patch_judge_result = λ id result w. (ok tt, w);
}

lenient-Compiles : Compiles lenient one_board a_submission a_problem tt tt
unfolding to_judge_language has_jury succeed
lenient-Compiles = record {
  before = tt;
  located = tt;
  test_cases = [];
  result = succeed (codes "a.out");
  received = refl;
  described = refl;
  unpacked = tt;
  archived = refl;
  jury_ready = refl;
  compiled = refl;
  good = refl;
}

worker_entry-Compiles_example : worker_entry lenient one_board 3 tt ≡ dead tt
worker_entry-Compiles_example =
    worker_entry-Compiles lenient one_board a_submission a_problem 2 tt tt lenient-CompilesAsEngine
      lenient-Compiles
