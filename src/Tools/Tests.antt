-- ===== src/Tools/Tests.antt =====
-- The command line tools on concrete command lines.
use wave_judge.Prelude.{
  none, some, List, [], ◌∷◌, codes, contains, text_eq, ok, and_then, ◌≡◌, ◌↔◌, refl,
}
use wave_judge.Prelude.Work.{go_on}
use wave_judge.Sandbox.Memory.{mega_bytes}
use wave_judge.Sandbox.Usage.{no_usage}
use wave_judge.Sandbox.Daemon.{
  exited, Round, daemon_main, attach, wait_for_exit, guard_wait, wait_result, after_wait, on_wait,
  round, settle, finish,
}
use wave_judge.Sandbox.Builder.{Builder, new, add_arg, add_env, is_valid_c_string}
use wave_judge.Sandbox.Launch.{start_parent, split, split_at}
use wave_judge.Judge.Task.{compilation_of}
use wave_judge.Judge.Tests.Providers.{rust, rust_source}
use wave_judge.Tools.SandboxBin.{
  Matches, Machine, command, do_main, Report, get_app_config, with_program, get_options, get_envs,
  split_at_equals, or_message, optional, millis, mega, number, unsigned_from_str, unsigned_digits,
  digits_from, get_syscalls, prepare, push_args, push_envs, redirected, chained, configured,
}
use wave_judge.Tools.SandboxBin.Commands.{do_main-reports}
use wave_judge.Tools.JudgeBin.{CompileMatches, parse_lang, identifier_of, kind_of, task_from}
use wave_judge.Tools.JudgeBin.Languages.{Writes, parse_lang_iff}

abbrev matches : Matches
matches = record {
  program = codes "/bin/ls" ∷ codes "-l" ∷ [];
  envs = some (codes "LANG=C" ∷ []);
  cpu_time_limit = some (codes "1500");
  real_time_limit = none;
  memory_limit = some (codes "64");
  input_file = none;
  output_file = some (codes "out");
  error_file = none;
  uid = some (codes "+1000");
  syscall_whitelist = none;
  working_dir = none;
  root_dir = none;
}

-- The child exits with 0 at once.
abbrev rounds : List Round
rounds = record { wait = ok (exited 0); sample = ok no_usage; elapsed = some 0 } ∷ []

abbrev machine : Machine Unit
machine = record {
  open_file = λ path w. (ok 3, w);
  create_file = λ path w. (ok 4, w);
  spawn = λ b w. (ok rounds, w);
}

abbrev ls : Builder
ls = record (new (codes "/bin/ls")) {
  args = codes "/bin/ls" ∷ codes "-l" ∷ [];
  envs = (codes "LANG", codes "=C") ∷ [];
  limits = record {
    cpu_time_limit = some 1500000000;
    real_time_limit = none;
    memory_limit = some (mega_bytes 64);
  };
  redirections = record { stdin = none; stdout = some 4; stderr = none };
  uid = some 1000;
}

ls-command : command machine (λ name. none) matches tt ≡ (ok ls, tt)
unfolding command get_app_config with_program get_options get_envs split_at_equals or_message
    optional millis mega number unsigned_from_str unsigned_digits digits_from get_syscalls and_then
    go_on prepare push_args push_envs add_arg add_env is_valid_c_string contains redirected chained
    configured new
ls-command = refl

ls-ends : (wait_for_exit (start_parent ls rounds)).1 ≡ some (ok tt)
unfolding wait_for_exit start_parent attach daemon_main round guard_wait on_wait wait_result
    after_wait settle finish new
ls-ends = refl

do_main-reports_example : (r : Report) × (do_main machine (λ name. none) matches tt ≡ some (ok r))
do_main-reports_example =
    do_main-reports machine (λ name. none) matches ls rounds tt tt ls-command refl ls-ends

abbrev rust_matches : CompileMatches
rust_matches = record {
  program = codes "/tmp/a.rs";
  lang = codes "rust:rustc:1";
  kind = codes "JUDGEE";
  output = none;
}

parse_lang_iff_example :
    (parse_lang (codes "rust:rustc:1") ≡ ok rust) ↔ Writes rust (codes "rust:rustc:1")
parse_lang_iff_example = parse_lang_iff (codes "rust:rustc:1") rust

rust-task : task_from rust_matches ≡ ok (compilation_of rust_source)
unfolding task_from parse_lang identifier_of split split_at kind_of text_eq and_then
rust-task = refl
