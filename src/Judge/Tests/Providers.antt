-- ===== src/Judge/Tests/Providers.antt =====
-- Language providers, compilations, and the preparation of tasks, on the small machine.
use wave_judge.Prelude.{
  ◌≡◌, refl, true, false, none, some, [], ◌∷◌, codes, contains, text_eq, ok, err,
}
use wave_judge.Sandbox.Daemon.{
  daemon_main, attach, wait_for_exit, guard_wait, wait_result, after_wait, on_wait, round, settle,
  finish,
}
use wave_judge.Sandbox.Builder.{
  Builder, new, add_arg, add_env, inherit_envs, memento, is_valid_c_string,
}
use wave_judge.Sandbox.Launch.{start_parent}
use wave_judge.Judge.Languages.{
  languages, LanguageIdentifier, LanguageProvider, LanguageManager, Program, no_languages, register,
  insert, find, register_all, find_in, get, find_branch, has_branch, branch_eq,
}
use wave_judge.Judge.Task.{JudgeTaskDescriptor, compilation_of, succeed, task_of, default_limits}
use wave_judge.Judge.Engine.{
  JudgeEngineConfig, new_config, apply_judgee_bdr_config, online_judge, configured_judgee, build,
  add_args, add_envs, find_language_provider, continue, run_process, waited,
}
use wave_judge.Judge.Engine.Executor.{JudgeContext}
use wave_judge.Judge.Engine.Compiler.{
  compile, get_compile_info, info_of, needed_info, compile_with, execute_compiler, compiler_result,
}
use wave_judge.Judge.Engine.Judging.{
  prepare, get_execution_info, or_language_error, context_of, in_dir, set_limits,
}
use wave_judge.Judge.Engine.Judging.Contexts.{Confined, prepare-Confined}
use wave_judge.Judge.Languages.Listing.{listed, is_some, languages-find}
use wave_judge.Judge.Tests.Tokens.{numbers}
use wave_judge.Judge.Checkers.{get_checker, default}
use wave_judge.Judge.Tests.Machine.{ending, machine, python, solution, case_1}

-- A provider of an interpreted language, and one of a compiled language.
abbrev pub cpython : LanguageProvider
cpython = record {
  metadata = record { name = codes "python"; branches = python.branch ∷ []; interpreted = true };
  compile = λ program kind dir. err (codes "interpreted");
  execute = λ program kind. ok (record {
    executable = codes "/usr/bin/python3";
    args = program.file ∷ [];
    envs = [];
    syscall_whitelist = [];
  });
}

abbrev pub rust : LanguageIdentifier
rust = record {
  language = codes "rust";
  branch = record { dialect = codes "rustc"; version = codes "1" };
}

abbrev pub rustc : LanguageProvider
rustc = record {
  metadata = record { name = codes "rust"; branches = rust.branch ∷ []; interpreted = false };
  compile = λ program kind dir. ok (record {
    compiler = record {
      executable = codes "/usr/bin/rustc";
      args = program.file ∷ [];
      envs = [];
      syscall_whitelist = [];
    };
    output_file = codes "/tmp/out/a";
  });
  execute = λ program kind.
      ok (record { executable = program.file; args = []; envs = []; syscall_whitelist = [] });
}

abbrev pub manager : LanguageManager
manager = register_all (cpython ∷ rustc ∷ []) no_languages

abbrev pub rust_source : Program
rust_source = record { file = codes "/tmp/a.rs"; language = rust }

pub rust-compiles :
    compile machine manager (compilation_of rust_source) tt
    ≡ some (ok (succeed (codes "/tmp/out/a")), tt)
unfolding compile get_compile_info find_language_provider info_of needed_info compile_with
    execute_compiler build add_args add_envs add_arg inherit_envs is_valid_c_string contains new
    continue find find_in get find_branch has_branch branch_eq register_all register insert text_eq
    run_process start_parent waited wait_for_exit attach daemon_main round guard_wait on_wait
    wait_result after_wait settle finish ending compiler_result
rust-compiles = refl

-- The engine runs judgees as the user 1000 and gives checkers ten seconds.
abbrev pub config : JudgeEngineConfig
config = record new_config {
  judge_uid = some 1000;
  jury_cpu_time_limit = some 10000000000;
  jury_real_time_limit = some 30000000000;
}

abbrev pub standard_task : JudgeTaskDescriptor
standard_task = record (task_of solution) { test_suite = case_1 ∷ [] }

abbrev python_builder : Builder
python_builder = record (new (codes "/usr/bin/python3")) {
  args = codes "/usr/bin/python3" ∷ solution.file ∷ [];
  envs = (codes "ONLINE_JUDGE", codes "YES") ∷ [];
  uid = some 1000;
}

abbrev pub standard_context : JudgeContext
standard_context = record {
  task = standard_task;
  judge_dir = codes "/tmp/j";
  judgee_bdr = memento (in_dir (codes "/tmp/j") (set_limits default_limits python_builder));
  builtin_checker = some (get_checker numbers default);
  jury_bdr = none;
}

pub prepared :
    prepare numbers machine manager config standard_task tt ≡ some (ok standard_context, tt)
unfolding prepare get_execution_info find_language_provider or_language_error build add_args
    add_envs add_arg add_env apply_judgee_bdr_config online_judge configured_judgee
    is_valid_c_string contains new continue context_of find find_in get find_branch has_branch
    branch_eq register_all register insert text_eq memento
prepared = refl

prepare-Confined_example : Confined config standard_task standard_context
prepare-Confined_example =
    prepare-Confined numbers machine manager config standard_task standard_context tt tt prepared

languages-find_example :
    listed rust (languages (register_all (cpython ∷ rustc ∷ []) no_languages))
    ≡ is_some (find rust (register_all (cpython ∷ rustc ∷ []) no_languages))
languages-find_example = languages-find rust (cpython ∷ rustc ∷ [])
