-- ===== src/Driver/Tests/Server.antt =====
-- A fork server on a machine without state, with one interpreted language.
use wave_judge.Prelude.{
  ℕ, none, Option, if◌then◌else◌, Text, true, false, some, [], ◌∷◌, codes, text_eq, ok, err, refl,
}
use wave_judge.Judge.Languages.{
  LanguageProvider, LanguageManager, no_languages, register_all, register, insert, find, find_in,
  get, find_branch, has_branch, branch_eq, judgee, Dylib,
}
use wave_judge.Judge.Task.{succeed}
use wave_judge.Judge.Engine.{new_config, continue, find_language_provider}
use wave_judge.Judge.Engine.Compiler.{
  compile as engine_compile, get_compile_info, info_of, compile_with,
}
use wave_judge.Judge.Tests.Tokens.{numbers}
use wave_judge.Judge.Tests.Machine.{machine, python}
use wave_judge.Driver.ForkServer.{
  Server, TempFiles, execute_cmd, exchange, handle_cmd, served, compile_source, with_file, with_dir,
  compile_in, cleaned, unwrap_as_compilation_result,
}
use wave_judge.Driver.ForkServer.Answers.{compile_source-CompiledSource, CompiledSource}

abbrev running : Server Unit
running = record { alive = true; world = tt }

abbrev ended : Server Unit
ended = record { alive = false; world = tt }

abbrev cpython : LanguageProvider
cpython = record {
  metadata = record { name = codes "python"; branches = python.branch ∷ []; interpreted = true };
  compile = λ program kind dir. err (codes "interpreted");
  execute = λ program kind. err (codes "not executed");
}

abbrev only_python : LanguageManager
only_python = register_all (cpython ∷ []) no_languages

abbrev temporary : TempFiles Unit
temporary = record {
  source_file = λ source w. (ok (codes "/tmp/s"), w);
  temp_dir = λ w. (ok (codes "/tmp/d"), w);
  drop_file = λ file w. w;
  drop_dir = λ dir w. w;
}

compile_source-CompiledSource_example :
    CompiledSource numbers machine only_python new_config temporary
      (codes "print(1)")
      python
      judgee
      running
      running
      (succeed (codes "/tmp/s"))
unfolding compile_source with_file with_dir compile_in cleaned unwrap_as_compilation_result
    execute_cmd exchange handle_cmd served engine_compile get_compile_info info_of compile_with
    find_language_provider find find_in get find_branch has_branch branch_eq register_all register
    insert text_eq continue
compile_source-CompiledSource_example =
    compile_source-CompiledSource numbers machine only_python new_config temporary
      (codes "print(1)") python judgee running running (succeed (codes "/tmp/s")) refl

-- Every library registers Python, and its `init` fails.
abbrev broken : Text → Dylib
broken so = record { registered = cpython ∷ []; loaded = err (codes "no config") }

-- A system with one user.
abbrev passwd : Text → Option ℕ × ℕ
passwd name = if text_eq name (codes "judge") then (some 1000, 0) else (none, 0)
