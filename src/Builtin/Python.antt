-- ===== src/Builtin/Python.antt =====
-- builtin-languages/src/py.rs; Python is interpreted, and compile is `unreachable!`.
use wave_judge.Prelude.{
  Option, [], ◌∷◌, ◌++◌, map, Text, codes, true, Result, ok, panic, if◌then◌else◌,
}
use wave_judge.Judge.Languages.{
  Metadata, LanguageProvider, Program, ProgramKind, is_jury, CompilationInfo, ExecutionInfo,
}
use wave_judge.Builtin.Paths.{execution_of, branch}

pub record PythonConfig : Type 0 where
  pub testlib_module_dir : Text

abbrev pub python_metadata : Metadata
python_metadata = record {
  name = codes "python";
  branches = map (branch (codes "cpy")) (codes "3.6" ∷ codes "3.7" ∷ codes "3.8" ∷ []);
  interpreted = true;
}

unfoldable pub python_compile : Program → ProgramKind → Option Text → Result Text CompilationInfo
python_compile program kind output_dir = panic

unfoldable pub python_execute : PythonConfig → Program → ProgramKind → Result Text ExecutionInfo
unfolding execution_of is_jury
python_execute config program kind =
    ok (record (execution_of (codes "python" ++ program.language.branch.version)) {
      args = codes "-OO" ∷ codes "-B" ∷ program.file ∷ [];
      envs = if is_jury kind then (codes "PYTHONPATH", config.testlib_module_dir) ∷ [] else [];
    })

abbrev pub python_provider : PythonConfig → LanguageProvider
python_provider config = record {
  metadata = python_metadata;
  compile = python_compile;
  execute = python_execute config;
}
