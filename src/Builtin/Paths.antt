-- ===== src/Builtin/Paths.antt =====
-- builtin-languages/src/utils.rs, and the constructors of judge/src/languages/mod.rs that the
-- providers start from. A path is its bytes.
use wave_judge.Prelude.{Option, none, some, List, [], Text, codes}
use wave_judge.Sandbox.Launch.{push_path}
use wave_judge.Judge.Languages.{ExecutionInfo, CompilationInfo, LanguageBranch}
use wave_judge.Builtin.Names.{file_stem}

-- `ExecutionInfo::new`
unfoldable pub execution_of : Text → ExecutionInfo
execution_of executable = record {
  executable = executable;
  args = [];
  envs = [];
  syscall_whitelist = [];
}

-- `CompilationInfo::new` and the pushes of the arguments
unfoldable pub compilation_with : Text → Text → List Text → CompilationInfo
unfolding execution_of
compilation_with compiler output_file args = record {
  compiler = record (execution_of compiler) { args = args };
  output_file = output_file;
}

-- `LanguageBranch::new`
abbrev pub branch : Text → Text → LanguageBranch
branch dialect version = record { dialect = dialect; version = version }

unfoldable pub output_dir_or_here : Option Text → Text
output_dir_or_here none = codes "."
output_dir_or_here (some dir) = dir

-- none is the panic for a source file without a name
unfoldable pub make_output_file_path : Text → Option Text → Option Text
unfolding output_dir_or_here push_path file_stem
make_output_file_path source_file output_dir = elim (file_stem source_file) [
  | none ↦ none
  | some stem ↦ some (push_path (output_dir_or_here output_dir) stem)
]
