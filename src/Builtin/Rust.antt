-- ===== src/Builtin/Rust.antt =====
-- builtin-languages/src/rust.rs.
use wave_judge.Prelude.{
  Option, none, some, List, [], ◌∷◌, ◌++◌, map, Text, codes, false, Result, ok, panic,
  if◌then◌else◌,
}
use wave_judge.Judge.Languages.{
  Metadata, LanguageProvider, Program, ProgramKind, is_jury, CompilationInfo, ExecutionInfo,
}
use wave_judge.Builtin.Paths.{execution_of, compilation_with, branch, make_output_file_path}

pub record RustConfig : Type 0 where
  pub testlib_dir : Text

abbrev pub rust_metadata : Metadata
rust_metadata = record {
  name = codes "rust";
  branches = map (branch (codes "rust")) (codes "1.38" ∷ codes "1.39" ∷ codes "1.40" ∷ []);
  interpreted = false;
}

unfoldable pub rust_args : RustConfig → Program → ProgramKind → Text → List Text
unfolding is_jury
rust_args config program kind output_file =
    (codes "run"
      ∷ program.language.branch.version
      ∷ codes "rustc"
      ∷ codes "-C"
      ∷ codes "opt-level=2"
      ∷ codes "--cfg"
      ∷ codes "online_judge"
      ∷ [])
    ++ (if is_jury kind then codes "-L" ∷ config.testlib_dir ∷ [] else [])
    ++ (codes "-o" ∷ output_file ∷ program.file ∷ [])

unfoldable pub rust_info :
    RustConfig → Program → ProgramKind → Option Text → Result Text CompilationInfo
unfolding rust_args compilation_with
rust_info config program kind none = panic
rust_info config program kind (some output_file) =
    ok (compilation_with (codes "rustup") output_file (rust_args config program kind output_file))

unfoldable pub rust_compile :
    RustConfig → Program → ProgramKind → Option Text → Result Text CompilationInfo
unfolding rust_info make_output_file_path
rust_compile config program kind output_dir =
    rust_info config program kind (make_output_file_path program.file output_dir)

unfoldable pub rust_execute : Program → ProgramKind → Result Text ExecutionInfo
unfolding execution_of
rust_execute program kind = ok (execution_of program.file)

abbrev pub rust_provider : RustConfig → LanguageProvider
rust_provider config = record {
  metadata = rust_metadata;
  compile = rust_compile config;
  execute = rust_execute;
}
