-- ===== src/Builtin/Java.antt =====
-- builtin-languages/src/java.rs.
use wave_judge.Prelude.{
  Option, none, some, List, [], ◌∷◌, ◌++◌, map, Text, codes, false, Result, ok, panic,
  if◌then◌else◌,
}
use wave_judge.Judge.Languages.{
  Metadata, LanguageProvider, Program, ProgramKind, is_jury, CompilationInfo, ExecutionInfo,
}
use wave_judge.Builtin.Names.{parent, set_extension}
use wave_judge.Builtin.Paths.{execution_of, compilation_with, branch, make_output_file_path}

pub record JavaConfig : Type 0 where
  pub testlib_jar : Text
  pub compile_script : Text

abbrev pub java_metadata : Metadata
java_metadata = record {
  name = codes "java";
  branches =
      map (branch (codes "java"))
        (codes "7" ∷ codes "8" ∷ codes "9" ∷ codes "10" ∷ codes "11" ∷ codes "12" ∷ []);
  interpreted = false;
}

unfoldable pub class_path : JavaConfig → ProgramKind → List Text
unfolding is_jury
class_path config kind = if is_jury kind then codes "-cp" ∷ config.testlib_jar ∷ [] else []

unfoldable pub parent_or_here : Text → Text
unfolding parent
parent_or_here p = elim (parent p) [ none ↦ codes "." | some dir ↦ dir ]

unfoldable pub java_args : JavaConfig → Program → ProgramKind → Text → List Text
unfolding class_path parent_or_here
java_args config program kind output_file =
    (codes "-o" ∷ output_file ∷ codes "-d" ∷ parent_or_here output_file ∷ [])
    ++ class_path config kind
    ++ (codes "--release"
        ∷ program.language.branch.version
        ∷ codes "--source"
        ∷ program.language.branch.version
        ∷ program.file
        ∷ [])

unfoldable pub java_info :
    JavaConfig → Program → ProgramKind → Option Text → Result Text CompilationInfo
unfolding java_args set_extension compilation_with
java_info config program kind none = panic
java_info config program kind (some path) =
    let output_file = set_extension (codes "jar") path in
    ok (
      compilation_with config.compile_script output_file
        (java_args config program kind output_file))

unfoldable pub java_compile :
    JavaConfig → Program → ProgramKind → Option Text → Result Text CompilationInfo
unfolding java_info make_output_file_path
java_compile config program kind output_dir =
    java_info config program kind (make_output_file_path program.file output_dir)

unfoldable pub java_execute : JavaConfig → Program → ProgramKind → Result Text ExecutionInfo
unfolding execution_of class_path
java_execute config program kind = ok (record (execution_of (codes "java")) {
  args = class_path config kind ++ (codes "-jar" ∷ program.file ∷ []);
})

abbrev pub java_provider : JavaConfig → LanguageProvider
java_provider config = record {
  metadata = java_metadata;
  compile = java_compile config;
  execute = java_execute config;
}
