-- ===== src/Builtin/Cxx.antt =====
-- builtin-languages/src/cxx.rs: C and C++.
use wave_judge.Prelude.{
  false, ◌&&◌, Option, none, some, List, [], ◌∷◌, ◌++◌, map, Text, codes, text_eq, Result, ok,
  panic, if◌then◌else◌,
}
use wave_judge.Judge.Languages.{
  LanguageBranch, Metadata, LanguageProvider, Program, ProgramKind, is_jury, CompilationInfo,
  ExecutionInfo,
}
use wave_judge.Builtin.Paths.{execution_of, compilation_with, branch, make_output_file_path}

pub record CxxConfig : Type 0 where
  pub testlib_include_dir : Text
  pub testlib_lib_dir : Text

abbrev pub c_branches : List LanguageBranch
c_branches =
    map (branch (codes "clang"))
      (codes "c89" ∷ codes "c95" ∷ codes "c99" ∷ codes "c11" ∷ codes "c17" ∷ [])
    ++ map (branch (codes "gnu"))
        (codes "c89" ∷ codes "c95" ∷ codes "c99" ∷ codes "c11" ∷ codes "c17" ∷ [])

abbrev pub cpp_branches : List LanguageBranch
cpp_branches =
    map (branch (codes "clang"))
      (codes "c++98" ∷ codes "c++03" ∷ codes "c++11" ∷ codes "c++14" ∷ codes "c++17" ∷ [])
    ++ map (branch (codes "gnu"))
        (codes "c++98" ∷ codes "c++03" ∷ codes "c++11" ∷ codes "c++14" ∷ codes "c++17" ∷ [])

abbrev pub c_metadata : Metadata
c_metadata = record { name = codes "c"; branches = c_branches; interpreted = false }

abbrev pub cpp_metadata : Metadata
cpp_metadata = record { name = codes "cpp"; branches = cpp_branches; interpreted = false }

-- none is the panic on a language that the provider does not have
unfoldable pub compiler_of : Text → Text → Option Text
unfolding text_eq
compiler_of language dialect =
    if text_eq language (codes "c") && text_eq dialect (codes "gnu")
    then some (codes "gcc")
    else if text_eq language (codes "c") && text_eq dialect (codes "clang")
    then some (codes "clang")
    else if text_eq language (codes "cpp") && text_eq dialect (codes "gnu")
    then some (codes "g++")
    else if text_eq language (codes "cpp") && text_eq dialect (codes "clang")
    then some (codes "clang++")
    else none

unfoldable pub when_jury : ProgramKind → List Text → List Text
unfolding is_jury
when_jury kind args = if is_jury kind then args else []

unfoldable pub cxx_args : CxxConfig → Program → ProgramKind → Text → List Text
unfolding when_jury
cxx_args config program kind output_file =
    (codes "-O2" ∷ (codes "-std=" ++ program.language.branch.version) ∷ codes "-DONLINE_JUDGE" ∷ [])
    ++ when_jury kind
        ((codes "-I" ++ config.testlib_include_dir) ∷ (codes "-L" ++ config.testlib_lib_dir) ∷ [])
    ++ (codes "-o" ∷ output_file ∷ program.file ∷ [])
    ++ when_jury kind (codes "-lwavetest" ∷ [])

unfoldable pub cxx_info :
    CxxConfig → Program → ProgramKind → Option Text → Option Text → Result Text CompilationInfo
unfolding cxx_args compilation_with
cxx_info config program kind none output_file = panic
cxx_info config program kind (some compiler) none = panic
cxx_info config program kind (some compiler) (some output_file) =
    ok (compilation_with compiler output_file (cxx_args config program kind output_file))

unfoldable pub cxx_compile :
    CxxConfig → Program → ProgramKind → Option Text → Result Text CompilationInfo
unfolding cxx_info compiler_of make_output_file_path
cxx_compile config program kind output_dir =
    cxx_info config program kind
      (compiler_of program.language.language program.language.branch.dialect)
      (make_output_file_path program.file output_dir)

unfoldable pub cxx_execute : Program → ProgramKind → Result Text ExecutionInfo
unfolding execution_of
cxx_execute program kind = ok (execution_of program.file)

abbrev pub c_provider : CxxConfig → LanguageProvider
c_provider config = record {
  metadata = c_metadata;
  compile = cxx_compile config;
  execute = cxx_execute;
}

abbrev pub cpp_provider : CxxConfig → LanguageProvider
cpp_provider config = record {
  metadata = cpp_metadata;
  compile = cxx_compile config;
  execute = cxx_execute;
}
