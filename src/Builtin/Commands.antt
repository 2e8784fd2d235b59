-- ===== src/Builtin/Commands.antt =====
-- The command lines of the compilers, and the file they name as the output.
use wave_judge.Prelude.{
  Option, some, List, [], ◌∷◌, ◌++◌, Text, codes, Result, ok, if◌then◌else◌, ◌≡◌, refl, sym, ap,
}
use mathlib.Core.List.{append_assoc}
use wave_judge.Judge.Languages.{Program, ProgramKind, is_jury, CompilationInfo}
use wave_judge.Builtin.Names.{file_stem, set_extension}
use wave_judge.Builtin.Paths.{compilation_with, make_output_file_path}
use wave_judge.Builtin.Cxx.{CxxConfig, compiler_of, when_jury, cxx_args, cxx_info, cxx_compile}
use wave_judge.Builtin.Java.{
  JavaConfig, java_compile, java_info, java_args, class_path, parent_or_here,
}
use wave_judge.Builtin.Rust.{RustConfig, rust_compile, rust_info, rust_args}

-- The compiler is told to write the file that the compilation reports, and gets the source file.
pub record Writes (program : Program) (info : CompilationInfo) : Type 0 where
  pub before : List Text
  pub between : List Text
  pub after : List Text
  pub told :
      info.compiler.args
      ≡ before ++ codes "-o" ∷ info.output_file ∷ (between ++ program.file ∷ after)

pub data Described (program : Program) : Result Text CompilationInfo → Type 0 where
  described : (info : CompilationInfo) → Writes program info → Described program (ok info)

module _ (program : Program) (kind : ProgramKind) where
  cxx-Writes :
      (c : CxxConfig) (compiler o : Text)
      → Writes program (compilation_with compiler o (cxx_args c program kind o))
  unfolding compilation_with cxx_args
  cxx-Writes c compiler o = record {
    before = front;
    between = [];
    after = when_jury kind (codes "-lwavetest" ∷ []);
    told =
        append_assoc front (codes "-o" ∷ o ∷ program.file ∷ [])
          (when_jury kind (codes "-lwavetest" ∷ []));
  }
    where
      front : List Text
      front =
          (codes "-O2"
            ∷ (codes "-std=" ++ program.language.branch.version)
            ∷ codes "-DONLINE_JUDGE"
            ∷ [])
          ++ when_jury kind
              ((codes "-I" ++ c.testlib_include_dir) ∷ (codes "-L" ++ c.testlib_lib_dir) ∷ [])

  java-Writes :
      (c : JavaConfig) (script o : Text)
      → Writes program (compilation_with script o (java_args c program kind o))
  unfolding compilation_with java_args
  java-Writes c script o = record {
    before = [];
    between = front ++ release;
    after = [];
    told =
        ap (λ (l : List Text). codes "-o" ∷ o ∷ l)
          (sym (append_assoc front release (program.file ∷ [])));
  }
    where
      front : List Text
      front = (codes "-d" ∷ parent_or_here o ∷ []) ++ class_path c kind

      release : List Text
      release =
          codes "--release"
          ∷ program.language.branch.version
          ∷ codes "--source"
          ∷ program.language.branch.version
          ∷ []

  rust-Writes :
      (c : RustConfig) (o : Text)
      → Writes program (compilation_with (codes "rustup") o (rust_args c program kind o))
  unfolding compilation_with rust_args
  rust-Writes c o = record {
    before =
        (codes "run"
          ∷ program.language.branch.version
          ∷ codes "rustc"
          ∷ codes "-C"
          ∷ codes "opt-level=2"
          ∷ codes "--cfg"
          ∷ codes "online_judge"
          ∷ [])
        ++ (if is_jury kind then codes "-L" ∷ c.testlib_dir ∷ [] else []);
    between = [];
    after = [];
    told = refl;
  }

  module _ (dir : Option Text) (stem : Text) (has_stem : file_stem program.file ≡ some stem) where
    output-some : (o : Text) × (make_output_file_path program.file dir ≡ some o)
    unfolding make_output_file_path
    output-some = rw (has_stem, make_output_file_path) (_, refl)

    pub rust-Described : (c : RustConfig) → Described program (rust_compile c program kind dir)
    unfolding rust_compile rust_info
    rust-Described c = let (o, e) = output-some in rw e (described _ (rust-Writes c o))

    pub java-Described : (c : JavaConfig) → Described program (java_compile c program kind dir)
    unfolding java_compile java_info
    java-Described c =
        let (o, e) = output-some in
        rw e (described _ (java-Writes c c.compile_script (set_extension (codes "jar") o)))

    pub cxx-Described :
        (c : CxxConfig) (compiler : Text)
        → compiler_of program.language.language program.language.branch.dialect ≡ some compiler
        → Described program (cxx_compile c program kind dir)
    unfolding cxx_compile cxx_info
    cxx-Described c compiler known =
        let (o, e) = output-some in rw (known, e) (described _ (cxx-Writes c compiler o))
