-- ===== src/Builtin/Served.antt =====
-- The engine's use of the built-in providers.
use wave_judge.Prelude.{
  true, false, Bool-cases, Option, none, some, Option-cases, List, [], ◌∷◌, All, Text, codes,
  text_eq_sound, Result, ok, err, if◌then◌else◌, ◌≡◌, ◌⊎◌, inl, inr, refl, sym, ◌∙◌, subst, arith,
}
use mathlib.Core.List.{Memᴰ}
use wave_judge.Judge.Languages.{
  LanguageBranch, LanguageIdentifier, LanguageProvider, LanguageManager, no_languages, register_all,
  register, has_branch, find, Program, ProgramKind, CompilationInfo,
}
use wave_judge.Judge.Languages.Registry.{serves, first_serving, find-register_all}
use wave_judge.Judge.Task.{JudgeError, language_not_found}
use wave_judge.Judge.Engine.{find_language_provider}
use wave_judge.Judge.Engine.Compiler.{get_compile_info, info_of, needed_info}
use wave_judge.Builtin.Names.{file_stem}
use wave_judge.Builtin.Cxx.{
  CxxConfig, c_provider, cpp_provider, c_branches, cpp_branches, compiler_of, cxx_compile,
}
use wave_judge.Builtin.Java.{JavaConfig, java_provider}
use wave_judge.Builtin.Python.{PythonConfig, python_provider}
use wave_judge.Builtin.Rust.{RustConfig, rust_provider}
use wave_judge.Builtin.Init.{
  Configs, init_language_providers, run_initializers, after_init, with_config, init_cxx_providers,
  init_java_providers, init_py_providers, init_rust_providers,
}
use wave_judge.Builtin.Commands.{
  Writes, Described, described, rust-Described, java-Described, cxx-Described,
}
use wave_judge.Builtin.Dialects.{
  IsDialect, has_branch-IsDialect, compiler_of-some, c-dialects, cpp-dialects,
}

serves-named :
    (lang : LanguageIdentifier) (p : LanguageProvider)
    → serves lang p ≡ true
    → (p.metadata.name ≡ lang.language) × (has_branch lang.branch p.metadata.branches ≡ true)
serves-named lang p h = ground (arith, text_eq_sound p.metadata.name lang.language)

-- A provider that is found is one of those registered, and serves the language.
first_serving-Mem :
    (lang : LanguageIdentifier) (ps : List LanguageProvider) (p : LanguageProvider)
    → first_serving lang ps ≡ some p
    → Memᴰ p ps × (serves lang p ≡ true)
unfolding first_serving
first_serving-Mem lang [] p h = absurd (ground arith)
first_serving-Mem lang (q ∷ ps) p h = elim (Bool-cases (serves lang q)) [
  | inl yes_here ↦
      by_head (subst (λ b. (if b then some q else first_serving lang ps) ≡ some p) yes_here h)
        yes_here
  | inr elsewhere ↦
      let (there, good) =
        first_serving-Mem lang ps p
          (subst (λ b. (if b then some q else first_serving lang ps) ≡ some p) elsewhere h) in
      (Memᴰ.tail there, good)
]
  where
    by_head : some q ≡ some p → serves lang q ≡ true → Memᴰ p (q ∷ ps) × (serves lang p ≡ true)
    by_head e good = (
      Memᴰ.head (sym (ground (arith, e))),
      subst (λ x. serves lang x ≡ true) {x = q} {y = p} (ground (arith, e)) good,
    )

module _ (c : CxxConfig) (j : JavaConfig) (y : PythonConfig) (r : RustConfig) where
  abbrev builtin : List LanguageProvider
  builtin =
      c_provider c ∷ cpp_provider c ∷ java_provider j ∷ python_provider y ∷ rust_provider r ∷ []

  abbrev pub all_loaded : Configs
  all_loaded = record { cxx = ok c; java = ok j; python = ok y; rust = ok r }

  init-registers :
      (m : LanguageManager) → init_language_providers all_loaded m ≡ (register_all builtin m, ok tt)
  unfolding init_language_providers run_initializers after_init with_config init_cxx_providers
      init_java_providers init_py_providers init_rust_providers register_all register
  init-registers m = refl

  -- A provider of the five that serves the program's language is an interpreted one's, or
  -- describes the compilation.
  module _ (program : Program) (kind : ProgramKind) (dir : Option Text) (stem : Text)
      (has_stem : file_stem program.file ≡ some stem) where
    abbrev IsUsable : LanguageProvider → Type 0
    IsUsable p = (p.metadata.interpreted ≡ true) ⊎ Described program (p.compile program kind dir)

    cxx-IsUsable :
        (l : Text) (bs : List LanguageBranch)
        → (l ≡ codes "c") ⊎ (l ≡ codes "cpp")
        → All (λ x. IsDialect x.dialect) bs
        → (l ≡ program.language.language) × (has_branch program.language.branch bs ≡ true)
        → Described program (cxx_compile c program kind dir)
    cxx-IsUsable l bs which dialects (named, listed) =
        let (compiler, known) =
          compiler_of-some l program.language.branch.dialect which
            (has_branch-IsDialect program.language.branch bs dialects listed) in
        cxx-Described program kind dir stem has_stem c compiler
          (subst (λ t. compiler_of t program.language.branch.dialect ≡ some compiler) named known)

    at_provider :
        (p q : LanguageProvider)
        → p ≡ q
        → (serves program.language q ≡ true → IsUsable q)
        → serves program.language p ≡ true
        → IsUsable p
    at_provider p q e usable good =
        subst IsUsable (sym e) (usable (subst (λ x. serves program.language x ≡ true) e good))

    c-IsUsable : serves program.language (c_provider c) ≡ true → IsUsable (c_provider c)
    c-IsUsable good = inr (
        cxx-IsUsable (codes "c") c_branches (inl refl) c-dialects
          (serves-named program.language (c_provider c) good))

    cpp-IsUsable : serves program.language (cpp_provider c) ≡ true → IsUsable (cpp_provider c)
    cpp-IsUsable good = inr (
        cxx-IsUsable (codes "cpp") cpp_branches (inr refl) cpp-dialects
          (serves-named program.language (cpp_provider c) good))

    builtin-IsUsable :
        (p : LanguageProvider) → Memᴰ p builtin → serves program.language p ≡ true → IsUsable p
    builtin-IsUsable p (Memᴰ.head e) = at_provider p (c_provider c) e c-IsUsable
    builtin-IsUsable p (Memᴰ.tail (Memᴰ.head e)) = at_provider p (cpp_provider c) e cpp-IsUsable
    builtin-IsUsable p (Memᴰ.tail (Memᴰ.tail (Memᴰ.head e))) =
        at_provider p (java_provider j) e
          (λ good. inr (java-Described program kind dir stem has_stem j))
    builtin-IsUsable p (Memᴰ.tail (Memᴰ.tail (Memᴰ.tail (Memᴰ.head e)))) =
        at_provider p (python_provider y) e (λ good. inl refl)
    builtin-IsUsable p (Memᴰ.tail (Memᴰ.tail (Memᴰ.tail (Memᴰ.tail (Memᴰ.head e))))) =
        at_provider p (rust_provider r) e
          (λ good. inr (rust-Described program kind dir stem has_stem r))
    builtin-IsUsable p (Memᴰ.tail (Memᴰ.tail (Memᴰ.tail (Memᴰ.tail (Memᴰ.tail h))))) = elim h [ ]

-- What the engine may know of how to compile a program.
pub data Known (program : Program) (m : LanguageManager)
    : Result JudgeError (Option CompilationInfo) → Type 0 where
  unknown :
      find program.language m ≡ none → Known program m (err (language_not_found program.language))
  interpreted :
      (p : LanguageProvider)
      → find program.language m ≡ some p
      → p.metadata.interpreted ≡ true
      → Known program m (ok none)
  compiled :
      (p : LanguageProvider)
      → find program.language m ≡ some p
      → p.metadata.interpreted ≡ false
      → (info : CompilationInfo) → Writes program info
      → Known program m (ok (some info))

module _ (program : Program) (kind : ProgramKind) (dir : Option Text) (m : LanguageManager) where
  needed-Known :
      (p : LanguageProvider)
      → find program.language m ≡ some p
      → p.metadata.interpreted ≡ false
      → (x : Result Text CompilationInfo) → Described program x
      → Known program m (needed_info x)
  unfolding needed_info
  needed-Known p found native _ (described info w) = compiled p found native info w

  info_of-Known :
      (p : LanguageProvider)
      → find program.language m ≡ some p
      → (p.metadata.interpreted ≡ true) ⊎ Described program (p.compile program kind dir)
      → Known program m (info_of program kind dir p.metadata.interpreted p)
  unfolding info_of
  info_of-Known p found (inl i) = rw i (interpreted p found i)
  info_of-Known p found (inr d) = elim (Bool-cases p.metadata.interpreted) [
    | inl i ↦ rw i (interpreted p found i)
    | inr native ↦ rw native (needed-Known p found native (p.compile program kind dir) d)
  ]

  get_compile_info-unknown :
      find program.language m ≡ none → Known program m (get_compile_info m program kind dir)
  unfolding get_compile_info find_language_provider
  get_compile_info-unknown missing =
      rw (missing, get_compile_info, find_language_provider) (unknown missing)

  get_compile_info-found :
      (p : LanguageProvider)
      → find program.language m ≡ some p
      → (p.metadata.interpreted ≡ true) ⊎ Described program (p.compile program kind dir)
      → Known program m (get_compile_info m program kind dir)
  unfolding get_compile_info find_language_provider
  get_compile_info-found p found usable =
      rw (found, get_compile_info, find_language_provider) (info_of-Known p found usable)

module _ (c : CxxConfig) (j : JavaConfig) (y : PythonConfig) (r : RustConfig) where
  abbrev loaded : LanguageManager
  loaded = register_all (builtin c j y r) no_languages

  loaded-Known :
      (program : Program) (kind : ProgramKind) (dir : Option Text) (stem : Text)
      → file_stem program.file ≡ some stem
      → Known program loaded (get_compile_info loaded program kind dir)
  loaded-Known program kind dir stem has_stem = elim (Option-cases (find program.language loaded)) [
    | inl missing ↦ get_compile_info-unknown program kind dir loaded missing
    | inr (p, found) ↦
        let (there, good) =
          first_serving-Mem program.language (builtin c j y r) p
            (sym (find-register_all program.language (builtin c j y r)) ∙ found) in
        get_compile_info-found program kind dir loaded p found
          (builtin-IsUsable c j y r program kind dir stem has_stem p there good)
  ]

-- When every configuration file is loaded, on a source path with a file stem, `get_compile_info` of
-- the engine on the built-in languages never panics: it reports the language as not found when no
-- provider serves it, needs no compilation when the provider found is an interpreted one, and
-- otherwise returns a compilation whose compiler is told, after `-o`, the very output file that the
-- compilation reports, and gets the source file among the arguments after that.
pub get_compile_info-Known :
    (c : CxxConfig) (j : JavaConfig) (y : PythonConfig) (r : RustConfig) (program : Program)
    (kind : ProgramKind) (dir : Option Text) (stem : Text)
    → file_stem program.file ≡ some stem
    → Known program (init_language_providers (all_loaded c j y r) no_languages).0 (
        get_compile_info
          (init_language_providers (all_loaded c j y r) no_languages).0
          program
          kind
          dir)
get_compile_info-Known c j y r program kind dir stem has_stem =
    subst
      (λ (s : LanguageManager × Result Text Unit).
        Known program s.0 (get_compile_info s.0 program kind dir))
      (sym (init-registers c j y r no_languages))
      (loaded-Known c j y r program kind dir stem has_stem)
