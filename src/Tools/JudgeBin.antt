-- ===== src/Tools/JudgeBin.antt =====
-- judge/src/bin/judge-bin.rs. What clap finds on the command line is a parameter; what is printed of
-- a compilation is a value.
pub mod Languages
use wave_judge.Prelude.{
  Bool, true, false, Option, none, some, List, [], ◌∷◌, Text, codes, text_eq, Result, ok, err,
  panic, and_then, if◌then◌else◌,
}
use wave_judge.Sandbox.Launch.{split}
use wave_judge.Judge.Languages.{
  LanguageIdentifier, LanguageManager, no_languages, Dylib, load_dylib, Program, ProgramKind,
  judgee, checker, interactor,
}
use wave_judge.Judge.Task.{JudgeError, CompilationTaskDescriptor, compilation_of, CompilationResult}
use wave_judge.Judge.Engine.{Host}
use wave_judge.Judge.Engine.Compiler.{compile as engine_compile}

-- `Error`; `compilation_failed` is the message that `chain_err` puts before an error of the engine.
pub data BinError : Type 0 where
  compilation_failed : JudgeError → BinError
  dylib_loader_error : Text → BinError
  invalid_language_identifier : BinError

pub record CompileMatches : Type 0 where
  pub program : Text
  pub lang : Text
  pub kind : Text
  pub output : Option Text

pub data Subcommand : Type 0 where
  compile_with : CompileMatches → Subcommand
  judge_with : Subcommand

pub data Printed : Type 0 where
  output_file compiler_message : Text → Printed

-- exactly three parts
unfoldable pub identifier_of : List Text → Result BinError LanguageIdentifier
identifier_of (language ∷ dialect ∷ version ∷ []) =
    ok (record { language = language; branch = record { dialect = dialect; version = version } })
identifier_of _ = err invalid_language_identifier

unfoldable pub parse_lang : Text → Result BinError LanguageIdentifier
unfolding split identifier_of
parse_lang lang = identifier_of (split b':' lang)

-- `_ => unreachable!()` is the panic; clap lets only the three names pass.
unfoldable pub kind_of : Text → Result BinError ProgramKind
unfolding text_eq
kind_of name =
    if text_eq name (codes "JUDGEE")
    then ok judgee
    else if text_eq name (codes "CHECKER")
    then ok checker
    else if text_eq name (codes "INTERACTOR")
    then ok interactor
    else panic

unfoldable pub task_from : CompileMatches → Result BinError CompilationTaskDescriptor
unfolding parse_lang kind_of
task_from m = and_then (parse_lang m.lang) λ lang. and_then (kind_of m.kind) λ kind.
    ok (record (compilation_of (record { file = m.program; language = lang })) {
      kind = kind;
      output_dir = m.output;
    })

-- `expect` of what is printed
unfoldable pub printed : (Text → Printed) → Option Text → Result BinError Printed
printed f none = panic
printed f (some text) = ok (f text)

unfoldable pub show : CompilationResult → Result BinError Printed
unfolding printed
show res =
    if res.succeeded
    then printed output_file res.output_file
    else printed compiler_message res.compiler_out

-- The loop over `lang_so`, which ends at the first error.
unfoldable pub next_library :
    (LanguageManager → Result BinError LanguageManager)
    → LanguageManager × Result Text (Unit {0})
    → Result BinError LanguageManager
next_library rest (m, ok u) = rest m
next_library rest (m, err e) = err (dylib_loader_error e)
next_library rest (m, panic) = panic

unfoldable pub load_all :
    (Text → Dylib) → List Text → LanguageManager → Result BinError LanguageManager
unfolding load_dylib next_library
load_all dylib [] m = ok m
load_all dylib (so ∷ sos) m = next_library (load_all dylib sos) (load_dylib dylib so m)

module _ {W : Type 0} (host : Host W) where
  unfoldable pub shown :
      Option (Result JudgeError CompilationResult × W) → Option (Result BinError Printed × W)
  unfolding show
  shown none = none
  shown (some (ok res, w)) = some (show res, w)
  shown (some (err e, w)) = some (err (compilation_failed e), w)
  shown (some (panic, w)) = some (panic, w)

  unfoldable pub compile_task :
      LanguageManager
      → Result BinError CompilationTaskDescriptor
      → W
      → Option (Result BinError Printed × W)
  unfolding shown engine_compile
  compile_task m (ok task) w = shown (engine_compile host m task w)
  compile_task m (err e) w = some (err e, w)
  compile_task m panic w = some (panic, w)

  unfoldable pub do_compile :
      CompileMatches → LanguageManager → W → Option (Result BinError Printed × W)
  unfolding task_from compile_task
  do_compile matches m w = compile_task m (task_from matches) w

  -- `do_judge` is `unimplemented!()`.
  unfoldable pub subcommand :
      Subcommand → LanguageManager → W → Option (Result BinError Printed × W)
  unfolding do_compile
  subcommand (compile_with matches) m w = do_compile matches m w
  subcommand judge_with m w = some (panic, w)

  unfoldable pub with_languages :
      Subcommand → Result BinError LanguageManager → W → Option (Result BinError Printed × W)
  unfolding subcommand
  with_languages command (ok m) w = subcommand command m w
  with_languages command (err e) w = some (err e, w)
  with_languages command panic w = some (panic, w)

  unfoldable pub do_main :
      (Text → Dylib) → List Text → Subcommand → W → Option (Result BinError Printed × W)
  unfolding load_all with_languages
  do_main dylib lang_so command w = with_languages command (load_all dylib lang_so no_languages) w
