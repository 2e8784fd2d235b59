-- ===== src/Judge/Task.antt =====
-- judge/src/lib.rs: the descriptors of tasks and the results of compilations, and the errors of the
-- crate.
use wave_judge.Prelude.{Bool, true, false, Option, none, some, List, [], Text}
use wave_judge.Sandbox.Memory.{Duration, MemorySize, mega_bytes}
use wave_judge.Sandbox.Errors.{Error}
use wave_judge.Judge.Languages.{LanguageIdentifier, Program, ProgramKind, judgee}
use wave_judge.Judge.Tokens.{IoError}
use wave_judge.Judge.Checkers.{BuiltinCheckers, default}

pub data JudgeError : Type 0 where
  sandbox : Error → JudgeError
  io : IoError → JudgeError
  language_not_found : LanguageIdentifier → JudgeError
  language_error : Text → JudgeError

pub record CompilationTaskDescriptor : Type 0 where
  pub program : Program
  pub kind : ProgramKind
  pub output_dir : Option Text

-- `CompilationTaskDescriptor::new`.
abbrev pub compilation_of : Program → CompilationTaskDescriptor
compilation_of program = record { program = program; kind = judgee; output_dir = none }

pub record CompilationResult : Type 0 where
  pub succeeded : Bool
  pub compiler_out : Option Text
  pub output_file : Option Text

unfoldable pub succeed : Text → CompilationResult
succeed output_file = record {
  succeeded = true;
  compiler_out = none;
  output_file = some output_file;
}

unfoldable pub fail : Text → CompilationResult
fail compiler_out = record {
  succeeded = false;
  compiler_out = some compiler_out;
  output_file = none;
}

pub data JudgeMode : Type 0 where
  standard : BuiltinCheckers → JudgeMode
  special_judge : Program → JudgeMode
  interactive : Program → JudgeMode

pub record ResourceLimits : Type 0 where
  pub cpu_time_limit : Duration
  pub real_time_limit : Duration
  pub memory_limit : MemorySize

pub record TestCaseDescriptor : Type 0 where
  pub input_file : Text
  pub answer_file : Text

pub record JudgeTaskDescriptor : Type 0 where
  pub program : Program
  pub mode : JudgeMode
  pub limits : ResourceLimits
  pub test_suite : List TestCaseDescriptor

-- The defaults of `ResourceLimits` and of `JudgeTaskDescriptor::new`.
abbrev pub default_limits : ResourceLimits
default_limits = record {
  cpu_time_limit = 1000000000;
  real_time_limit = 3000000000;
  memory_limit = mega_bytes 256;
}

abbrev pub task_of : Program → JudgeTaskDescriptor
task_of program = record {
  program = program;
  mode = standard default;
  limits = default_limits;
  test_suite = [];
}
