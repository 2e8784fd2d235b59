-- ===== src/Tools/SandboxBin.antt =====
-- sandbox/src/bin/sandbox-bin.rs. What clap finds on the command line is a parameter (`Matches`), and
-- so are the files and the processes (`Machine`); what is printed is a value.
pub mod Options
pub mod Commands
use wave_judge.Prelude.{
  ℕ, ◌+◌, ◌*◌, ◌-◌, ◌/◌, ◌^◌, Bool, true, false, ◌&&◌, ltb, leb, ◌==◌, Option, none, some, List, [],
  ◌∷◌, ◌++◌, map, Text, codes, decimal, Result, ok, err, panic, map_err, and_then, if◌then◌else◌,
}
use wave_judge.Prelude.Work.{Work, go_on, ◌>>=◌, give}
use wave_judge.Sandbox.Memory.{Duration, MemorySize, mega_bytes, bytes}
use wave_judge.Sandbox.Usage.{
  Usage, ExitStatus, not_exited, normal, killed_by_signal, cpu_time_limit_exceeded,
  real_time_limit_exceeded, memory_limit_exceeded, banned_syscall,
}
use wave_judge.Sandbox.Errors.{Error, Fallible}
use wave_judge.Sandbox.Daemon.{Round, Process, wait_for_exit, rusage}
use wave_judge.Sandbox.Builder.{Builder, SystemCall, from_name, new, add_arg, add_env}
use wave_judge.Sandbox.Launch.{start_parent}

-- `Error`: a message, with its cause left out, or an error of the sandbox crate.
pub data CliError : Type 0 where
  message : Text → CliError
  sandbox : Error → CliError

-- The values of the arguments; `program` has at least one value, since it is required.
pub record Matches : Type 0 where
  pub program : List Text
  pub envs : Option (List Text)
  pub cpu_time_limit : Option Text
  pub real_time_limit : Option Text
  pub memory_limit : Option Text
  pub input_file : Option Text
  pub output_file : Option Text
  pub error_file : Option Text
  pub uid : Option Text
  pub syscall_whitelist : Option (List Text)
  pub working_dir : Option Text
  pub root_dir : Option Text

pub record ApplicationConfig : Type 0 where
  pub file : Text
  pub args : List Text
  pub envs : List (Text × Text)
  pub cpu_time_limit : Option Duration
  pub real_time_limit : Option Duration
  pub memory_limit : Option MemorySize
  pub working_dir : Option Text
  pub root_dir : Option Text
  pub uid : Option ℕ
  pub syscall_whitelist : List SystemCall
  pub input_file : Option Text
  pub output_file : Option Text
  pub error_file : Option Text

-- `from_str` of an unsigned number below a bound: an optional plus sign, and at least one digit.
unfoldable pub digits_from : ℕ → ℕ → Text → Option ℕ
digits_from bound acc [] = some acc
digits_from bound acc (c ∷ cs) =
    let rest = digits_from bound (acc * 10 + (c - b'0')) cs in
    if leb b'0' c && leb c b'9' && ltb (acc * 10 + (c - b'0')) bound then rest else none

unfoldable pub unsigned_digits : ℕ → Text → Option ℕ
unfolding digits_from
unsigned_digits bound [] = none
unsigned_digits bound (c ∷ cs) = digits_from bound 0 (c ∷ cs)

unfoldable pub unsigned_from_str : ℕ → Text → Option ℕ
unfolding unsigned_digits
unsigned_from_str bound [] = none
unsigned_from_str bound (c ∷ cs) =
    if c == b'+' then unsigned_digits bound cs else unsigned_digits bound (c ∷ cs)

infixl 5 ◌>>>◌
abbrev pub ◌>>>◌ : {A B : Type 0} → Result CliError A → (A → Result CliError B) → Result CliError B
m >>> f = and_then m f

unfoldable pub or_message : {A : Type 0} → Text → Option A → Result CliError A
or_message text none = err (message text)
or_message text (some a) = ok a

-- An argument that is absent leaves the field empty.
unfoldable pub optional :
    {A : Type 0} → (Text → Result CliError A) → Option Text → Result CliError (Option A)
optional f none = ok none
optional f (some text) = and_then (f text) (λ a. ok (some a))

-- the arguments that are numbers
unfoldable pub number : Text → ℕ → Text → Result CliError ℕ
unfolding unsigned_from_str or_message
number what bound text = or_message (what ++ text) (unsigned_from_str bound text)

unfoldable pub millis : Text → Text → Result CliError Duration
unfolding number
millis what text = and_then (number what (2 ^ 64) text) (λ n. ok (n * 1000000))

unfoldable pub mega : Text → Result CliError MemorySize
unfolding number
mega text =
    and_then (number (codes "invalid memory limit value: ") (2 ^ 64) text) (λ n. ok (mega_bytes n))

-- `split_at(find('='))`: the second part begins with the equal sign.
unfoldable pub split_at_equals : Text → Option (Text × Text)
split_at_equals [] = none
split_at_equals (c ∷ cs) =
    if c == b'='
    then some ([], c ∷ cs)
    else elim (split_at_equals cs) [ none ↦ none | some (name, value) ↦ some (c ∷ name, value) ]

unfoldable pub get_envs : List Text → Result CliError (List (Text × Text))
unfolding split_at_equals or_message
get_envs [] = ok []
get_envs (env ∷ envs) =
    or_message (codes "invalid environment variable: " ++ env) (split_at_equals env) >>> λ pair.
    get_envs envs >>> λ pairs. ok (pair ∷ pairs)

unfoldable pub get_syscalls : (Text → Option ℕ) → List Text → Result CliError (List SystemCall)
unfolding from_name
get_syscalls resolve [] = ok []
get_syscalls resolve (name ∷ names) = map_err sandbox (from_name resolve name) >>> λ syscall.
    get_syscalls resolve names >>> λ syscalls. ok (syscall ∷ syscalls)

abbrev pub or_empty : {A : Type 0} → Option (List A) → List A
or_empty none = []
or_empty (some l) = l

-- the arguments but the program
unfoldable pub get_options :
    (Text → Option ℕ) → Matches → Text → List Text → Result CliError ApplicationConfig
unfolding get_envs optional millis mega number get_syscalls
get_options resolve m file args = get_envs (or_empty m.envs) >>> λ envs.
    optional (millis (codes "invalid cpu limit value: ")) m.cpu_time_limit >>> λ cpu_time_limit.
    optional (millis (codes "invalid real time limit value: ")) m.real_time_limit
    >>> λ real_time_limit. optional mega m.memory_limit >>> λ memory_limit.
        optional (number (codes "invalid user ID value: ") (2 ^ 32)) m.uid >>> λ uid.
        get_syscalls resolve (or_empty m.syscall_whitelist) >>> λ syscalls. ok (record {
          file = file;
          args = args;
          envs = envs;
          cpu_time_limit = cpu_time_limit;
          real_time_limit = real_time_limit;
          memory_limit = memory_limit;
          working_dir = m.working_dir;
          root_dir = m.root_dir;
          uid = uid;
          syscall_whitelist = syscalls;
          input_file = m.input_file;
          output_file = m.output_file;
          error_file = m.error_file;
        })

-- `program[0]` and `program[1..]`
unfoldable pub with_program :
    (Text → Option ℕ) → Matches → List Text → Result CliError ApplicationConfig
unfolding get_options
with_program resolve m [] = panic
with_program resolve m (file ∷ args) = get_options resolve m file args

unfoldable pub get_app_config : (Text → Option ℕ) → Matches → Result CliError ApplicationConfig
unfolding with_program
get_app_config resolve m = with_program resolve m m.program

-- The loops over the arguments and the variables.
unfoldable pub push_args : List Text → Builder → Fallible Builder
unfolding add_arg
push_args [] b = ok b
push_args (arg ∷ args) b = and_then (add_arg arg b) (push_args args)

unfoldable pub push_envs : List (Text × Text) → Builder → Fallible Builder
unfolding add_env
push_envs [] b = ok b
push_envs ((name, value) ∷ envs) b = and_then (add_env name value b) (push_envs envs)

-- The files and the processes; a process has run to its end when `spawn` gives what its daemon will
-- see of it.
pub record Machine (W : Type 0) : Type 0 where
  pub open_file : Text → W → Result Text ℕ × W
  pub create_file : Text → W → Result Text ℕ × W
  pub spawn : Builder → W → Fallible (List Round) × W

-- `chain_err` on a call of the machine
unfoldable pub chained : {W A : Type 0} → Text → Result Text A × W → Result CliError A × W
chained text (r, w) = (map_err (λ cause. message text) r, w)

-- What is printed: how the process ended, and its usage in milliseconds and bytes.
pub record Report : Type 0 where
  pub exited : Text
  pub user_cpu_time : ℕ
  pub kernel_cpu_time : ℕ
  pub resident_set_size : ℕ
  pub virtual_mem_size : ℕ

-- `_ => unreachable!()` is the panic.
unfoldable pub exit_text : ExitStatus → Result CliError Text
unfolding decimal
exit_text (normal exit_code) = ok (codes "normal, exit code = " ++ decimal exit_code)
exit_text (killed_by_signal signal) = ok (codes "kill by signal: " ++ decimal signal)
exit_text cpu_time_limit_exceeded = ok (codes "cpu time limit exceeded")
exit_text memory_limit_exceeded = ok (codes "memory limit exceeded")
exit_text real_time_limit_exceeded = ok (codes "real time limit exceeded")
exit_text banned_syscall = ok (codes "banned system call")
exit_text not_exited = panic

unfoldable pub report_with : Process → Text → Result CliError Report
unfolding rusage bytes
report_with p exited = ok (record {
  exited = exited;
  user_cpu_time = (rusage p).user_cpu_time / 1000000;
  kernel_cpu_time = (rusage p).kernel_cpu_time / 1000000;
  resident_set_size = bytes (rusage p).resident_set_size;
  virtual_mem_size = bytes (rusage p).virtual_mem_size;
})

unfoldable pub report : Process → Result CliError Report
unfolding exit_text report_with
report p = and_then (exit_text p.status) (report_with p)

-- `none` is a process that does not end.
unfoldable pub reported : Process × Option (Fallible (Unit {0})) → Option (Result CliError Report)
unfolding report
reported (p, none) = none
reported (p, some (ok u)) = some (report p)
reported (p, some (err e)) = some (err (sandbox e))
reported (p, some panic) = some panic

-- The fields that are set; the directories of a new builder are empty.
unfoldable pub configured : ApplicationConfig → Builder → Option ℕ → Option ℕ → Option ℕ → Builder
configured config b stdin stdout stderr = record b {
  limits = record {
    cpu_time_limit = config.cpu_time_limit;
    real_time_limit = config.real_time_limit;
    memory_limit = config.memory_limit;
  };
  redirections = record { stdin = stdin; stdout = stdout; stderr = stderr };
  uid = config.uid;
  syscall_whitelist = b.syscall_whitelist ++ config.syscall_whitelist;
  dir = record { working_dir = config.working_dir; root_dir = config.root_dir };
}

module _ {W : Type 0} (machine : Machine W) where
  -- A stream is redirected when its file is given.
  unfoldable pub redirected :
      Text → (Text → W → Result Text ℕ × W) → Option Text → Work W CliError (Option ℕ)
  unfolding chained
  redirected text call none w = (ok none, w)
  redirected text call (some file) w =
      go_on (λ fd. give (ok (some fd))) (chained text (call file w))

  -- The builder, up to `start`.
  unfoldable pub prepare : ApplicationConfig → Work W CliError Builder
  unfolding new push_args push_envs redirected configured
  prepare config = do
    b ← give (
        map_err sandbox
          (and_then (push_args config.args (new config.file)) (push_envs config.envs)))
    stdin ← redirected (codes "cannot open input file") machine.open_file config.input_file
    stdout ← redirected (codes "cannot open output file") machine.create_file config.output_file
    stderr ← redirected (codes "cannot open error file") machine.create_file config.error_file
    give (ok (configured config b stdin stdout stderr))

  -- `start`, `wait_for_exit` and the report
  unfoldable pub run : Result CliError Builder × W → Option (Result CliError Report)
  unfolding start_parent wait_for_exit reported
  run (ok b, w) = elim (machine.spawn b w).0 [
    | ok rounds ↦ reported (wait_for_exit (start_parent b rounds))
    | err e ↦ some (err (sandbox e))
    | panic ↦ some panic
  ]
  run (err e, w) = some (err e)
  run (panic, w) = some panic

  -- the command line, up to the builder
  unfoldable pub command : (Text → Option ℕ) → Matches → Work W CliError Builder
  unfolding get_app_config prepare
  command resolve matches = give (get_app_config resolve matches) >>= prepare

  unfoldable pub do_main : (Text → Option ℕ) → Matches → W → Option (Result CliError Report)
  unfolding command run
  do_main resolve matches w = run (command resolve matches w)
