-- ===== src/Tools/SandboxBin/Commands.antt =====
-- What the child of sandbox-bin is started with, and what is printed of its end.
use wave_judge.Prelude.{
  ℕ, ◌*◌, ◌^◌, Option, none, some, List, ◌∷◌, map, Text, ok, err, panic, and_then, if◌then◌else◌,
  ◌≡◌, ◌≢◌, refl, ap,
}
use wave_judge.Sandbox.Memory.{mega_bytes}
use wave_judge.Sandbox.Usage.{ExitStatus, not_exited}
use wave_judge.Sandbox.Daemon.{Round, wait_for_exit, Process}
use wave_judge.Sandbox.Daemon.Outcomes.{wait_for_exit-status}
use wave_judge.Sandbox.Builder.{Builder, new}
use wave_judge.Sandbox.Errors.{Fallible}
use wave_judge.Sandbox.Launch.{env_text, start_parent}
use wave_judge.Tools.SandboxBin.{
  Matches, ApplicationConfig, or_empty, Machine, command, do_main, exit_text, report_with, report,
  Report, reported, run,
}
use wave_judge.Tools.SandboxBin.Options.{doubled, Reads, names}

abbrev with_args : Builder → List Text → Builder
with_args b args = record b { args = args }

abbrev with_envs : Builder → List (Text × Text) → Builder
with_envs b envs = record b { envs = envs }

-- A stream is redirected exactly when its file is given.
abbrev Given : Option Text → Option ℕ → Type 0
Given none fd = fd ≡ none
Given (some file) fd = (n : ℕ) × (fd ≡ some n)

-- What the child is started with; `environment` are the texts that `execve` gets.
pub record Started (m : Matches) (b : Builder) : Type 0 where
  pub program : b.args ≡ m.program
  pub environment : map env_text b.envs ≡ map doubled (or_empty m.envs)
  pub cpu_time_limit : Reads (2 ^ 64) (λ n. n * 1000000) m.cpu_time_limit b.limits.cpu_time_limit
  pub real_time_limit : Reads (2 ^ 64) (λ n. n * 1000000) m.real_time_limit b.limits.real_time_limit
  pub memory_limit : Reads (2 ^ 64) mega_bytes m.memory_limit b.limits.memory_limit
  pub uid : Reads (2 ^ 32) (λ n. n) m.uid b.uid
  pub syscalls : names b.syscall_whitelist ≡ or_empty m.syscall_whitelist
  pub working_dir : b.dir.working_dir ≡ m.working_dir
  pub root_dir : b.dir.root_dir ≡ m.root_dir
  pub stdin : Given m.input_file b.redirections.stdin
  pub stdout : Given m.output_file b.redirections.stdout
  pub stderr : Given m.error_file b.redirections.stderr

abbrev base : ApplicationConfig → Builder
base config = with_envs (with_args (new config.file) (config.file ∷ config.args)) config.envs

exit_text-ok : (s : ExitStatus) → s ≢ not_exited → (text : Text) × (exit_text s ≡ ok text)
unfolding exit_text
exit_text-ok not_exited n = absurd (n refl)
exit_text-ok s n = (_, refl)

report-ok : (p : Process) → p.status ≢ not_exited → (r : Report) × (report p ≡ ok r)
unfolding report report_with and_then
report-ok p n =
    let (text, e) = exit_text-ok p.status n in (_, ap (λ x. and_then x (report_with p)) e)

reported-ok :
    (x : Process × Option (Fallible Unit))
    → x.1 ≡ some (ok tt)
    → x.0.status ≢ not_exited
    → (r : Report) × (reported x ≡ some (ok r))
unfolding reported
reported-ok (p, some (ok u)) h n = let (r, e) = report-ok p n in (r, ap some e)
reported-ok (p, some (err e)) h n = cc
reported-ok (p, some panic) h n = cc
reported-ok (p, none) h n = cc

module _ {W : Type 0} (machine : Machine W) where
  -- When the child is spawned and its daemon ends without an error, sandbox-bin prints a report: the
  -- arm `_ => unreachable!()` is not reached.
  pub do_main-reports :
      (resolve : Text → Option ℕ) (m : Matches) (b : Builder) (rounds : List Round) (w w' : W)
      → command machine resolve m w ≡ (ok b, w')
      → (machine.spawn b w').0 ≡ ok rounds
      → (wait_for_exit (start_parent b rounds)).1 ≡ some (ok tt)
      → (r : Report) × (do_main machine resolve m w ≡ some (ok r))
  unfolding do_main run start_parent
  do_main-reports resolve m b rounds w w' c s e =
      rw (c, s, run)
        (reported-ok (wait_for_exit (start_parent b rounds)) e
          (wait_for_exit-status (if b.use_native_rlimit then none else some b.limits) rounds e).0)
