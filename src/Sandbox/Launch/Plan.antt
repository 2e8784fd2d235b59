-- ===== src/Sandbox/Launch/Plan.antt =====
-- The system calls of a child before `execve` (`start_child` of sandbox/src/lib.rs).
use wave_judge.Prelude.{
  ℕ, ◌≡◌, refl, ap, fun_ext, sym, Bool, true, false, Option, none, some, List, [], ◌∷◌, ◌++◌, map,
  Text, All, ok, err, arith,
}
use wave_judge.Sandbox.Usage.{Limits}
use wave_judge.Sandbox.Memory.{bytes}
use wave_judge.Sandbox.Errors.{file_not_found}
use wave_judge.Sandbox.Kernel.{
  Os, Call, Child, ◌>>◌, pure, perform, perform_all, setrlimit_hard, dup2, set_cloexec, setuid,
  chdir, chroot, setrlimit, cpu_time, address_space, seccomp_init, seccomp_load, kill_thread,
  execve, dup_and_cloexec,
}
use wave_judge.Sandbox.Kernel.Laws.{
  perform_all-one, dup_and_cloexec-plan, rule, apply_syscall_filters-plan, plan_then,
}
use wave_judge.Sandbox.Kernel.Stops.{Stops, perform_all-Stops}
use wave_judge.Sandbox.Builder.{Builder, Redirection, Directory, SystemCall}
use wave_judge.Sandbox.Builder.Laws.{
  IsCString, IsCPair, IsValid, IsCString-append, IsCString-equals,
}
use wave_judge.Sandbox.Launch.{
  as_secs, allowed, env_text, when_some, expand_path, c_string, c_strings, apply_redirections,
  apply_uid, apply_directories, apply_native_rlimits, apply_seccomp, start_child,
}

abbrev pub calls_for : {A : Type 0} → Option A → (A → List Call) → List Call
calls_for none f = []
calls_for (some a) f = f a

abbrev pub dup_calls : ℕ → ℕ → List Call
dup_calls new_fd old_fd = dup2 old_fd new_fd ∷ set_cloexec old_fd ∷ []

abbrev pub redirection_calls : Redirection → List Call
redirection_calls r =
    calls_for r.stdin (dup_calls 0)
    ++ (calls_for r.stdout (dup_calls 1) ++ (calls_for r.stderr (dup_calls 2) ++ []))

abbrev pub uid_calls : Option ℕ → List Call
uid_calls uid = calls_for uid (λ u. setuid u ∷ []) ++ []

abbrev pub directory_calls : Directory → List Call
directory_calls dir =
    calls_for dir.working_dir (λ d. chdir d ∷ [])
    ++ (calls_for dir.root_dir (λ d. chroot d ∷ []) ++ [])

abbrev pub rlimit_calls : Bool → Limits → List Call
rlimit_calls false limits = []
rlimit_calls true limits =
    calls_for limits.cpu_time_limit (λ t. setrlimit cpu_time (as_secs t) (as_secs t) ∷ [])
    ++ (calls_for limits.memory_limit (λ m. setrlimit address_space (bytes m) (bytes m) ∷ []) ++ [])

abbrev pub seccomp_calls : List SystemCall → List Call
seccomp_calls [] = []
seccomp_calls (s ∷ whitelist) =
    (seccomp_init kill_thread ∷ (map rule (map allowed (s ∷ whitelist)) ++ seccomp_load ∷ [])) ++ []

-- Redirections, then the user, the directories, the native limits, the filter, and the program.
abbrev pub plan : Builder → Text → List Call
plan b file =
    redirection_calls b.redirections
    ++ (uid_calls b.uid
        ++ (directory_calls b.dir
            ++ (rlimit_calls b.use_native_rlimit b.limits
                ++ (seccomp_calls b.syscall_whitelist
                    ++ execve file b.args (map env_text b.envs) ∷ []))))

module _ (os : Os) where
  when_some-plan :
      {A : Type 0} (o : Option A) (action : A → Child Unit) (f : A → List Call)
      → ((a : A) → action a ≡ perform_all os (f a))
      → when_some o action ≡ perform_all os (calls_for o f)
  unfolding perform_all
  when_some-plan none action f h = refl
  when_some-plan (some a) action f h = h a

  nothing : pure tt ≡ perform_all os []
  unfolding perform_all
  nothing = refl

  redirections-plan :
      (r : Redirection) → apply_redirections os r ≡ perform_all os (redirection_calls r)
  unfolding apply_redirections
  redirections-plan r = plan_then os _ _ (calls_for r.stdin (dup_calls 0)) _ (redirect r.stdin 0) (
      plan_then os _ _ (calls_for r.stdout (dup_calls 1)) _ (redirect r.stdout 1)
        (plan_then os _ _ (calls_for r.stderr (dup_calls 2)) _ (redirect r.stderr 2) nothing))
    where
      redirect :
          (o : Option ℕ) (fd : ℕ)
          → when_some o (λ old. dup_and_cloexec os old fd)
            ≡ perform_all os (calls_for o (dup_calls fd))
      redirect o fd =
          when_some-plan o (λ old. dup_and_cloexec os old fd) (dup_calls fd)
            (λ old. dup_and_cloexec-plan os old fd)

  one_call :
      {A : Type 0} (o : Option A) (f : A → Call)
      → when_some o (λ a. perform os (f a)) ≡ perform_all os (calls_for o (λ a. f a ∷ []))
  one_call o f =
      when_some-plan o (λ a. perform os (f a)) (λ a. f a ∷ []) (λ a. sym (perform_all-one os (f a)))

  uid-plan : (uid : Option ℕ) → apply_uid os uid ≡ perform_all os (uid_calls uid)
  unfolding apply_uid
  uid-plan uid =
      plan_then os _ _ (calls_for uid (λ u. setuid u ∷ [])) _ (one_call uid setuid) nothing

  directories-plan :
      (dir : Directory) → apply_directories os dir ≡ perform_all os (directory_calls dir)
  unfolding apply_directories
  directories-plan dir =
      plan_then os _ _ (calls_for dir.working_dir (λ d. chdir d ∷ [])) _
        (one_call dir.working_dir chdir)
        (plan_then os _ _ (calls_for dir.root_dir (λ d. chroot d ∷ [])) _
          (one_call dir.root_dir chroot) nothing)

  rlimits-plan :
      (native : Bool) (limits : Limits)
      → apply_native_rlimits os native limits ≡ perform_all os (rlimit_calls native limits)
  unfolding apply_native_rlimits setrlimit_hard
  rlimits-plan false limits = nothing
  rlimits-plan true limits =
      plan_then os _ _ (calls_for limits.cpu_time_limit _) _
        (one_call limits.cpu_time_limit (λ t. setrlimit cpu_time (as_secs t) (as_secs t)))
        (plan_then os _ _ (calls_for limits.memory_limit _) _
          (one_call limits.memory_limit (λ m. setrlimit address_space (bytes m) (bytes m))) nothing)

  seccomp-plan :
      (whitelist : List SystemCall)
      → apply_seccomp os whitelist ≡ perform_all os (seccomp_calls whitelist)
  unfolding apply_seccomp
  seccomp-plan [] = nothing
  seccomp-plan (s ∷ whitelist) =
      plan_then os _ _ _ [] (apply_syscall_filters-plan os (map allowed (s ∷ whitelist))) nothing

c_strings-ok : (ss : List Text) → All IsCString ss → c_strings ss ≡ ok ss
unfolding c_strings c_string
c_strings-ok [] h = refl
c_strings-ok (s ∷ ss) h = ground (arith, c_strings-ok ss h.1)

env_texts : (envs : List (Text × Text)) → All IsCPair envs → All IsCString (map env_text envs)
env_texts [] h = tt
env_texts ((name, value) ∷ envs) h =
    (IsCString-append name _ h.0.0 (IsCString-equals value h.0.1), env_texts envs h.1)

c_string-ok : (s : Text) → IsCString s → c_string s ≡ ok s
unfolding c_string
c_string-ok s h = rw h refl

steps-plan :
    (os : Os) (b : Builder) (file : Text)
    → (apply_redirections os b.redirections
        >> (apply_uid os b.uid
            >> (apply_directories os b.dir
                >> (apply_native_rlimits os b.use_native_rlimit b.limits
                    >> (apply_seccomp os b.syscall_whitelist
                        >> perform os (execve file b.args (map env_text b.envs)))))))
      ≡ perform_all os (plan b file)
steps-plan os b file =
    plan_then os _ _ (redirection_calls b.redirections) _ (redirections-plan os b.redirections) (
      plan_then os _ _ (uid_calls b.uid) _ (uid-plan os b.uid) (
        plan_then os _ _ (directory_calls b.dir) _ (directories-plan os b.dir) (
          plan_then os _ _ (rlimit_calls b.use_native_rlimit b.limits) _
            (rlimits-plan os b.use_native_rlimit b.limits)
            (plan_then os _ _ (seccomp_calls b.syscall_whitelist) _
              (seccomp-plan os b.syscall_whitelist) (sym (perform_all-one os _))))))

-- When the builder is valid and its program is found at a path that is a C string, the child
-- performs the calls of its plan and nothing else.
pub start_child-plan :
    (os : Os) (b : Builder) (file : Text)
    → IsValid b
    → expand_path os b.file ≡ some file
    → IsCString file
    → start_child os b ≡ perform_all os (plan b file)
unfolding start_child
start_child-plan os b file v found good = fun_ext λ calls.
    rw
      (
        found,
        c_string-ok file good,
        c_strings-ok b.args v.args,
        c_strings-ok (map env_text b.envs) (env_texts b.envs v.envs),
      )
      (ap (λ (m : Child Unit). m calls) (steps-plan os b file))

-- What the child does, whatever the kernel answers, when the builder is valid and its program is
-- found at a path that is a C string: it makes the calls of its plan in order, all of them, or up
-- to the first refusal, whose error it returns.
pub start_child-Stops :
    (os : Os) (b : Builder) (file : Text)
    → IsValid b
    → expand_path os b.file ≡ some file
    → IsCString file
    → Stops os (plan b file) [] (start_child os b [])
start_child-Stops os b file v found good =
    rw (start_child-plan os b file v found good) (perform_all-Stops os (plan b file) [])

-- Without a program to run, no call is made and the error names the file.
pub start_child-not_found :
    (os : Os) (b : Builder) (calls : List Call)
    → expand_path os b.file ≡ none
    → start_child os b calls ≡ (err (file_not_found b.file), calls)
unfolding start_child
start_child-not_found os b calls h = rw h refl
