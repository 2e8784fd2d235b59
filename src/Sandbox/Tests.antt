-- ===== src/Sandbox/Tests.antt =====
-- Concrete runs of the sandbox, and the theorems on it at concrete inputs.
use wave_judge.Prelude.{
  ℕ, ◌≡◌, ◌≢◌, refl, Bool, true, false, not, ◌||◌, ◌==◌, Option, none, some, List, [], ◌∷◌, ◌++◌,
  Text, codes, contains, text_eq, ok, arith, if◌then◌else◌,
}
use wave_judge.Sandbox.Memory.{mega_bytes, bytes, size_gt}
use wave_judge.Sandbox.Usage.{
  Usage, update, cpu_time, Limits, cpu_time_limit_exceeded, check_limits, over_memory,
}
use wave_judge.Sandbox.Daemon.{
  exited, running, Round, start, daemon_main, attach, wait_for_exit, guard_wait, wait_result,
  update_rusage, elapsed_or_default, limit_result, after_sample, after_wait, on_wait, round, settle,
  finish,
}
use wave_judge.Sandbox.Daemon.Outcomes.{Ends, daemon_main-Ends, daemon_main-real_time}
use wave_judge.Sandbox.Kernel.{Os, Call, setuid, chroot}
use wave_judge.Sandbox.Kernel.Stops.{Stops}
use wave_judge.Sandbox.Builder.{Builder, new, add_arg, add_env, inherit_envs, is_valid_c_string}
use wave_judge.Sandbox.Builder.Laws.{IsValid, IsCString}
use wave_judge.Sandbox.Launch.{
  expand_path, is_absolute, find_in, find_in_env, push_path, ends_with_slash, split, start_child,
}
use wave_judge.Sandbox.Launch.Plan.{plan, start_child-Stops}
use wave_judge.Sandbox.Launch.Privileges.{ChrootNeedsRoot, start_child-chroot}

-- Half a second on the CPU and 64 MB, and later two seconds and 32 MB.
abbrev early : Usage
early = record {
  user_cpu_time = 400000000;
  kernel_cpu_time = 100000000;
  virtual_mem_size = mega_bytes 64;
  resident_set_size = mega_bytes 16;
}

abbrev late : Usage
late = record {
  user_cpu_time = 1900000000;
  kernel_cpu_time = 100000000;
  virtual_mem_size = mega_bytes 32;
  resident_set_size = mega_bytes 8;
}

-- One second on the CPU, three in all, 256 MB.
abbrev usual_limits : Limits
usual_limits = record {
  cpu_time_limit = some 1000000000;
  real_time_limit = some 3000000000;
  memory_limit = some (mega_bytes 256);
}

-- A round in which the process still runs, and one that reports its exit.
abbrev busy : Usage → ℕ → Round
busy usage elapsed = record { wait = ok running; sample = ok usage; elapsed = some elapsed }

abbrev gone : Round
gone = record { wait = ok (exited 0); sample = ok early; elapsed = some 900000000 }

abbrev slow : List Round
slow = busy early 500000000 ∷ busy late 2100000000 ∷ []

slow-ends : (daemon_main (some usual_limits) start slow).1 ≡ some (ok cpu_time_limit_exceeded)
unfolding daemon_main round guard_wait on_wait wait_result after_wait after_sample update_rusage
    elapsed_or_default limit_result check_limits cpu_time over_memory size_gt bytes update settle
slow-ends = refl

daemon_main-Ends_example :
    Ends
      (some usual_limits)
      (daemon_main (some usual_limits) start slow).0
      (ok cpu_time_limit_exceeded)
daemon_main-Ends_example =
    daemon_main-Ends (some usual_limits) start slow (ok cpu_time_limit_exceeded) refl slow-ends

daemon_main-real_time_example :
    (daemon_main
      (some usual_limits)
      start
      (busy early 500000000 ∷ [] ++ busy early 3100000000 ∷ [])).1
    ≢ none
daemon_main-real_time_example =
    daemon_main-real_time usual_limits 3000000000 3100000000 start (busy early 500000000 ∷ [])
      (busy early 3100000000) [] refl refl (omega arith)

quick-ends :
    (wait_for_exit (attach (some usual_limits) (busy early 500000000 ∷ gone ∷ []))).1 ≡ some (ok tt)
unfolding wait_for_exit attach daemon_main round guard_wait on_wait wait_result after_wait
    after_sample update_rusage elapsed_or_default limit_result check_limits cpu_time over_memory
    size_gt bytes update settle finish
quick-ends = refl

abbrev cat : Text
cat = codes "cat"

abbrev bin_cat : Text
bin_cat = codes "/bin/cat"

cat-IsCString : IsCString cat
unfolding is_valid_c_string contains
cat-IsCString = refl

bin_cat-IsCString : IsCString bin_cat
unfolding is_valid_c_string contains
bin_cat-IsCString = refl

add_arg-ok :
    add_arg bin_cat (new cat) ≡ ok (record (new cat) { args = (new cat).args ++ bin_cat ∷ [] })
unfolding add_arg is_valid_c_string contains
add_arg-ok = refl

abbrev with_lang : Builder
with_lang = record (new cat) { envs = (new cat).envs ++ (codes "LANG", codes "C") ∷ [] }

inherit-ok : inherit_envs ((codes "LANG", codes "C") ∷ []) (new cat) ≡ ok with_lang
unfolding inherit_envs add_env is_valid_c_string contains
inherit-ok = refl

-- A kernel that lets a process change its root until it has taken another user's id.
dropped : List Call → Bool
dropped [] = false
dropped (setuid u ∷ calls) = not (u == 0) || dropped calls
dropped (c ∷ calls) = dropped calls

refusals : List Call → Call → Option ℕ
unfolding dropped
refusals calls (chroot dir) = if dropped calls then some 1 else none
refusals calls _ = none

abbrev test_os : Os
test_os = record {
  exists = λ path. text_eq path bin_cat;
  path_env = some (codes "/usr/bin:/bin");
  refuses = refusals;
}

dropped-append :
    (before after : List Call) (uid : ℕ) → uid ≢ 0 → dropped (before ++ setuid uid ∷ after) ≡ true
unfolding dropped
dropped-append [] after uid h = ground arith
dropped-append (setuid u ∷ before) after uid h = ground (arith, dropped-append before after uid h)
dropped-append (Call.dup2 a b ∷ before) after uid h = dropped-append before after uid h
dropped-append (Call.set_cloexec a ∷ before) after uid h = dropped-append before after uid h
dropped-append (Call.chdir a ∷ before) after uid h = dropped-append before after uid h
dropped-append (chroot a ∷ before) after uid h = dropped-append before after uid h
dropped-append (Call.setrlimit a b c ∷ before) after uid h = dropped-append before after uid h
dropped-append (Call.seccomp_init a ∷ before) after uid h = dropped-append before after uid h
dropped-append (Call.seccomp_rule_add a b ∷ before) after uid h = dropped-append before after uid h
dropped-append (Call.seccomp_load ∷ before) after uid h = dropped-append before after uid h
dropped-append (Call.execve a b c ∷ before) after uid h = dropped-append before after uid h

test_os-ChrootNeedsRoot : ChrootNeedsRoot test_os
unfolding refusals
test_os-ChrootNeedsRoot before after uid dir h e = cc (e, dropped-append before after uid h)

-- `cat` as the user 1000 in a root directory of its own.
abbrev jailed : Builder
jailed = record (new cat) {
  uid = some 1000;
  dir = record { working_dir = some (codes "/tmp/j"); root_dir = some (codes "/tmp/j") };
}

jailed-IsValid : IsValid jailed
unfolding new
jailed-IsValid = record { args = (cat-IsCString, tt); envs = tt }

cat-found : expand_path test_os jailed.file ≡ some bin_cat
unfolding expand_path is_absolute find_in_env find_in split push_path ends_with_slash text_eq new
cat-found = refl

start_child-chroot_example : (start_child test_os jailed []).0 ≢ ok tt
start_child-chroot_example =
    start_child-chroot test_os jailed bin_cat 1000 (codes "/tmp/j") test_os-ChrootNeedsRoot
      jailed-IsValid cat-found bin_cat-IsCString refl (λ h. absurd (omega arith)) refl

start_child-Stops_example : Stops test_os (plan jailed bin_cat) [] (start_child test_os jailed [])
start_child-Stops_example =
    start_child-Stops test_os jailed bin_cat jailed-IsValid cat-found bin_cat-IsCString
