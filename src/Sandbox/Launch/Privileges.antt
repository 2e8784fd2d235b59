-- ===== src/Sandbox/Launch/Privileges.antt =====
-- The `setuid` and the `chroot` of a child (`start_child` of sandbox/src/lib.rs).
use mathlib.Core.List.{append_assoc}
use wave_judge.Prelude.{
  ℕ, ◌≡◌, ◌≢◌, sym, ap, ◌∙◌, Option, none, some, List, [], ◌∷◌, ◌++◌, map, Text, ok,
}
use wave_judge.Sandbox.Kernel.{Os, Call, Child, setuid, chroot, chdir, execve, perform_all}
use wave_judge.Sandbox.Kernel.Stops.{perform_all-granted}
use wave_judge.Sandbox.Builder.{Builder}
use wave_judge.Sandbox.Builder.Laws.{IsCString, IsValid}
use wave_judge.Sandbox.Launch.{expand_path, start_child, env_text}
use wave_judge.Sandbox.Launch.Plan.{
  plan, start_child-plan, calls_for, redirection_calls, rlimit_calls, seccomp_calls,
}

-- chroot(2): only a privileged process may change its root; setuid(2): a process that took a user
-- id other than 0 has no privileges.
abbrev pub ChrootNeedsRoot : Os → Type 0
ChrootNeedsRoot os =
    (before after : List Call) (uid : ℕ) (dir : Text)
    → uid ≢ 0
    → os.refuses (before ++ setuid uid ∷ after) (chroot dir) ≢ none

chroot_shape :
    (redirections : List Call) (user : Option ℕ) (working : List Call) (root : Option Text)
    (rest : List Call) (uid : ℕ) (dir : Text)
    → user ≡ some uid
    → root ≡ some dir
    → redirections
        ++ ((calls_for user (λ u. setuid u ∷ []) ++ [])
            ++ ((working ++ (calls_for root (λ d. chroot d ∷ []) ++ [])) ++ rest))
      ≡ (redirections ++ setuid uid ∷ working) ++ chroot dir ∷ rest
chroot_shape redirections user working root rest uid dir u d = rw (u, d) (simp append_assoc)

-- A program that is to run as a user other than root in a root directory of its own never starts:
-- `setuid` comes before `chroot`, which is then refused.
pub start_child-chroot :
    (os : Os) (b : Builder) (file : Text) (uid : ℕ) (dir : Text)
    → ChrootNeedsRoot os
    → IsValid b
    → expand_path os b.file ≡ some file
    → IsCString file
    → b.uid ≡ some uid
    → uid ≢ 0
    → b.dir.root_dir ≡ some dir
    → (start_child os b []).0 ≢ ok tt
start_child-chroot os b file uid dir law v found good u nonzero d started =
    law (redirection_calls b.redirections) (calls_for b.dir.working_dir (λ w. chdir w ∷ [])) uid dir
      nonzero
      (perform_all-granted os _ (chroot dir) _ [] (
        ap (λ (cs : List Call). (perform_all os cs []).0) (sym shape)
        ∙ ap (λ (m : Child Unit). (m []).0) (sym (start_child-plan os b file v found good))
        ∙ started))
  where
    shape :
        plan b file
        ≡ (redirection_calls b.redirections
            ++ (setuid uid ∷ calls_for b.dir.working_dir (λ w. chdir w ∷ [])))
          ++ (chroot dir
              ∷ (rlimit_calls b.use_native_rlimit b.limits
                  ++ (seccomp_calls b.syscall_whitelist
                      ++ execve file b.args (map env_text b.envs) ∷ [])))
    shape = chroot_shape _ b.uid _ b.dir.root_dir _ uid dir u d
