-- ===== src/Sandbox/Kernel.antt =====
-- The system calls by which a child prepares itself (sandbox/src/rlimits.rs, seccomp.rs, misc.rs
-- and the `nix` crate). The kernel is an oracle: given the calls that it granted so far, it grants
-- the next one or refuses it with an error number.
pub mod Laws
pub mod Stops
use wave_judge.Prelude.{
  ℕ, ◌≡◌, refl, fun_ext, Option, none, some, List, [], ◌∷◌, ◌++◌, Bool, Text, ok, err, panic,
}
use wave_judge.Sandbox.Errors.{Error, io, nix, seccomp, Fallible}

-- `Resource` of rlimits.rs.
pub data Resource : Type 0 where
  address_space cpu_time : Resource

-- `Action` of seccomp.rs.
pub data Action : Type 0 where
  allow kill_thread kill_process trap : Action
  errno trace : ℕ → Action

pub data Call : Type 0 where
  dup2 : (old_fd new_fd : ℕ) → Call
  set_cloexec : (fd : ℕ) → Call
  setuid : (uid : ℕ) → Call
  chdir chroot : (dir : Text) → Call
  setrlimit : (resource : Resource) (soft hard : ℕ) → Call
  seccomp_init : Action → Call
  seccomp_rule_add : (syscall : ℕ) → Action → Call
  seccomp_load : Call
  execve : (file : Text) (argv envs : List Text) → Call

pub record Os : Type 0 where
  pub exists : Text → Bool
  pub path_env : Option Text
  pub refuses : List Call → Call → Option ℕ

-- What the child does: the calls granted so far go in and come out.
abbrev pub Child : Type 0 → Type 0
Child A = List Call → Fallible A × List Call

infixl 5 ◌>>=◌ ◌>>◌
abbrev pub continue :
    {A B : Type 0} → (A → Child B) → Fallible A × List Call → Fallible B × List Call
continue f (ok a, calls) = f a calls
continue f (err e, calls) = (err e, calls)
continue f (panic, calls) = (panic, calls)

abbrev pub ◌>>=◌ : {A B : Type 0} → Child A → (A → Child B) → Child B
◌>>=◌ m f calls = continue f (m calls)

abbrev pub ◌>>◌ : {B : Type 0} → Child (Unit {0}) → Child B → Child B
m >> k = m >>= λ _. k

abbrev pub pure : {A : Type 0} → A → Child A
pure a calls = (ok a, calls)

abbrev pub lift : {A : Type 0} → Fallible A → Child A
lift r calls = (r, calls)

-- The error of a refusal, by the crate that makes the call. A code of libseccomp is given without
-- its minus sign, and a null context of `seccomp_init` is the code -1.
abbrev pub error_of : Call → ℕ → Error
error_of (setrlimit _ _ _) n = io n
error_of (seccomp_init _) n = seccomp 1
error_of (seccomp_rule_add _ _) n = seccomp n
error_of seccomp_load n = seccomp n
error_of _ n = nix n

module _ (os : Os) where
  unfoldable pub answer : Call → Option ℕ → Child (Unit {0})
  answer c none calls = (ok tt, calls ++ c ∷ [])
  answer c (some n) calls = (err (error_of c n), calls)

  unfoldable pub perform : Call → Child (Unit {0})
  unfolding answer
  perform c calls = answer c (os.refuses calls c) calls

  -- A list of calls in order, up to the first refusal.
  unfoldable pub perform_all : List Call → Child (Unit {0})
  unfolding perform
  perform_all [] = pure tt
  perform_all (c ∷ cs) = perform c >> perform_all cs

-- `dup_and_cloexec` of misc.rs.
unfoldable pub dup_and_cloexec : Os → ℕ → ℕ → Child (Unit {0})
unfolding perform
dup_and_cloexec os old_fd new_fd = do
  perform os (dup2 old_fd new_fd)
  perform os (set_cloexec old_fd)

-- `setrlimit_hard` of rlimits.rs.
unfoldable pub setrlimit_hard : Os → Resource → ℕ → Child (Unit {0})
unfolding perform
setrlimit_hard os resource limit = perform os (setrlimit resource limit limit)

-- `apply_syscall_filters` of seccomp.rs: the default is to kill, and each filter is a rule.
add_rules : Os → List (ℕ × Action) → Child (Unit {0})
unfolding perform
add_rules os [] = pure tt
add_rules os ((syscall, action) ∷ filters) = do
  perform os (seccomp_rule_add syscall action)
  add_rules os filters

unfoldable pub apply_syscall_filters : Os → List (ℕ × Action) → Child (Unit {0})
unfolding perform add_rules
apply_syscall_filters os filters = do
  perform os (seccomp_init kill_thread)
  add_rules os filters
  perform os seccomp_load
