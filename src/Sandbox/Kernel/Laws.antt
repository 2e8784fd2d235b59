-- ===== src/Sandbox/Kernel/Laws.antt =====
-- Sequences of system calls.
use wave_judge.Prelude.{
  ℕ, ◌≡◌, refl, sym, ap, ◌∙◌, fun_ext, List, [], ◌∷◌, ◌++◌, ok, err, panic, map,
}
use wave_judge.Sandbox.Errors.{Fallible}
use wave_judge.Sandbox.Kernel.{
  Os, Call, Child, Action, continue, ◌>>=◌, ◌>>◌, pure, perform, perform_all, dup2, set_cloexec,
  dup_and_cloexec, add_rules, apply_syscall_filters, seccomp_init, seccomp_rule_add, seccomp_load,
  kill_thread,
}

continue-continue :
    {A B C : Type 0} (f : A → Child B) (g : B → Child C) (r : Fallible A × List Call)
    → continue g (continue f r) ≡ continue (λ a. f a >>= g) r
continue-continue f g (ok a, calls) = refl
continue-continue f g (err e, calls) = refl
continue-continue f g (panic, calls) = refl

pub bind_assoc :
    {A B C : Type 0} (m : Child A) (f : A → Child B) (g : B → Child C)
    → (m >>= f >>= g) ≡ (m >>= λ a. f a >>= g)
bind_assoc m f g = fun_ext λ calls. continue-continue f g (m calls)

continue-pure : (r : Fallible Unit × List Call) → continue (λ _. pure tt) r ≡ r
continue-pure (ok tt, calls) = refl
continue-pure (err e, calls) = refl
continue-pure (panic, calls) = refl

pub bind-pure : (m : Child Unit) → (m >> pure tt) ≡ m
bind-pure m = fun_ext λ calls. continue-pure (m calls)

-- The call by which a filter becomes a rule.
abbrev pub rule : ℕ × Action → Call
rule (syscall, action) = seccomp_rule_add syscall action

module _ (os : Os) where
  pub perform_all-append :
      (cs ds : List Call) → perform_all os (cs ++ ds) ≡ (perform_all os cs >> perform_all os ds)
  unfolding perform_all
  perform_all-append [] ds = refl
  perform_all-append (c ∷ cs) ds =
      rw (perform_all-append cs ds)
        (sym (bind_assoc (perform os c) (λ _. perform_all os cs) (λ _. perform_all os ds)))

  -- One action after another, each a list of calls.
  pub plan_then :
      (m k : Child Unit) (cs ds : List Call)
      → m ≡ perform_all os cs
      → k ≡ perform_all os ds
      → (m >> k) ≡ perform_all os (cs ++ ds)
  plan_then m k cs ds p q = rw (p, q) (sym (perform_all-append cs ds))

  pub perform_all-one : (c : Call) → perform_all os (c ∷ []) ≡ perform os c
  unfolding perform_all
  perform_all-one c = bind-pure (perform os c)

  pub dup_and_cloexec-plan :
      (old_fd new_fd : ℕ)
      → dup_and_cloexec os old_fd new_fd
        ≡ perform_all os (dup2 old_fd new_fd ∷ set_cloexec old_fd ∷ [])
  unfolding dup_and_cloexec perform_all
  dup_and_cloexec-plan old_fd new_fd =
      ap (λ (m : Child Unit). perform os (dup2 old_fd new_fd) >> m)
        (sym (bind-pure (perform os (set_cloexec old_fd))))

  add_rules-plan :
      (filters : List (ℕ × Action)) → add_rules os filters ≡ perform_all os (map rule filters)
  unfolding add_rules perform_all
  add_rules-plan [] = refl
  add_rules-plan ((syscall, action) ∷ filters) =
      ap (λ (m : Child Unit). perform os (seccomp_rule_add syscall action) >> m)
        (add_rules-plan filters)

  pub apply_syscall_filters-plan :
      (filters : List (ℕ × Action))
      → apply_syscall_filters os filters
        ≡ perform_all os (seccomp_init kill_thread ∷ (map rule filters ++ seccomp_load ∷ []))
  unfolding apply_syscall_filters perform_all
  apply_syscall_filters-plan filters = rw (add_rules-plan filters) (
      sym (
        ap (λ (m : Child Unit). perform os (seccomp_init kill_thread) >> m)
          (perform_all-append (map rule filters) (seccomp_load ∷ [])
            ∙ ap (λ (m : Child Unit). perform_all os (map rule filters) >> m)
                (perform_all-one seccomp_load))))
