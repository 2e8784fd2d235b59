-- ===== src/Sandbox/Kernel/Stops.antt =====
-- How a sequence of system calls ends: complete, or at the first call that the kernel refuses.
use mathlib.Core.List.{append-nil, append_assoc}
use wave_judge.Prelude.{
  ℕ, ◌≡◌, ◌⊎◌, inl, inr, refl, ap, sym, subst, ◌∙◌, Option, none, some, List, [], ◌∷◌, ◌++◌, ok,
  err,
}
use wave_judge.Sandbox.Errors.{Fallible}
use wave_judge.Sandbox.Kernel.{Os, Call, answer, perform_all, error_of}

-- `r` is what `cs` comes to after the granted `calls`: a first part of `cs` was granted, and the
-- call behind it, if any, is the one that was refused and that the error names.
pub record Stops (os : Os) (cs calls : List Call) (r : Fallible Unit × List Call) : Type 0 where
  pub done : List Call
  pub left : List Call
  pub split : cs ≡ done ++ left
  pub granted : r.1 ≡ calls ++ done
  pub ended :
      ((r.0 ≡ ok tt) × (left ≡ []))
      ⊎ ((c : Call) × (rest : List Call) × (n : ℕ) × (left ≡ c ∷ rest)
          × (os.refuses r.1 c ≡ some n)
          × (r.0 ≡ err (error_of c n)))

Stops-refused :
    (os : Os) (c : Call) (cs calls : List Call) (n : ℕ)
    → os.refuses calls c ≡ some n
    → Stops os (c ∷ cs) calls (err (error_of c n), calls)
Stops-refused os c cs calls n e = record {
  done = [];
  left = c ∷ cs;
  split = refl;
  granted = sym (append-nil calls);
  ended = inr (c, cs, n, refl, e, refl);
}

Stops-cons :
    (os : Os) (c : Call) (cs calls : List Call) (r : Fallible Unit × List Call)
    → Stops os cs (calls ++ c ∷ []) r
    → Stops os (c ∷ cs) calls r
Stops-cons os c cs calls r s = record {
  done = c ∷ s.done;
  left = s.left;
  split = ap (λ (l : List Call). c ∷ l) s.split;
  granted = s.granted ∙ append_assoc calls (c ∷ []) s.done;
  ended = s.ended;
}

perform_all-step :
    (os : Os) (c : Call) (cs calls : List Call)
    → os.refuses calls c ≡ none
    → perform_all os (c ∷ cs) calls ≡ perform_all os cs (calls ++ c ∷ [])
unfolding perform_all answer
perform_all-step os c cs calls e = rw (e, answer) refl

perform_all-halt :
    (os : Os) (c : Call) (cs calls : List Call) (n : ℕ)
    → os.refuses calls c ≡ some n
    → perform_all os (c ∷ cs) calls ≡ (err (error_of c n), calls)
unfolding perform_all answer
perform_all-halt os c cs calls n e = rw (e, answer) refl

Stops-answer :
    (os : Os) (c : Call) (cs calls : List Call) (a : Option ℕ)
    → os.refuses calls c ≡ a
    → Stops os cs (calls ++ c ∷ []) (perform_all os cs (calls ++ c ∷ []))
    → Stops os (c ∷ cs) calls (perform_all os (c ∷ cs) calls)
Stops-answer os c cs calls none e rest =
    subst (Stops os (c ∷ cs) calls) (sym (perform_all-step os c cs calls e))
      (Stops-cons os c cs calls _ rest)
Stops-answer os c cs calls (some n) e rest =
    subst (Stops os (c ∷ cs) calls) (sym (perform_all-halt os c cs calls n e))
      (Stops-refused os c cs calls n e)

-- However the kernel answers, a list of calls ends in this way.
pub perform_all-Stops :
    (os : Os) (cs calls : List Call) → Stops os cs calls (perform_all os cs calls)
perform_all-Stops os [] calls =
    unfold perform_all in
    record {
      done = [];
      left = [];
      split = refl;
      granted = sym (append-nil calls);
      ended = inl (refl, refl);
    }
perform_all-Stops os (c ∷ cs) calls =
    Stops-answer os c cs calls (os.refuses calls c) refl (perform_all-Stops os cs (calls ++ c ∷ []))

perform_all-first :
    (os : Os) (c : Call) (cs calls : List Call) (a : Option ℕ)
    → os.refuses calls c ≡ a
    → (perform_all os (c ∷ cs) calls).0 ≡ ok tt
    → os.refuses calls c ≡ none
perform_all-first os c cs calls none e h = e
perform_all-first os c cs calls (some n) e h = cc (perform_all-halt os c cs calls n e)

-- If all of `before ++ c ∷ after` was granted, `c` was granted after `before`.
pub perform_all-granted :
    (os : Os) (before : List Call) (c : Call) (after calls : List Call)
    → (perform_all os (before ++ c ∷ after) calls).0 ≡ ok tt
    → os.refuses (calls ++ before) c ≡ none
perform_all-granted os [] c after calls h =
    rw (append-nil calls) (perform_all-first os c after calls _ refl h)
perform_all-granted os (b ∷ before) c after calls h =
    let cs = before ++ c ∷ after in
    let e = perform_all-first os b cs calls _ refl h in
    rw (← append_assoc calls (b ∷ []) before) (
      perform_all-granted os before c after (calls ++ b ∷ [])
        (ap (λ (r : Fallible Unit × List Call). r.0) (sym (perform_all-step os b cs calls e)) ∙ h))
