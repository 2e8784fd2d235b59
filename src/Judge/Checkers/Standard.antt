-- ===== src/Judge/Checkers/Standard.antt =====
-- What the default and the case insensitive checker accept.
use wave_judge.Prelude.{
  map, ℕ, ◌<◌, ◌≡◌, ◌↔◌, refl, Bool, true, false, Option, some, List, [], ◌∷◌, Text, All, length,
  text_eq, text_eq_iff, ok, arith, Bool-cases, inl, inr,
}
use wave_judge.Judge.Tokens.{Block, new}
use wave_judge.Judge.Tokens.Words.{tokens}
use wave_judge.Judge.Tokens.Bytes.{IsBlock, content}
use wave_judge.Judge.Checkers.{
  next_count, case_insensitive_check, to_lower, CheckerResult, TokenCheck, builtin_checker_exec,
  default_check,
}
use wave_judge.Judge.Checkers.Compare.{compare, step, AllUtf8, exec-compare}

-- Two lists of tokens that the check accepts pairwise, and of one length.
abbrev pub Agree : TokenCheck → List Text → List Text → Type 0
Agree check [] [] = Unit
Agree check (e ∷ es) (u ∷ us) = ((check e u).0 ≡ true) × Agree check es us
Agree check _ _ = ⊥

step-accepted :
    (c : Bool × Option Text) (rest : CheckerResult)
    → (step c rest).accepted ≡ true
    → (c.0 ≡ true) × (rest.accepted ≡ true)
step-accepted (true, comment) rest h = (refl, h)
step-accepted (false, comment) rest h = cc

step-accepts :
    (c : Bool × Option Text) (rest : CheckerResult)
    → c.0 ≡ true
    → rest.accepted ≡ true
    → (step c rest).accepted ≡ true
step-accepts (true, comment) rest e h = h
step-accepts (false, comment) rest e h = cc

pub compare-accepted :
    (check : TokenCheck) (n : ℕ) (es us : List Text)
    → ((compare check n es us).accepted ≡ true) ↔ Agree check es us
unfolding compare
compare-accepted check n [] [] = (λ _. tt, λ _. refl)
compare-accepted check n [] (u ∷ us) = (λ h. cc, λ h. absurd h)
compare-accepted check n (e ∷ es) [] = (λ h. cc, λ h. absurd h)
compare-accepted check n (e ∷ es) (u ∷ us) = (
  λ h.
      let (one, more) = step-accepted (check e u) (compare check (next_count n) es us) h in
      (one, (compare-accepted check (next_count n) es us).0 more),
  λ (one, more).
      step-accepts (check e u) (compare check (next_count n) es us) one
        ((compare-accepted check (next_count n) es us).1 more),
)

default-agrees : (e u : Text) → ((default_check e u).0 ≡ true) ↔ (e ≡ u)
unfolding default_check
default-agrees e u = elim (Bool-cases (text_eq e u)) [
  | inl same ↦ (λ _. (text_eq_iff e u).0 same, λ _. rw same refl)
  | inr other ↦ (λ h. ground arith, λ p. cc ((text_eq_iff e u).1 p))
]

Agree-default : (es us : List Text) → Agree default_check es us ↔ (es ≡ us)
Agree-default [] [] = (λ _. refl, λ _. tt)
Agree-default [] (u ∷ us) = (λ h. absurd h, λ h. cc)
Agree-default (e ∷ es) [] = (λ h. absurd h, λ h. cc)
Agree-default (e ∷ es) (u ∷ us) = (
  λ (one, more). cc ((default-agrees e u).0 one, (Agree-default es us).0 more),
  λ p. ((default-agrees e u).1 (cc), (Agree-default es us).1 (cc)),
)

-- On two files that give non-empty blocks without a read error and whose tokens are UTF-8, with
-- more fuel than either has bytes, the default checker returns, and it accepts exactly when the
-- tokens of the output are those of the answer, however the files are cut into blocks.
pub default_checker-accepts :
    (f : ℕ) (answer output : List Block)
    → All IsBlock answer
    → All IsBlock output
    → AllUtf8 (tokens (content answer))
    → AllUtf8 (tokens (content output))
    → length (content answer) < f
    → length (content output) < f
    → (r : CheckerResult) × (builtin_checker_exec f default_check 0 (new answer) (new output)
        ≡ some (ok r))
      × ((r.accepted ≡ true) ↔ (tokens (content answer) ≡ tokens (content output)))
default_checker-accepts f answer output ga go va vo la lo = (
  compare default_check 0 (tokens (content answer)) (tokens (content output)),
  exec-compare default_check f answer output ga go va vo la lo,
  (
    λ h. (Agree-default _ _).0 ((compare-accepted default_check 0 _ _).0 h),
    λ e. (compare-accepted default_check 0 _ _).1 ((Agree-default _ _).1 e),
  ),
)

case_insensitive-agrees :
    (e u : Text) → ((case_insensitive_check e u).0 ≡ true) ↔ (map to_lower e ≡ map to_lower u)
unfolding case_insensitive_check
case_insensitive-agrees e u = elim (Bool-cases (text_eq (map to_lower e) (map to_lower u))) [
  | inl same ↦ (λ _. (text_eq_iff (map to_lower e) (map to_lower u)).0 same, λ _. rw same refl)
  | inr other ↦ (λ h. ground arith, λ p. cc ((text_eq_iff (map to_lower e) (map to_lower u)).1 p))
]

-- The tokens with their ASCII letters in lower case.
abbrev pub lowered : List Text → List Text
lowered = map (map to_lower)

Agree-case_insensitive :
    (es us : List Text) → Agree case_insensitive_check es us ↔ (lowered es ≡ lowered us)
Agree-case_insensitive [] [] = (λ _. refl, λ _. tt)
Agree-case_insensitive [] (u ∷ us) = (λ h. absurd h, λ h. cc)
Agree-case_insensitive (e ∷ es) [] = (λ h. absurd h, λ h. cc)
Agree-case_insensitive (e ∷ es) (u ∷ us) = (
  λ (one, more). cc ((case_insensitive-agrees e u).0 one, (Agree-case_insensitive es us).0 more),
  λ p. ((case_insensitive-agrees e u).1 (cc), (Agree-case_insensitive es us).1 (cc)),
)

-- On two files that give non-empty blocks without a read error and whose tokens are UTF-8, with
-- more fuel than either has bytes, the case insensitive checker returns, and it accepts exactly
-- when the tokens of the output are those of the answer once ASCII letters are in lower case.
pub case_insensitive_checker-accepts :
    (f : ℕ) (answer output : List Block)
    → All IsBlock answer
    → All IsBlock output
    → AllUtf8 (tokens (content answer))
    → AllUtf8 (tokens (content output))
    → length (content answer) < f
    → length (content output) < f
    → (r : CheckerResult) × (builtin_checker_exec f case_insensitive_check 0
          (new answer)
          (new output)
        ≡ some (ok r))
      × ((r.accepted ≡ true)
          ↔ (lowered (tokens (content answer)) ≡ lowered (tokens (content output))))
case_insensitive_checker-accepts f answer output ga go va vo la lo = (
  compare case_insensitive_check 0 (tokens (content answer)) (tokens (content output)),
  exec-compare case_insensitive_check f answer output ga go va vo la lo,
  (
    λ h. (Agree-case_insensitive _ _).0 ((compare-accepted case_insensitive_check 0 _ _).0 h),
    λ e. (compare-accepted case_insensitive_check 0 _ _).1 ((Agree-case_insensitive _ _).1 e),
  ),
)
