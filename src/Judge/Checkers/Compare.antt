-- ===== src/Judge/Checkers/Compare.antt =====
-- The checkers on token lists: what `builtin_checker_exec` computes, however the files are read.
use wave_judge.Prelude.{
  ℕ, zero, suc, ◌<◌, ◌≡◌, refl, ◌∙◌, subst, Bool, true, false, Option, some, List, [], ◌∷◌, Text,
  All, length, ok, err, arith, if◌then◌else◌, Result,
}
use wave_judge.Judge.Tokens.{Reader, IoError, Run, Block, new, invalid_data}
use wave_judge.Judge.Tokens.Utf8.{is_utf8}
use wave_judge.Judge.Tokens.Words.{tokens}
use wave_judge.Judge.Tokens.Bytes.{IsBlock, content, new-Holds}
use wave_judge.Judge.Tokens.Reads.{NextToken, read_token-NextToken}
use wave_judge.Judge.Checkers.{
  CheckerResult, accept, reject, TokenCheck, found_eof, expect_eof, all_right, next_count, on_check,
  builtin_checker_exec,
}

abbrev pub step : Bool × Option Text → CheckerResult → CheckerResult
step (true, comment) rest = rest
step (false, comment) rest = reject comment

-- The verdict on two lists of tokens, the expected ones first; `n` is the counter of the tokens so far.
unfoldable pub compare : TokenCheck → ℕ → List Text → List Text → CheckerResult
compare check n [] [] = accept (some (all_right n))
compare check n [] (u ∷ us) = reject (some (expect_eof u))
compare check n (e ∷ es) [] = reject (some (found_eof e))
compare check n (e ∷ es) (u ∷ us) = step (check e u) (compare check (next_count n) es us)

abbrev pub AllUtf8 : List Text → Type 0
AllUtf8 = All (λ t. is_utf8 t ≡ true)

read-ok :
    (t : Text) (x : Run (Option Text)) (r : Reader)
    → is_utf8 t ≡ true
    → x ≡ some (if is_utf8 t then ok (some t) else err invalid_data, r)
    → x ≡ some (ok (some t), r)
read-ok t x r v e = e ∙ rw v refl

on_check-step :
    (c : Bool × Option Text) (next : Unit {0} → Option (Result IoError CheckerResult))
    (rest : CheckerResult)
    → next tt ≡ some (ok rest)
    → on_check c next ≡ some (ok (step c rest))
on_check-step (true, comment) next rest e = e
on_check-step (false, comment) next rest e = refl

module _ (check : TokenCheck) where
  -- The reads before a step of the loop are done; `rest` is the next round.
  exec-tokens :
      (f n : ℕ) (answer output : Reader) (left_a left_o : Text) (es us : List Text)
      → NextToken f answer left_a es
      → NextToken f output left_o us
      → AllUtf8 es
      → AllUtf8 us
      → length left_a < f
      → length left_o < f
      → builtin_checker_exec f check n answer output ≡ some (ok (compare check n es us))
  unfolding builtin_checker_exec compare
  exec-tokens zero n answer output left_a left_o es us next_a next_o va vo la lo =
      absurd (omega arith)
  exec-tokens (suc f) n answer output left_a left_o [] [] (a, ra, ha) (o, ro, ho) va vo la lo =
      rw (ra, ro) refl
  exec-tokens (suc f) n answer output left_a left_o [] (u ∷ us) (a, ra, ha)
        (o, rest_o, ro, ho, to, so) va vo la lo =
      rw (ra, read-ok u _ o vo.0 ro) refl
  exec-tokens (suc f) n answer output left_a left_o (e ∷ es) [] (a, rest_a, ra, ha, ta, sa)
        (o, ro, ho) va vo la lo =
      rw (read-ok e _ a va.0 ra, ro) refl
  exec-tokens (suc f) n answer output left_a left_o (e ∷ es) (u ∷ us) (a, rest_a, ra, ha, ta, sa)
        (o, rest_o, ro, ho, to, so) va vo la lo =
      rw (read-ok e _ a va.0 ra, read-ok u _ o vo.0 ro)
        (on_check-step (check e u) _ (compare check (next_count n) es us) (
          exec-tokens f (next_count n) a o rest_a rest_o es us
            (subst (NextToken f a rest_a) ta (read_token-NextToken f a rest_a ha (omega arith)))
            (subst (NextToken f o rest_o) to (read_token-NextToken f o rest_o ho (omega arith)))
            va.1 vo.1 (omega arith) (omega arith)))

-- On two files that give non-empty blocks without a read error and whose tokens are UTF-8, with
-- more fuel than either has bytes, a checker comes to what the comparison of the two lists of
-- tokens comes to, its comment included, in which the number of tokens is that of an `i32` that wraps
-- around, however the files are cut into blocks.
pub exec-compare :
    (check : TokenCheck) (f : ℕ) (answer output : List Block)
    → All IsBlock answer
    → All IsBlock output
    → AllUtf8 (tokens (content answer))
    → AllUtf8 (tokens (content output))
    → length (content answer) < f
    → length (content output) < f
    → builtin_checker_exec f check 0 (new answer) (new output)
      ≡ some (ok (compare check 0 (tokens (content answer)) (tokens (content output))))
exec-compare check f answer output ga go va vo la lo =
    exec-tokens check f 0 (new answer) (new output) _ _ _ _
      (read_token-NextToken f (new answer) _ (new-Holds answer ga) la)
      (read_token-NextToken f (new output) _ (new-Holds output go) lo) va vo la lo
