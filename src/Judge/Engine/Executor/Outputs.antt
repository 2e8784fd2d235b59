-- ===== src/Judge/Engine/Executor/Outputs.antt =====
-- The built-in checkers on the two open files of a test case (`run_checker` of
-- judge/src/engine/mod.rs).
use wave_judge.Prelude.{ℕ, suc, ◌+◌, ◌≡◌, refl, ◌↔◌, true, some, All, length, ok, arith}
use wave_judge.Judge.Tokens.Words.{tokens}
use wave_judge.Judge.Tokens.Bytes.{IsBlock, content}
use wave_judge.Judge.Checkers.{CheckerResult, TokenCheck}
use wave_judge.Judge.Checkers.Compare.{AllUtf8, compare, exec-compare}
use wave_judge.Judge.Checkers.Standard.{Agree, compare-accepted}
use wave_judge.Judge.Engine.{Host}
use wave_judge.Judge.Engine.Executor.{run_checker}

module _ {W : Type 0} (host : Host W) where
  -- A file that is open gives all its bytes without an error, and its tokens are UTF-8.
  pub record Readable (fd : ℕ) (w : W) : Type 0 where
    pub blocks : All IsBlock (host.content fd w)
    pub utf8 : AllUtf8 (tokens (content (host.content fd w)))

  -- On readable files every built-in checker returns, and it accepts exactly when the tokens of the
  -- answer and of the output agree pairwise under its check and are equally many.
  pub run_checker-Agree :
      (check : TokenCheck) (answer output : ℕ) (w : W)
      → Readable answer w
      → Readable output w
      → (res : CheckerResult) × (run_checker host check answer output w ≡ some (ok res, w))
        × ((res.accepted ≡ true)
            ↔ Agree check
                (tokens (content (host.content answer w)))
                (tokens (content (host.content output w))))
  unfolding run_checker
  run_checker-Agree check answer output w ra ro =
      let run =
        exec-compare check
          (suc
            (length (content (host.content answer w)) + length (content (host.content output w))))
          (host.content answer w) (host.content output w) ra.blocks ro.blocks ra.utf8 ro.utf8
          (omega arith) (omega arith) in
      (
        compare check 0 (tokens (content (host.content answer w)))
            (tokens (content (host.content output w))),
        rw (run, run_checker) refl,
        compare-accepted check 0 _ _,
      )
