-- ===== src/Driver/Workers/Threads.antt =====
-- driver/src/workers.rs: the loop of a worker thread, and `run`, which spawns and joins the threads.
-- Sleeping is left out, and the board is a parameter.
pub mod Ends
pub mod Deaths
use wave_judge.Prelude.{
  ℕ, zero, suc, ◌+◌, ◌-◌, ltb, ◌==◌, Bool, true, false, Option, none, some, List, [], ◌∷◌, Text,
  codes, Result, ok, err, panic, if◌then◌else◌,
}
use wave_judge.Prelude.Work.{Work}
use wave_judge.Driver.ObjectIds.{ObjectId}
use wave_judge.Driver.Entities.{SubmissionInfo, SubmissionJudgeResult}
use wave_judge.Driver.Workers.{Services, handle_submission, failure, patch_result}

-- The requests of `RestfulClient` that a worker makes.
pub record Board (W E : Type 0) : Type 0 where
  pub get_submission : Work W E (Option SubmissionInfo)
  pub patch_judge_result : ObjectId → SubmissionJudgeResult → Work W E (Unit {0})

-- A thread that goes on in the loop, or that a panic has ended.
pub data Thread (W : Type 0) : Type 0 where
  alive dead : W → Thread W

module _ {W E : Type 0} (services : Services W E) (board : Board W E) where
  unfoldable pub reported : Result E Bool × W → Thread W
  reported (ok arrived, w) = alive w
  reported (err e, w) = alive w
  reported (panic, w) = dead w

  -- The report of a submission, with three attempts.
  unfoldable pub report : SubmissionInfo → SubmissionJudgeResult → W → Thread W
  unfolding patch_result reported
  report submission result w =
      reported (patch_result (board.patch_judge_result submission.id result) 3 w)

  -- An error of `handle_submission` is reported as a failure without a message.
  unfoldable pub handled : SubmissionInfo → Result E SubmissionJudgeResult × W → Thread W
  unfolding report failure
  handled submission (ok result, w) = report submission result w
  handled submission (err e, w) = report submission (failure []) w
  handled submission (panic, w) = dead w

  unfoldable pub fetched : Result E (Option SubmissionInfo) × W → Thread W
  unfolding handled handle_submission
  fetched (ok (some submission), w) = handled submission (handle_submission services submission w)
  fetched (ok none, w) = alive w
  fetched (err e, w) = alive w
  fetched (panic, w) = dead w

  -- One round of the loop.
  unfoldable pub iteration : W → Thread W
  unfolding fetched
  iteration w = fetched (board.get_submission w)

  unfoldable pub onwards : (W → Thread W) → Thread W → Thread W
  onwards next (alive w) = next w
  onwards next (dead w) = dead w

  -- `worker_entry`, for a number of rounds; the loop has no other end.
  unfoldable pub worker_entry : ℕ → W → Thread W
  unfolding iteration onwards
  worker_entry zero w = alive w
  worker_entry (suc n) w = onwards (worker_entry n) (iteration w)

-- What `join` on a thread gives, if the thread ends.
pub data Ending : Type 0 where
  returned panicked : Ending

pub data WorkersError : Type 0 where
  invalid_number_of_workers : WorkersError
  worker_failed : ℕ → WorkersError

abbrev pub max_workers : ℕ
max_workers = 10

-- At most `MAX_WORKERS` threads.
unfoldable pub num_workers : ℕ → ℕ
num_workers workers = if ltb max_workers workers then max_workers else workers

-- `(1..n).zip(threads)`: the joins of the workers from `id` on, `left` of them. `none` is a join that
-- does not return.
unfoldable pub next_join :
    ℕ
    → Option (Result WorkersError (Unit {0}))
    → Option Ending
    → Option (Result WorkersError (Unit {0}))
next_join id rest none = none
next_join id rest (some returned) = rest
next_join id rest (some panicked) = some (err (worker_failed id))

unfoldable pub join_all : (ℕ → Option Ending) → ℕ → ℕ → Option (Result WorkersError (Unit {0}))
unfolding next_join
join_all ends id zero = some (ok tt)
join_all ends id (suc left) = next_join id (join_all ends (id + 1) left) (ends id)

-- `run`: the range ends before the number of the last worker.
unfoldable pub run : (ℕ → Option Ending) → ℕ → Option (Result WorkersError (Unit {0}))
unfolding num_workers join_all
run ends workers =
    if workers == 0
    then some (err invalid_number_of_workers)
    else join_all ends 1 (num_workers workers - 1)
