-- ===== src/Judge/Engine/Steps.antt =====
-- The ends of computations of the engine, step by step.
use wave_judge.Prelude.{◌≡◌, refl, Option, none, some, Result, ok, err, panic}
use wave_judge.Judge.Tokens.{IoError}
use wave_judge.Judge.Task.{JudgeError}
use wave_judge.Sandbox.Errors.{Fallible}
use wave_judge.Judge.Engine.{Judge, continue, must, from_sandbox, io_call}

pub continue-ok :
    {W A B : Type 0} (f : A → Judge W B) (x : Option (Result JudgeError A × W)) {b : B} {w' : W}
    → continue f x ≡ some (ok b, w')
    → (a : A) × (w : W) × (x ≡ some (ok a, w)) × (f a w ≡ some (ok b, w'))
unfolding continue
continue-ok f none h = cc
continue-ok f (some (ok a, w)) h = (a, w, refl, h)
continue-ok f (some (err e, w)) h = cc
continue-ok f (some (panic, w)) h = cc

pub must-ok :
    {W A : Type 0} (o : Option A) (w : W) {a : A} {w' : W}
    → must o w ≡ some (ok a, w')
    → (o ≡ some a) × (w ≡ w')
must-ok none w h = cc
must-ok (some a) w h = (cc, cc)

pub from_sandbox-ok :
    {W A : Type 0} (r : Fallible A) (w : W) {a : A} {w' : W}
    → from_sandbox r w ≡ some (ok a, w')
    → r ≡ ok a
from_sandbox-ok (ok x) w h = cc
from_sandbox-ok (err e) w h = cc
from_sandbox-ok panic w h = cc

answered-ok :
    {W A : Type 0} (x : Result IoError A × W) (w : W) {a : A} {w' : W}
    → io_call (λ (v : W). x) w ≡ some (ok a, w')
    → x ≡ (ok a, w')
answered-ok (ok b, v) w e = cc
answered-ok (err b, v) w e = cc
answered-ok (panic, v) w e = cc

pub io_call-ok :
    {W A : Type 0} (call : W → Result IoError A × W) (w : W) {a : A} {w' : W}
    → io_call call w ≡ some (ok a, w')
    → call w ≡ (ok a, w')
io_call-ok call w h = answered-ok (call w) w h
