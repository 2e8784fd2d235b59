-- ===== src/Prelude/Work.antt =====
-- Computations that pass a state on, and end at the first error or panic.
use mathlib.Core.Path.{◌≡◌, refl}
use mathlib.Core.Option.{Option, none, some}
use wave_judge.Prelude.Results.{Result, ok, err, panic}

-- A computation over a state `W` that may fail with an `E`.
abbrev pub Work : Type 0 → Type 0 → Type 0 → Type 0
Work W E A = W → Result E A × W

infixl 5 ◌>>=◌ ◌>>◌
unfoldable pub go_on : {W E A B : Type 0} → (A → Work W E B) → Result E A × W → Result E B × W
go_on f (ok a, w) = f a w
go_on f (err e, w) = (err e, w)
go_on f (panic, w) = (panic, w)

abbrev pub ◌>>=◌ : {W E A B : Type 0} → Work W E A → (A → Work W E B) → Work W E B
◌>>=◌ m f w = go_on f (m w)

abbrev pub ◌>>◌ : {W E B : Type 0} → Work W E (Unit {0}) → Work W E B → Work W E B
m >> k = m >>= λ _. k

abbrev pub give : {W E A : Type 0} → Result E A → Work W E A
give r w = (r, w)

-- `expect` and `unwrap`.
abbrev pub present : {W E A : Type 0} → Option A → Work W E A
present none w = (panic, w)
present (some a) w = (ok a, w)

pub go_on-ok :
    {W E A B : Type 0} (f : A → Work W E B) (x : Result E A × W) {b : B} {w' : W}
    → go_on f x ≡ (ok b, w')
    → (a : A) × (w : W) × (x ≡ (ok a, w)) × (f a w ≡ (ok b, w'))
unfolding go_on
go_on-ok f (ok a, w) h = (a, w, refl, h)
go_on-ok f (err e, w) h = cc
go_on-ok f (panic, w) h = cc
