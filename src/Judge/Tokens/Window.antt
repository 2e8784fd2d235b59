-- ===== src/Judge/Tokens/Window.antt =====
-- The unread part of a buffer.
use wave_judge.Prelude.{
  ℕ, zero, suc, ◌<◌, ◌≤◌, ◌≡◌, refl, ap, some, [], ◌∷◌, ◌++◌, Text, length, take, drop, get_elem?,
  length-append, length-drop, arith,
}
use wave_judge.Judge.Tokens.{overwrite}

-- The bytes from `ptr` up to `size`.
pub window : Text → ℕ → ℕ → Text
window buffer size zero = take size buffer
window [] size (suc ptr) = []
window (b ∷ buffer) zero (suc ptr) = []
window (b ∷ buffer) (suc size) (suc ptr) = window buffer size ptr

pub window-end : (buffer : Text) (size ptr : ℕ) → size ≤ ptr → window buffer size ptr ≡ []
unfolding window
window-end buffer zero zero h = refl
window-end buffer (suc size) zero h = absurd (omega arith)
window-end [] size (suc ptr) h = refl
window-end (b ∷ buffer) zero (suc ptr) h = refl
window-end (b ∷ buffer) (suc size) (suc ptr) h = window-end buffer size ptr (omega arith)

-- A byte that is not read yet is in the buffer, and reading it leaves the others.
pub window-step :
    (buffer : Text) (size ptr : ℕ)
    → ptr < size
    → size ≤ length buffer
    → (b : ℕ) × (get_elem? buffer ptr ≡ some b)
      × (window buffer size ptr ≡ b ∷ window buffer size (suc ptr))
unfolding window
window-step [] size ptr h k = absurd (omega arith)
window-step (b ∷ buffer) zero ptr h k = absurd (omega arith)
window-step (b ∷ buffer) (suc size) zero h k = (b, refl, refl)
window-step (b ∷ buffer) (suc size) (suc ptr) h k =
    window-step buffer size ptr (omega arith) (omega arith)

take-overwrite : (bytes rest : Text) → take (length bytes) (bytes ++ rest) ≡ bytes
take-overwrite [] rest = refl
take-overwrite (b ∷ bytes) rest = ap (λ (l : Text). b ∷ l) (take-overwrite bytes rest)

-- After a block is read, what is unread is that block.
pub window-overwrite :
    (bytes buffer : Text) → window (overwrite bytes buffer) (length bytes) 0 ≡ bytes
unfolding window
window-overwrite bytes buffer = take-overwrite bytes _

pub length-overwrite :
    (bytes buffer : Text)
    → length bytes ≤ length buffer
    → length (overwrite bytes buffer) ≡ length buffer
length-overwrite bytes buffer h =
    omega
      (arith, length-append bytes (drop (length bytes) buffer), length-drop (length bytes) buffer)
