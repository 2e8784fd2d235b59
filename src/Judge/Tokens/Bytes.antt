-- ===== src/Judge/Tokens/Bytes.antt =====
-- Reading byte by byte, and the content of the device (`TokenizedReader`).
use mathlib.Core.List.{append_assoc}
use native.Mathlib.Numerals.{add-one}
use wave_judge.Prelude.{
  ℕ, suc, ◌+◌, ◌<◌, ◌≤◌, ◌≡◌, inl, inr, refl, sym, ap, ◌∙◌, true, none, some, List, [], ◌∷◌, ◌++◌,
  Text, length, take, drop, get_elem?, leb, All, ok, arith, Bool-cases, take-append-drop,
  length-take, length-drop, length-replicate, replicate,
}
use wave_judge.Judge.Tokens.{
  Block, block, failure, Reader, device_read, new, read_block, read_byte, overwrite, max_block,
  filled, after_block, pick,
}
use wave_judge.Judge.Tokens.Window.{
  window, window-end, window-step, window-overwrite, length-overwrite,
}

-- A device that never fails and ends only at its end.
abbrev pub IsBlock : Block → Type 0
IsBlock (block b) = 0 < length b
IsBlock (failure e) = ⊥

abbrev pub content : List Block → Text
content [] = []
content (block b ∷ bs) = b ++ content bs
content (failure e ∷ bs) = content bs

-- A reader of such a device; `left` is all that it will still give.
pub record Holds (r : Reader) (left : Text) : Type 0 where
  pub device : All IsBlock r.inner
  pub size : 0 < length r.buffer
  pub fits : r.buffer_size ≤ length r.buffer
  pub unread : window r.buffer r.buffer_size r.ptr ++ content r.inner ≡ left

pub new-Holds : (inner : List Block) → All IsBlock inner → Holds (new inner) (content inner)
unfolding new
new-Holds inner good = record {
  device = good;
  size = omega (arith, length-replicate {A = ℕ} max_block 0);
  fits = omega arith;
  unread =
      ap (λ (w : Text). w ++ content inner) (window-end (replicate max_block 0) 0 0 (omega arith));
}

-- What one read of a device comes to: its end, or at least one byte.
pub record Reads (n : ℕ) (bs : List Block) (bytes : Text) (bs' : List Block) : Type 0 where
  pub small : length bytes ≤ n
  pub device : All IsBlock bs'
  pub same : bytes ++ content bs' ≡ content bs
  pub at_end : bytes ≡ [] → bs' ≡ []

device_read-Reads :
    (n : ℕ) (bs : List Block)
    → 0 < n
    → All IsBlock bs
    → (bytes : Text) × (bs' : List Block) × (device_read n bs ≡ (ok bytes, bs'))
      × Reads n bs bytes bs'
unfolding device_read
device_read-Reads n [] pos good =
    ([], [], refl, record { small = omega arith; device = tt; same = refl; at_end = λ _. refl })
device_read-Reads n (failure e ∷ bs) pos good = absurd good.0
device_read-Reads n (block b ∷ bs) pos good = elim (Bool-cases (leb (length b) n)) [
  | inl fits ↦ (
    b,
    bs,
    rw fits refl,
    record {
      small = ground arith;
      device = good.1;
      same = refl;
      at_end = λ e. absurd (omega (arith, ap (λ (l : Text). length l) e, good.0));
    },
  )
  | inr long ↦ (
    take n b,
    block (drop n b) ∷ bs,
    rw long refl,
    record {
      small = omega (arith, length-take n b);
      device = (ground (arith, length-drop n b), good.1);
      same =
          sym (append_assoc (take n b) (drop n b) (content bs))
          ∙ ap (λ (l : Text). l ++ content bs) (take-append-drop n b);
      at_end = λ e. absurd (ground (arith, ap (λ (l : Text). length l) e, length-take n b));
    },
  )
]

-- A reader whose buffer was filled with a block.
abbrev refilled : Reader → Text → List Block → Reader
refilled r bytes rest = record {
  inner = rest;
  buffer = overwrite bytes r.buffer;
  buffer_size = length bytes;
  ptr = 0;
}

refilled-Holds :
    (r : Reader) (left bytes : Text) (rest : List Block)
    → 0 < length r.buffer
    → content r.inner ≡ left
    → Reads (length r.buffer) r.inner bytes rest
    → Holds (refilled r bytes rest) left
refilled-Holds r left bytes rest pos whole reads = record {
  device = reads.device;
  size = omega (arith, length-overwrite bytes r.buffer reads.small);
  fits = omega (arith, length-overwrite bytes r.buffer reads.small, reads.small);
  unread =
      ap (λ (w : Text). w ++ content rest) (window-overwrite bytes r.buffer) ∙ reads.same ∙ whole;
}

empty_read :
    (n : ℕ) (inner : List Block) (bytes : Text) (rest : List Block)
    → Reads n inner bytes rest
    → length bytes ≤ 0
    → content inner ≡ []
empty_read n inner [] rest reads h =
    sym reads.same ∙ ap (λ (bs : List Block). content bs) (reads.at_end refl)
empty_read n inner (b ∷ bytes) rest reads h = absurd (omega arith)

-- When all bytes of the buffer were read, the next block holds what is left, and is empty only at
-- the end.
read_block-Holds :
    (r : Reader) (left : Text)
    → Holds r left
    → r.buffer_size ≤ r.ptr
    → (r' : Reader) × (read_block r ≡ (ok tt, r'))
      × Holds r' left
      × (r'.buffer_size ≤ r'.ptr → left ≡ [])
unfolding read_block
read_block-Holds r left h done =
    let (bytes, rest, e, reads) = device_read-Reads (length r.buffer) r.inner h.size h.device in
    let whole : content r.inner ≡ left =
      ap (λ (w : Text). w ++ content r.inner) (sym (window-end r.buffer r.buffer_size r.ptr done))
      ∙ h.unread in
    (
      refilled r bytes rest,
      rw (e, filled) refl,
      refilled-Holds r left bytes rest h.size whole reads,
      λ small. sym whole ∙ empty_read (length r.buffer) r.inner bytes rest reads small,
    )

-- A byte that is in the buffer.
abbrev moved : Reader → Reader
moved r = record r { ptr = r.ptr + 1 }

pick-Holds :
    (r : Reader) (b : ℕ) (left : Text)
    → Holds r (b ∷ left)
    → r.ptr < r.buffer_size
    → (pick r (get_elem? r.buffer r.ptr) ≡ (ok (some b), moved r)) × Holds (moved r) left
unfolding pick
pick-Holds r b left h more =
    let (c, e, step) = window-step r.buffer r.buffer_size r.ptr more h.fits in
    let split : c ∷ (window r.buffer r.buffer_size (suc r.ptr) ++ content r.inner) ≡ b ∷ left =
      ap (λ (w : Text). w ++ content r.inner) (sym step) ∙ h.unread in
    (
      rw (e, pick) (ground (arith, split)),
      record {
        device = h.device;
        size = h.size;
        fits = h.fits;
        unread = rw add-one (ground (arith, split));
      },
    )

Holds-empty : (r : Reader) → Holds r [] → leb r.buffer_size r.ptr ≡ true
Holds-empty r h = elim (Bool-cases (leb r.buffer_size r.ptr)) [
  | inl empty ↦ empty
  | inr more ↦
      let (c, e, step) = window-step r.buffer r.buffer_size r.ptr (ground arith) h.fits in
      cc (ap (λ (w : Text). w ++ content r.inner) (sym step) ∙ h.unread)
]

after_block-next :
    (r : Reader) (b : ℕ) (left : Text)
    → Holds r (b ∷ left)
    → (r.buffer_size ≤ r.ptr → b ∷ left ≡ [])
    → (r' : Reader) × (after_block (ok tt, r) ≡ (ok (some b), r')) × Holds r' left
unfolding after_block
after_block-next r b left h last = elim (Bool-cases (leb r.buffer_size r.ptr)) [
  | inl empty ↦ cc (last (ground arith))
  | inr more ↦ let (e, held) = pick-Holds r b left h (ground arith) in (moved r, rw more e, held)
]

-- At the end of the content there is no byte.
pub read_byte-end :
    (r : Reader) → Holds r [] → (r' : Reader) × (read_byte r ≡ (ok none, r')) × Holds r' []
unfolding read_byte
read_byte-end r h =
    let (q, e, held, last) = read_block-Holds r [] h (ground (arith, Holds-empty r h)) in
    (q, rw (Holds-empty r h, e) (rw (Holds-empty q held) refl), held)

-- Before it, the next byte comes.
pub read_byte-next :
    (r : Reader) (b : ℕ) (left : Text)
    → Holds r (b ∷ left)
    → (r' : Reader) × (read_byte r ≡ (ok (some b), r')) × Holds r' left
unfolding read_byte
read_byte-next r b left h = elim (Bool-cases (leb r.buffer_size r.ptr)) [
  | inl empty ↦
      let (q, e, held, last) = read_block-Holds r (b ∷ left) h (ground arith) in
      let (r', next, holds) = after_block-next q b left held last in (r', rw (empty, e) next, holds)
  | inr more ↦ let (e, held) = pick-Holds r b left h (ground arith) in (moved r, rw more e, held)
]
