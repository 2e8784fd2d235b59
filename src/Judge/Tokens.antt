-- ===== src/Judge/Tokens.antt =====
-- judge/src/engine/io.rs: `TokenizedReader`, which cuts a file into tokens through a buffer of 4096
-- bytes. The loops run on fuel; `none` says that the fuel ran out.
pub mod Utf8
pub mod Words
pub mod Window
pub mod Bytes
pub mod Reads
use wave_judge.Prelude.{
  ℕ, zero, suc, ◌+◌, Bool, true, false, ◌||◌, ◌==◌, leb, ltb, Option, none, some, List, [], ◌∷◌,
  ◌++◌, length, take, drop, replicate, get_elem?, Text, Result, ok, err, panic, if◌then◌else◌,
}
use Utf8.{is_utf8}

pub data IoError : Type 0 where
  os_error : (code : ℕ) → IoError
  invalid_data : IoError

-- A device gives its content in blocks, of which any may fail; one that gives no byte is its end.
pub data Block : Type 0 where
  block : Text → Block
  failure : IoError → Block

-- `Read::read` into a buffer of `size` bytes: at most that many come.
unfoldable pub device_read : ℕ → List Block → Result IoError Text × List Block
device_read size [] = (ok [], [])
device_read size (block b ∷ bs) =
    if leb (length b) size then (ok b, bs) else (ok (take size b), block (drop size b) ∷ bs)
device_read size (failure e ∷ bs) = (err e, bs)

pub record Reader : Type 0 where
  pub inner : List Block
  pub buffer : Text
  pub buffer_size : ℕ
  pub ptr : ℕ

abbrev pub max_block : ℕ
max_block = 4096

-- `TokenizedReader::new`.
unfoldable pub new : List Block → Reader
new inner = record { inner = inner; buffer = replicate max_block 0; buffer_size = 0; ptr = 0 }

-- The bytes that were read replace the first ones of the buffer.
abbrev pub overwrite : Text → Text → Text
overwrite bytes buffer = bytes ++ drop (length bytes) buffer

filled : Reader → Result IoError Text × List Block → Result IoError Unit × Reader
filled r (ok bytes, inner) = (
  ok tt,
  record { inner = inner; buffer = overwrite bytes r.buffer; buffer_size = length bytes; ptr = 0 },
)
filled r (err e, inner) = (err e, record r { inner = inner })
filled r (panic, inner) = (panic, record r { inner = inner })

unfoldable pub read_block : Reader → Result IoError Unit × Reader
unfolding device_read filled
read_block r = filled r (device_read (length r.buffer) r.inner)

-- `buffer[ptr]` and the step of `ptr`.
pick : Reader → Option ℕ → Result IoError (Option ℕ) × Reader
pick r none = (panic, r)
pick r (some byte) = (ok (some byte), record r { ptr = r.ptr + 1 })

after_block : Result IoError Unit × Reader → Result IoError (Option ℕ) × Reader
unfolding pick
after_block (ok _, r) =
    if leb r.buffer_size r.ptr then (ok none, r) else pick r (get_elem? r.buffer r.ptr)
after_block (err e, r) = (err e, r)
after_block (panic, r) = (panic, r)

unfoldable pub read_byte : Reader → Result IoError (Option ℕ) × Reader
unfolding read_block after_block pick
read_byte r =
    if leb r.buffer_size r.ptr
    then after_block (read_block r)
    else pick r (get_elem? r.buffer r.ptr)

-- Space, carriage return, line feed and tab.
unfoldable pub is_separator : ℕ → Bool
is_separator b = b == 32 || (b == 13 || (b == 10 || b == 9))

-- A result with the reader as it was left.
abbrev pub Run : Type 0 → Type 0
Run A = Option (Result IoError A × Reader)

-- What follows a byte: more of the loop, or the end of the file.
abbrev pub on_byte :
    {A : Type 0}
    → Result IoError (Option ℕ) × Reader
    → (ℕ → Reader → Run A)
    → (Reader → Run A)
    → Run A
on_byte (ok (some b), r) next end = next b r
on_byte (ok none, r) next end = end r
on_byte (err e, r) next end = some (err e, r)
on_byte (panic, r) next end = some (panic, r)

-- The first loop of `read_token`: the first byte of the token, if there is any.
unfoldable pub skip : ℕ → ℕ → Reader → Run (Option ℕ)
unfolding read_byte is_separator
skip zero byte r = none
skip (suc f) byte r = elim (is_separator byte) [
  | true ↦ on_byte (read_byte r) (skip f) (λ r'. some (ok none, r'))
  | false ↦ some (ok (some byte), r)
]

-- The second loop: the token, and the separator behind it is consumed.
unfoldable pub collect : ℕ → Text → ℕ → Reader → Run Text
unfolding read_byte is_separator
collect zero buffer byte r = none
collect (suc f) buffer byte r = elim (is_separator byte) [
  | true ↦ some (ok buffer, r)
  | false ↦
      on_byte (read_byte r) (collect f (buffer ++ byte ∷ []))
        (λ r'. some (ok (buffer ++ byte ∷ []), r'))
]

-- `String::from_utf8`.
abbrev pub checked : Run Text → Run (Option Text)
checked none = none
checked (some (ok token, r)) = some (if is_utf8 token then ok (some token) else err invalid_data, r)
checked (some (err e, r)) = some (err e, r)
checked (some (panic, r)) = some (panic, r)

abbrev pub token_from : ℕ → Run (Option ℕ) → Run (Option Text)
token_from f none = none
token_from f (some (ok (some byte), r)) = checked (collect f [] byte r)
token_from f (some (ok none, r)) = some (ok none, r)
token_from f (some (err e, r)) = some (err e, r)
token_from f (some (panic, r)) = some (panic, r)

unfoldable pub read_token : ℕ → Reader → Run (Option Text)
unfolding skip collect
read_token f r = token_from f (skip f 32 r)
