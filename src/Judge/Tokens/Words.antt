-- ===== src/Judge/Tokens/Words.antt =====
-- The tokens of a text, as a reader of the file would name them, and one token at a time.
use wave_judge.Prelude.{
  ℕ, ◌≤◌, ◌≡◌, refl, Bool, true, false, List, [], ◌∷◌, Text, length, arith, if◌then◌else◌,
}
use wave_judge.Judge.Tokens.{is_separator}

-- Does a text begin inside a token?
abbrev pub begins : Text → Bool
begins [] = false
begins (b ∷ bs) = if is_separator b then false else true

abbrev pub attach : ℕ → Bool → List Text → List Text
attach b true (w ∷ ws) = (b ∷ w) ∷ ws
attach b true [] = (b ∷ []) ∷ []
attach b false ws = (b ∷ []) ∷ ws

-- The maximal runs of bytes without a separator, in order.
unfoldable pub tokens : Text → List Text
unfolding is_separator
tokens [] = []
tokens (b ∷ bs) = if is_separator b then tokens bs else attach b (begins bs) (tokens bs)

-- The rest of a token, and what follows its separator.
unfoldable pub word : Text → Text
unfolding is_separator
word [] = []
word (b ∷ bs) = if is_separator b then [] else b ∷ word bs

unfoldable pub after : Text → Text
unfolding is_separator
after [] = []
after (b ∷ bs) = if is_separator b then bs else after bs

unfoldable pub skipped : Text → Text
unfolding is_separator
skipped [] = []
skipped (b ∷ bs) = if is_separator b then skipped bs else b ∷ bs

module _ (b : ℕ) (bs : Text) where
  pub skipped-separator : is_separator b ≡ true → skipped (b ∷ bs) ≡ skipped bs
  unfolding skipped
  skipped-separator e = ground arith

  pub skipped-stop : is_separator b ≡ false → skipped (b ∷ bs) ≡ b ∷ bs
  unfolding skipped
  skipped-stop e = ground arith

  pub word-separator : is_separator b ≡ true → word (b ∷ bs) ≡ []
  unfolding word
  word-separator e = ground arith

  pub word-more : is_separator b ≡ false → word (b ∷ bs) ≡ b ∷ word bs
  unfolding word
  word-more e = ground arith

  pub after-separator : is_separator b ≡ true → after (b ∷ bs) ≡ bs
  unfolding after
  after-separator e = ground arith

  pub after-more : is_separator b ≡ false → after (b ∷ bs) ≡ after bs
  unfolding after
  after-more e = ground arith

pub length-after : (bs : Text) → length (after bs) ≤ length bs
unfolding after
length-after [] = omega arith
length-after (b ∷ bs) = ground (arith, length-after bs)

pub length-skipped : (bs : Text) → length (skipped bs) ≤ length bs
unfolding skipped
length-skipped [] = omega arith
length-skipped (b ∷ bs) = ground (arith, length-skipped bs)

pub tokens-skipped : (bs : Text) → tokens (skipped bs) ≡ tokens bs
unfolding tokens skipped
tokens-skipped [] = refl
tokens-skipped (b ∷ bs) = ground (arith, tokens-skipped bs)

-- A text that begins inside a token is that token and the tokens after it.
tokens-begins : (bs : Text) → begins bs ≡ true → tokens bs ≡ word bs ∷ tokens (after bs)
unfolding tokens word after is_separator
tokens-begins [] h = cc
tokens-begins (b ∷ []) h = ground arith
tokens-begins (b ∷ c ∷ bs) h = ground (arith, tokens-begins (c ∷ bs))

pub tokens-word :
    (b : ℕ) (bs : Text)
    → is_separator b ≡ false
    → tokens (b ∷ bs) ≡ (b ∷ word bs) ∷ tokens (after bs)
unfolding word after
tokens-word b bs h = ground (arith, tokens-begins (b ∷ bs))
