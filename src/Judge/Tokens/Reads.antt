-- ===== src/Judge/Tokens/Reads.antt =====
-- `read_token` gives the tokens of the content one by one.
use mathlib.Core.List.{append_assoc}
use wave_judge.Prelude.{
  ℕ, zero, suc, ◌+◌, ◌<◌, ◌≤◌, ◌≡◌, refl, sym, ◌∙◌, subst, true, false, none, some, List, [], ◌∷◌,
  ◌++◌, Text, length, ok, err, arith, Bool-cases, inl, inr, if◌then◌else◌,
}
use wave_judge.Judge.Tokens.{
  Reader, is_separator, read_byte, skip, collect, read_token, invalid_data,
}
use wave_judge.Judge.Tokens.Utf8.{is_utf8}
use wave_judge.Judge.Tokens.Bytes.{Holds, read_byte-end, read_byte-next}
use wave_judge.Judge.Tokens.Words.{
  tokens, word, after, skipped, skipped-separator, skipped-stop, word-separator, word-more,
  after-separator, after-more, tokens-skipped, tokens-word, length-after, length-skipped,
}

module _ (f byte : ℕ) (r : Reader) where
  skip-stop : is_separator byte ≡ false → skip (suc f) byte r ≡ some (ok (some byte), r)
  unfolding skip
  skip-stop e = rw (e, skip) refl

  skip-end :
      (r' : Reader)
      → is_separator byte ≡ true
      → read_byte r ≡ (ok none, r')
      → skip (suc f) byte r ≡ some (ok none, r')
  unfolding skip
  skip-end r' e read = rw (e, skip) (rw read refl)

  skip-next :
      (b : ℕ) (r' : Reader)
      → is_separator byte ≡ true
      → read_byte r ≡ (ok (some b), r')
      → skip (suc f) byte r ≡ skip f b r'
  unfolding skip
  skip-next b r' e read = rw (e, skip) (rw read refl)

  collect-stop : (w : Text) → is_separator byte ≡ true → collect (suc f) w byte r ≡ some (ok w, r)
  unfolding collect
  collect-stop w e = rw (e, collect) refl

  collect-end :
      (w : Text) (r' : Reader)
      → is_separator byte ≡ false
      → read_byte r ≡ (ok none, r')
      → collect (suc f) w byte r ≡ some (ok (w ++ byte ∷ []), r')
  unfolding collect
  collect-end w r' e read = rw (e, collect) (rw read refl)

  collect-next :
      (w : Text) (b : ℕ) (r' : Reader)
      → is_separator byte ≡ false
      → read_byte r ≡ (ok (some b), r')
      → collect (suc f) w byte r ≡ collect f (w ++ byte ∷ []) b r'
  unfolding collect
  collect-next w b r' e read = rw (e, collect) (rw read refl)

-- The first loop stops at the first byte that is no separator.
abbrev SkipsTo : ℕ → ℕ → Reader → Text → Type 0
SkipsTo f byte r [] = (r' : Reader) × (skip f byte r ≡ some (ok none, r')) × Holds r' []
SkipsTo f byte r (b ∷ left) =
    (r' : Reader) × (skip f byte r ≡ some (ok (some b), r'))
    × Holds r' left
    × (is_separator b ≡ false)

SkipsTo-later :
    (f byte b : ℕ) (r r' : Reader) (left : Text)
    → skip (suc f) byte r ≡ skip f b r'
    → SkipsTo f b r' left
    → SkipsTo (suc f) byte r left
SkipsTo-later f byte b r r' [] e (q, s, h) = (q, e ∙ s, h)
SkipsTo-later f byte b r r' (c ∷ left) e (q, s, h, n) = (q, e ∙ s, h, n)

skip-SkipsTo :
    (f byte : ℕ) (r : Reader) (left : Text)
    → is_separator byte ≡ true
    → Holds r left
    → length left < f
    → SkipsTo f byte r (skipped left)
unfolding skipped
skip-SkipsTo zero byte r left e h lt = absurd (omega arith)
skip-SkipsTo (suc f) byte r [] e h lt =
    let (r', read, held) = read_byte-end r h in (r', skip-end f byte r r' e read, held)
skip-SkipsTo (suc f) byte r (b ∷ left) e h lt =
    let (r', read, held) = read_byte-next r b left h in
    SkipsTo-later f byte b r r' (skipped (b ∷ left)) (skip-next f byte r b r' e read)
      (elim (Bool-cases (is_separator b)) [
        | inl sep ↦
            subst (SkipsTo f b r') (sym (skipped-separator b left sep))
              (skip-SkipsTo f b r' left sep held (omega arith))
        | inr stop ↦
            subst (SkipsTo f b r') (sym (skipped-stop b left stop))
              (first f (omega arith) r' b left stop held)
      ])
  where
    first :
        (f : ℕ)
        → 0 < f
        → (r : Reader) (b : ℕ) (left : Text) → is_separator b ≡ false
        → Holds r left
        → SkipsTo f b r (b ∷ left)
    first zero pos r b left stop held = absurd (omega arith)
    first (suc f) pos r b left stop held = (r, skip-stop f b r stop, held, stop)

-- The second loop ends with the token `out`, and `left` is still to be read.
abbrev Collects : ℕ → Text → ℕ → Reader → Text → Text → Type 0
Collects f w byte r out left =
    (r' : Reader) × (collect f w byte r ≡ some (ok out, r')) × Holds r' left

collect-separator :
    (f byte : ℕ) (w : Text) (r : Reader) (left : Text)
    → is_separator byte ≡ true
    → Holds r left
    → 0 < f
    → Collects f w byte r w left
collect-separator zero byte w r left e h pos = absurd (omega arith)
collect-separator (suc f) byte w r left e h pos = (r, collect-stop f byte r w e, h)

Collects-later :
    (f byte b : ℕ) (w out : Text) (r r' : Reader) (left : Text)
    → collect (suc f) w byte r ≡ collect f (w ++ byte ∷ []) b r'
    → Collects f (w ++ byte ∷ []) b r' out left
    → Collects (suc f) w byte r out left
Collects-later f byte b w out r r' left e (q, s, h) = (q, e ∙ s, h)

collect-word :
    (f byte : ℕ) (w : Text) (r : Reader) (left : Text)
    → is_separator byte ≡ false
    → Holds r left
    → length left + 1 < f
    → Collects f w byte r (w ++ byte ∷ word left) (after left)
collect-word zero byte w r left e h lt = absurd (omega arith)
collect-word (suc f) byte w r [] e h lt =
    let (r', read, held) = read_byte-end r h in
    (r', unfold word in collect-end f byte r w r' e read, unfold after in held)
collect-word (suc f) byte w r (b ∷ left) e h lt =
    let (r', read, held) = read_byte-next r b left h in
    Collects-later f byte b w _ r r' _ (collect-next f byte r w b r' e read)
      (elim (Bool-cases (is_separator b)) [
        | inl sep ↦
            rw (word-separator b left sep, after-separator b left sep)
              (collect-separator f b (w ++ byte ∷ []) r' left sep held (omega arith))
        | inr more ↦
            rw
              (
                word-more b left more,
                after-more b left more,
                ← append_assoc w (byte ∷ []) (b ∷ word left),
              )
              (collect-word f b (w ++ byte ∷ []) r' left more held (omega arith))
      ])

-- One call of `read_token` on a reader that holds `left`, whose tokens are listed.
abbrev pub NextToken : ℕ → Reader → Text → List Text → Type 0
NextToken f r left [] = (r' : Reader) × (read_token f r ≡ some (ok none, r')) × Holds r' []
NextToken f r left (t ∷ ts) =
    (r' : Reader) × (rest : Text) × (read_token f r
      ≡ some (if is_utf8 t then ok (some t) else err invalid_data, r'))
    × Holds r' rest
    × (tokens rest ≡ ts)
    × (length rest < length left)

token-NextToken :
    (f : ℕ) (r : Reader) (left first : Text)
    → SkipsTo f 32 r first
    → length first ≤ length left
    → length left < f
    → NextToken f r left (tokens first)
unfolding read_token
token-NextToken f r left [] (q, s, h) le lt = unfold tokens in (q, rw s refl, h)
token-NextToken f r left (b ∷ first) (q, s, h, stop) le lt =
    let (r', c, held) = collect-word f b [] q first stop h (omega arith) in
    subst (NextToken f r left) (sym (tokens-word b first stop))
      (r', after first, rw s (rw c refl), held, refl, omega (arith, length-after first))

-- On a reader that will still give the bytes `left`, with more fuel than there are of them,
-- `read_token` gives the first maximal run of bytes that are no separators if it is UTF-8 and an
-- error if it is not, and leaves the bytes of the other tokens; it gives nothing when there is no
-- token.
pub read_token-NextToken :
    (f : ℕ) (r : Reader) (left : Text)
    → Holds r left
    → length left < f
    → NextToken f r left (tokens left)
unfolding is_separator
read_token-NextToken f r left h lt = subst (NextToken f r left) (tokens-skipped left) (
    token-NextToken f r left (skipped left) (skip-SkipsTo f 32 r left refl h lt)
      (length-skipped left) lt)
