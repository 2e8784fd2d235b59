-- ===== src/Tools/JudgeBin/Languages.antt =====
-- The language identifiers of the command line: three parts with a colon between them.
use wave_judge.Prelude.{
  ℕ, ◌==◌, ==_iff, Bool, true, false, contains, List, [], ◌∷◌, ◌++◌, Text, All, Result, ok, err,
  panic, ◌≡◌, ◌≢◌, ◌↔◌, refl, sym, ap, ◌∙◌, subst, arith,
}
use wave_judge.Sandbox.Launch.{split, split_at}
use wave_judge.Judge.Languages.{LanguageIdentifier}
use wave_judge.Tools.JudgeBin.{BinError, identifier_of, parse_lang}

module _ (sep : ℕ) where
  abbrev IsPart : Text → Type 0
  IsPart p = contains sep p ≡ false

  -- The parts with the separator between them.
  abbrev joined : List Text → Text
  joined [] = []
  joined (p ∷ []) = p
  joined (p ∷ q ∷ ps) = p ++ sep ∷ joined (q ∷ ps)

  joined-split_at :
      (x : ℕ) (b : Bool) (ps : List Text)
      → ps ≢ []
      → (b ≡ true → x ≡ sep)
      → joined (split_at b x ps) ≡ x ∷ joined ps
  unfolding split_at
  joined-split_at x b [] h e = absurd (h refl)
  joined-split_at x true (p ∷ ps) h e = ap (λ y. y ∷ joined (p ∷ ps)) (sym (e refl))
  joined-split_at x false (p ∷ []) h e = refl
  joined-split_at x false (p ∷ q ∷ ps) h e = refl

  split_at-ne-nil : (b : Bool) (x : ℕ) (ps : List Text) → split_at b x ps ≢ []
  unfolding split_at
  split_at-ne-nil true x ps h = cc
  split_at-ne-nil false x [] h = cc
  split_at-ne-nil false x (p ∷ ps) h = cc

  split-ne-nil : (t : Text) → split sep t ≢ []
  unfolding split
  split-ne-nil [] h = cc
  split-ne-nil (x ∷ t) h = split_at-ne-nil (x == sep) x (split sep t) h

  joined-split : (t : Text) → joined (split sep t) ≡ t
  unfolding split
  joined-split [] = refl
  joined-split (x ∷ t) =
      joined-split_at x (x == sep) (split sep t) (split-ne-nil t) (λ e. (==_iff x sep).0 e)
      ∙ ap (λ (l : Text). x ∷ l) (joined-split t)

  split_at-IsPart :
      (x : ℕ) (b : Bool) (ps : List Text)
      → (b ≡ x == sep)
      → All IsPart ps
      → All IsPart (split_at b x ps)
  unfolding split_at contains
  split_at-IsPart x true ps e a = (refl, a)
  split_at-IsPart x false [] e a = (ground arith, tt)
  split_at-IsPart x false (p ∷ ps) e (a, as_) = (ground arith, as_)

  split-IsPart : (t : Text) → All IsPart (split sep t)
  unfolding split contains
  split-IsPart [] = (refl, tt)
  split-IsPart (x ∷ t) = split_at-IsPart x (x == sep) (split sep t) refl (split-IsPart t)

  split_at-append :
      (x : ℕ) (p : Text) (ps : List Text)
      → contains sep (x ∷ p) ≡ false
      → split_at (x == sep) x (p ∷ ps) ≡ (x ∷ p) ∷ ps
  unfolding split_at contains
  split_at-append x p ps h = ground arith

  split-append : (p t : Text) → IsPart p → split sep (p ++ sep ∷ t) ≡ p ∷ split sep t
  unfolding split contains
  split-append [] t h = ground arith
  split-append (x ∷ p) t h =
      rw (split-append p t (ground arith)) (split_at-append x p (split sep t) h)

  split-part : (p : Text) → IsPart p → split sep p ≡ p ∷ []
  unfolding split contains
  split-part [] h = refl
  split-part (x ∷ p) h = rw (split-part p (ground arith)) (split_at-append x p [] h)

-- `language:dialect:version`, with no colon in a part.
pub record Writes (id : LanguageIdentifier) (lang : Text) : Type 0 where
  pub written : lang ≡ id.language ++ b':' ∷ (id.branch.dialect ++ b':' ∷ id.branch.version)
  pub language : IsPart b':' id.language
  pub dialect : IsPart b':' id.branch.dialect
  pub version : IsPart b':' id.branch.version

identifier_of-Writes :
    (parts : List Text) (id : LanguageIdentifier)
    → All (IsPart b':') parts
    → identifier_of parts ≡ ok id
    → Writes id (joined b':' parts)
unfolding identifier_of
identifier_of-Writes (l ∷ d ∷ v ∷ []) id (a, (b, (c, _))) h =
    subst
      (λ (x : Result BinError LanguageIdentifier). elim x [
        | ok i ↦ Writes i (joined b':' (l ∷ d ∷ v ∷ []))
        | err e ↦ ⊥
        | panic ↦ ⊥
      ])
      h (record { written = refl; language = a; dialect = b; version = c })
identifier_of-Writes [] id a h = cc
identifier_of-Writes (l ∷ []) id a h = cc
identifier_of-Writes (l ∷ d ∷ []) id a h = cc
identifier_of-Writes (l ∷ d ∷ v ∷ x ∷ ps) id a h = cc

-- The language argument is understood exactly when it is a language, a dialect and a version with
-- colons between them and none inside, and then it is the identifier with these three parts.
pub parse_lang_iff :
    (lang : Text) (id : LanguageIdentifier) → (parse_lang lang ≡ ok id) ↔ Writes id lang
unfolding parse_lang identifier_of
parse_lang_iff lang id = (
  λ h.
      subst (Writes id) (joined-split b':' lang)
        (identifier_of-Writes (split b':' lang) id (split-IsPart b':' lang) h),
  λ w.
      rw
        (
          w.written,
          split-append b':' id.language (id.branch.dialect ++ b':' ∷ id.branch.version) w.language,
          split-append b':' id.branch.dialect id.branch.version w.dialect,
          split-part b':' id.branch.version w.version,
        )
        refl,
)
