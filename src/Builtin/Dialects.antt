-- ===== src/Builtin/Dialects.antt =====
-- The dialects of C and C++, for each of which cxx.rs knows a compiler.
use wave_judge.Prelude.{
  true, some, List, [], ◌∷◌, All, Text, codes, text_eq, text_eq_sound, ◌≡◌, ◌⊎◌, inl, inr, refl,
  arith,
}
use wave_judge.Judge.Languages.{LanguageBranch, has_branch, branch_eq}
use wave_judge.Builtin.Cxx.{c_branches, cpp_branches, compiler_of}

-- The dialects of C and C++.
abbrev pub IsDialect : Text → Type 0
IsDialect d = (d ≡ codes "clang") ⊎ (d ≡ codes "gnu")

pub has_branch-IsDialect :
    (b : LanguageBranch) (bs : List LanguageBranch)
    → All (λ x. IsDialect x.dialect) bs
    → has_branch b bs ≡ true
    → IsDialect b.dialect
unfolding has_branch branch_eq
has_branch-IsDialect b [] a h = absurd (ground arith)
has_branch-IsDialect b (x ∷ bs) a h =
    ground (arith, text_eq_sound x.dialect b.dialect, has_branch-IsDialect b bs a.1)

pub compiler_of-some :
    (l d : Text)
    → (l ≡ codes "c") ⊎ (l ≡ codes "cpp")
    → IsDialect d
    → (compiler : Text) × (compiler_of l d ≡ some compiler)
unfolding compiler_of text_eq
compiler_of-some l d (inl e) (inl f) = rw (e, f) (_, refl)
compiler_of-some l d (inl e) (inr f) = rw (e, f) (_, refl)
compiler_of-some l d (inr e) (inl f) = rw (e, f) (_, refl)
compiler_of-some l d (inr e) (inr f) = rw (e, f) (_, refl)

pub c-dialects : All (λ x. IsDialect x.dialect) c_branches
c-dialects = (
  inl refl,
  (
    inl refl,
    (
      inl refl,
      (inl refl, (inl refl, (inr refl, (inr refl, (inr refl, (inr refl, (inr refl, tt))))))),
    ),
  ),
)

pub cpp-dialects : All (λ x. IsDialect x.dialect) cpp_branches
cpp-dialects = (
  inl refl,
  (
    inl refl,
    (
      inl refl,
      (inl refl, (inl refl, (inr refl, (inr refl, (inr refl, (inr refl, (inr refl, tt))))))),
    ),
  ),
)
