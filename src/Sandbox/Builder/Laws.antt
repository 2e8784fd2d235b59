-- ===== src/Sandbox/Builder/Laws.antt =====
-- Lemmas on the fields of a `ProcessBuilder` and on its memento.
use wave_judge.Prelude.{
  ℕ, ◌≡◌, refl, subst, true, ◌||◌, List, [], ◌∷◌, ◌++◌, Text, All, All-append, contains, ok, err,
  panic, arith, Bool-cases, inl, inr,
}
use wave_judge.Sandbox.Errors.{Fallible}
use wave_judge.Sandbox.Builder.{
  Builder, Memento, is_valid_c_string, new, add_arg, add_env, inherit_envs, expect, memento,
  restore, no_redirection,
}

abbrev pub IsCString : Text → Type 0
IsCString s = is_valid_c_string s ≡ true

abbrev pub IsCPair : Text × Text → Type 0
IsCPair (name, value) = IsCString name × IsCString value

-- Every argument and every variable of the environment is a C string.
pub record IsValid (b : Builder) : Type 0 where
  pub args : All IsCString b.args
  pub envs : All IsCPair b.envs

pub new-IsValid : (file : Text) → IsCString file → IsValid (new file)
unfolding new
new-IsValid file h = record { args = (h, tt); envs = tt }

-- An argument that `add_arg` accepts for a valid builder is a C string and becomes the last
-- argument of a builder that is valid again.
pub add_arg-IsValid :
    (arg : Text) (b b' : Builder)
    → IsValid b
    → add_arg arg b ≡ ok b'
    → IsValid b' × IsCString arg × (b'.args ≡ b.args ++ arg ∷ [])
unfolding add_arg
add_arg-IsValid arg b b' v h = elim (Bool-cases (is_valid_c_string arg)) [
  | inl good ↦
      subst (λ x. IsValid x × IsCString arg × (x.args ≡ b.args ++ arg ∷ [])) (added good)
        (
          record { args = All-append IsCString b.args (arg ∷ []) v.args (good, tt); envs = v.envs },
          good,
          refl,
        )
  | inr bad ↦ ground arith
]
  where
    added : is_valid_c_string arg ≡ true → record b { args = b.args ++ arg ∷ [] } ≡ b'
    added good = ground arith

pub add_env-IsValid :
    (name value : Text) (b b' : Builder) → IsValid b → add_env name value b ≡ ok b' → IsValid b'
unfolding add_env
add_env-IsValid name value b b' v h = elim (Bool-cases (is_valid_c_string name)) [
  | inl good ↦ elim (Bool-cases (is_valid_c_string value)) [
    | inl fine ↦ subst IsValid (added good fine) (record {
      args = v.args;
      envs = All-append IsCPair b.envs ((name, value) ∷ []) v.envs ((good, fine), tt);
    })
    | inr bad ↦ ground arith
  ]
  | inr bad ↦ ground arith
]
  where
    added :
        is_valid_c_string name ≡ true
        → is_valid_c_string value ≡ true
        → record b { envs = b.envs ++ (name, value) ∷ [] } ≡ b'
    added good fine = ground arith

expect-IsValid :
    (r : Fallible Builder) (b : Builder)
    → ((b' : Builder) → r ≡ ok b' → IsValid b')
    → expect r ≡ ok b
    → IsValid b
expect-IsValid (ok x) b valid h = subst IsValid (ground arith) (valid x refl)
expect-IsValid (err e) b valid h = cc
expect-IsValid panic b valid h = cc

-- When a valid builder inherits an environment without a panic, the result is valid: its arguments
-- and variables are C strings.
pub inherit_envs-IsValid :
    (vars : List (Text × Text)) (b b' : Builder)
    → IsValid b
    → inherit_envs vars b ≡ ok b'
    → IsValid b'
unfolding inherit_envs
inherit_envs-IsValid [] b b' v h = subst IsValid (ground arith) v
inherit_envs-IsValid ((name, value) ∷ vars) b b' v h =
    go (expect (add_env name value b))
      (λ x e. expect-IsValid (add_env name value b) x (λ y. add_env-IsValid name value b y v) e)
      (λ x q. inherit_envs-IsValid vars x b' q) h
  where
    go :
        (r : Fallible Builder)
        → ((x : Builder) → r ≡ ok x → IsValid x)
        → ((x : Builder) → IsValid x → inherit_envs vars x ≡ ok b' → IsValid b')
        → elim r as (λ _. Fallible Builder) [
          | ok x ↦ inherit_envs vars x
          | err e ↦ panic
          | panic ↦ panic
        ]
          ≡ ok b'
        → IsValid b'
    go (ok x) valid rest e = rest x (valid x refl) e
    go (err x) valid rest e = cc
    go panic valid rest e = cc

-- A memento restores to its builder without the redirections, and saving what it restores to
-- gives the memento again.
pub restore-memento :
    (b : Builder) (m : Memento)
    → (restore (memento b) ≡ record b { redirections = no_redirection }) × (memento (restore m) ≡ m)
unfolding restore memento
restore-memento b m = (refl, refl)

contains-append : (x : ℕ) (s t : Text) → contains x (s ++ t) ≡ (contains x s || contains x t)
unfolding contains
contains-append x [] t = refl
contains-append x (y ∷ s) t = ground (arith, contains-append x s t)

pub IsCString-append : (s t : Text) → IsCString s → IsCString t → IsCString (s ++ t)
unfolding is_valid_c_string
IsCString-append s t hs ht = ground (arith, contains-append 0 s t)

pub IsCString-equals : (s : Text) → IsCString s → IsCString (b'=' ∷ s)
unfolding is_valid_c_string contains
IsCString-equals s h = ground arith
