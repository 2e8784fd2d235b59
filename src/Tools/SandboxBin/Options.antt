-- ===== src/Tools/SandboxBin/Options.antt =====
-- What the configuration of sandbox-bin says, as against the command line.
use wave_judge.Prelude.{
  ℕ, ◌*◌, ◌^◌, ◌==◌, Option, none, some, List, [], ◌∷◌, map, Text, codes, Result, ok, err, panic,
  and_then, if◌then◌else◌, ◌≡◌, refl, sym, ap, ◌∙◌, subst, arith, inl, inr, Option-cases,
  and_then-ok, map_err-ok,
}
use wave_judge.Sandbox.Memory.{mega_bytes}
use wave_judge.Sandbox.Builder.{SystemCall, from_name}
use wave_judge.Sandbox.Launch.{env_text}
use wave_judge.Tools.SandboxBin.{
  CliError, sandbox, Matches, ApplicationConfig, unsigned_from_str, or_message, optional, number,
  millis, mega, split_at_equals, get_envs, get_syscalls, or_empty, get_options, with_program,
  get_app_config,
}

-- The text with a second equal sign behind the first one.
unfoldable pub doubled : Text → Text
doubled [] = []
doubled (c ∷ cs) = if c == b'=' then c ∷ c ∷ cs else c ∷ doubled cs

split-doubled :
    (env name value : Text)
    → split_at_equals env ≡ some (name, value)
    → env_text (name, value) ≡ doubled env
unfolding split_at_equals doubled
split-doubled [] name value h = cc
split-doubled (c ∷ cs) name value h = elim (Option-cases (split_at_equals cs)) [
  | inl e ↦ ground arith
  | inr (pair, e) ↦ ground (arith, split-doubled cs pair.0 pair.1 e)
]

or_message-ok :
    {A : Type 0} (text : Text) (o : Option A) {a : A} → or_message text o ≡ ok a → o ≡ some a
unfolding or_message
or_message-ok text none h = cc
or_message-ok text (some a) h = cc

pub ok_injective : {E A : Type 0} {a b : A} → ◌≡◌ {A = Result E A} (ok a) (ok b) → a ≡ b
ok_injective h = cc

cons_eq : {x y : Text} {xs ys : List Text} → x ≡ y → xs ≡ ys → x ∷ xs ≡ y ∷ ys
cons_eq p q = cc

get_envs-doubled :
    (envs : List Text) (pairs : List (Text × Text))
    → get_envs envs ≡ ok pairs
    → map env_text pairs ≡ map doubled envs
unfolding get_envs
get_envs-doubled [] pairs h = ground arith
get_envs-doubled (env ∷ envs) pairs h =
    let (pair, split_, h₁) = and_then-ok _ _ h in
    let (rest, got, h₂) = and_then-ok _ _ h₁ in
    subst (λ ps. map env_text ps ≡ doubled env ∷ map doubled envs) (ok_injective h₂)
      (cons_eq (split-doubled env pair.0 pair.1 (or_message-ok _ _ split_))
        (get_envs-doubled envs rest got))

-- An argument that is a number is read as that number, scaled by its unit.
abbrev pub Reads : {A : Type 0} → ℕ → (ℕ → A) → Option Text → Option A → Type 0
Reads bound unit none a = a ≡ none
Reads bound unit (some text) a =
    (n : ℕ) × (unsigned_from_str bound text ≡ some n) × (a ≡ some (unit n))

number-Reads :
    {A : Type 0} (what : Text) (bound : ℕ) (unit : ℕ → A) (f : Text → Result CliError A)
    (arg : Option Text) (a : Option A)
    → ((text : Text) → f text ≡ and_then (number what bound text) (λ n. ok (unit n)))
    → optional f arg ≡ ok a
    → Reads bound unit arg a
unfolding optional number
number-Reads what bound unit f none a e h = ground arith
number-Reads what bound unit f (some text) a e h =
    let (x, made, h₁) = and_then-ok _ _ h in
    let (n, known, h₂) = and_then-ok (number what bound text) _ (sym (e text) ∙ made) in
    (n, or_message-ok _ _ known, sym (ok_injective h₁) ∙ ap some (sym (ok_injective h₂)))

abbrev pub names : List SystemCall → List Text
names [] = []
names (s ∷ ss) = s.name ∷ names ss

from_name-name :
    (resolve : Text → Option ℕ) (text : Text) (s : SystemCall)
    → from_name resolve text ≡ ok s
    → s.name ≡ text
unfolding from_name
from_name-name resolve text s h = ground arith

millis_lem :
    (what text : Text)
    → millis what text ≡ and_then (number what (2 ^ 64) text) (λ n. ok (n * 1000000))
unfolding millis
millis_lem what text = refl

mega_lem :
    (text : Text)
    → mega text
      ≡ and_then
          (number (codes "invalid memory limit value: ") (2 ^ 64) text)
          (λ n. ok (mega_bytes n))
unfolding mega
mega_lem text = refl

get_syscalls-names :
    (resolve : Text → Option ℕ) (texts : List Text) (syscalls : List SystemCall)
    → get_syscalls resolve texts ≡ ok syscalls
    → names syscalls ≡ texts
unfolding get_syscalls
get_syscalls-names resolve [] syscalls h = ground arith
get_syscalls-names resolve (text ∷ texts) syscalls h =
    let (s, made, h₁) = and_then-ok _ _ h in
    let (rest, got, h₂) = and_then-ok _ _ h₁ in
    subst (λ ss. names ss ≡ text ∷ texts) (ok_injective h₂)
      (cons_eq (from_name-name resolve text s (map_err-ok sandbox _ made))
        (get_syscalls-names resolve texts rest got))

-- What the options of the command line come to.
pub record Configured (m : Matches) (config : ApplicationConfig) : Type 0 where
  pub program : config.file ∷ config.args ≡ m.program
  pub envs : map env_text config.envs ≡ map doubled (or_empty m.envs)
  pub cpu_time_limit : Reads (2 ^ 64) (λ n. n * 1000000) m.cpu_time_limit config.cpu_time_limit
  pub real_time_limit : Reads (2 ^ 64) (λ n. n * 1000000) m.real_time_limit config.real_time_limit
  pub memory_limit : Reads (2 ^ 64) mega_bytes m.memory_limit config.memory_limit
  pub uid : Reads (2 ^ 32) (λ n. n) m.uid config.uid
  pub syscalls : names config.syscall_whitelist ≡ or_empty m.syscall_whitelist
  pub working_dir : config.working_dir ≡ m.working_dir
  pub root_dir : config.root_dir ≡ m.root_dir
  pub input_file : config.input_file ≡ m.input_file
  pub output_file : config.output_file ≡ m.output_file
  pub error_file : config.error_file ≡ m.error_file

and_then-pure : {E A : Type 0} (m : Result E A) → m ≡ and_then m (λ a. ok a)
unfolding and_then
and_then-pure (ok a) = refl
and_then-pure (err e) = refl
and_then-pure panic = refl

get_options-Configured :
    (resolve : Text → Option ℕ) (m : Matches) (file : Text) (args : List Text)
    (config : ApplicationConfig)
    → file ∷ args ≡ m.program
    → get_options resolve m file args ≡ ok config
    → Configured m config
unfolding get_options
get_options-Configured resolve m file args config p h =
    let (envs, e, h₁) = and_then-ok _ _ h in
    let (cpu, c, h₂) = and_then-ok _ _ h₁ in
    let (real, r, h₃) = and_then-ok _ _ h₂ in
    let (memory, g, h₄) = and_then-ok _ _ h₃ in
    let (uid, u, h₅) = and_then-ok _ _ h₄ in
    let (syscalls, y, h₆) = and_then-ok _ _ h₅ in
    subst (Configured m) (ok_injective h₆) (record {
      program = p;
      envs = get_envs-doubled (or_empty m.envs) envs e;
      cpu_time_limit =
          number-Reads (codes "invalid cpu limit value: ") (2 ^ 64) _ _ m.cpu_time_limit cpu
            (millis_lem (codes "invalid cpu limit value: ")) c;
      real_time_limit =
          number-Reads (codes "invalid real time limit value: ") (2 ^ 64) _ _ m.real_time_limit real
            (millis_lem (codes "invalid real time limit value: ")) r;
      memory_limit =
          number-Reads (codes "invalid memory limit value: ") (2 ^ 64) _ _ m.memory_limit memory
            mega_lem g;
      uid =
          number-Reads (codes "invalid user ID value: ") (2 ^ 32) _ _ m.uid uid
            (λ t. and_then-pure _) u;
      syscalls = get_syscalls-names resolve (or_empty m.syscall_whitelist) syscalls y;
      working_dir = refl;
      root_dir = refl;
      input_file = refl;
      output_file = refl;
      error_file = refl;
    })

get_app_config-program :
    (resolve : Text → Option ℕ) (m : Matches) (program : List Text) (config : ApplicationConfig)
    → program ≡ m.program
    → with_program resolve m program ≡ ok config
    → Configured m config
unfolding with_program
get_app_config-program resolve m [] config p h = cc
get_app_config-program resolve m (file ∷ args) config p h =
    get_options-Configured resolve m file args config p h

pub get_app_config-Configured :
    (resolve : Text → Option ℕ) (m : Matches) (config : ApplicationConfig)
    → get_app_config resolve m ≡ ok config
    → Configured m config
unfolding get_app_config
get_app_config-Configured resolve m config h =
    get_app_config-program resolve m m.program config refl h
