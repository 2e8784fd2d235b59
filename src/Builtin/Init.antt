-- ===== src/Builtin/Init.antt =====
-- builtin-languages/src/lib.rs and the init functions of the providers. What the loading of each
-- configuration file comes to is a parameter (`Configs`); an error is its message.
use wave_judge.Prelude.{List, [], ◌∷◌, Text, Result, ok, err, panic}
use wave_judge.Judge.Languages.{LanguageManager, register}
use wave_judge.Builtin.Cxx.{CxxConfig, c_provider, cpp_provider}
use wave_judge.Builtin.Java.{JavaConfig, java_provider}
use wave_judge.Builtin.Python.{PythonConfig, python_provider}
use wave_judge.Builtin.Rust.{RustConfig, rust_provider}

pub record Configs : Type 0 where
  pub cxx : Result Text CxxConfig
  pub java : Result Text JavaConfig
  pub python : Result Text PythonConfig
  pub rust : Result Text RustConfig

-- an init function: the register after it, and its result
abbrev pub Initializer : Type 0
Initializer = LanguageManager → LanguageManager × Result Text Unit

-- `from_file(..)?` and what follows it
unfoldable pub with_config :
    {C : Type 0} → Result Text C → (C → LanguageManager → LanguageManager) → Initializer
with_config (ok c) add m = (add c m, ok tt)
with_config (err e) add m = (m, err e)
with_config panic add m = (m, panic)

unfoldable pub init_cxx_providers : Result Text CxxConfig → Initializer
unfolding with_config register
init_cxx_providers config =
    with_config config (λ c m. register (cpp_provider c) (register (c_provider c) m))

unfoldable pub init_java_providers : Result Text JavaConfig → Initializer
unfolding with_config register
init_java_providers config = with_config config (λ c. register (java_provider c))

unfoldable pub init_py_providers : Result Text PythonConfig → Initializer
unfolding with_config register
init_py_providers config = with_config config (λ c. register (python_provider c))

unfoldable pub init_rust_providers : Result Text RustConfig → Initializer
unfolding with_config register
init_rust_providers config = with_config config (λ c. register (rust_provider c))

-- the loop over the initializers, which ends at the first error
unfoldable pub after_init :
    LanguageManager × Result Text Unit → Initializer → LanguageManager × Result Text Unit
after_init (m, ok u) next = next m
after_init (m, err e) next = (m, err e)
after_init (m, panic) next = (m, panic)

unfoldable pub run_initializers : List Initializer → Initializer
unfolding after_init
run_initializers [] m = (m, ok tt)
run_initializers (init ∷ rest) m = after_init (init m) (run_initializers rest)

unfoldable pub init_language_providers : Configs → Initializer
unfolding run_initializers init_cxx_providers init_java_providers init_py_providers
    init_rust_providers
init_language_providers configs = run_initializers (
    init_cxx_providers configs.cxx
    ∷ init_java_providers configs.java
    ∷ init_py_providers configs.python
    ∷ init_rust_providers configs.rust
    ∷ [])
