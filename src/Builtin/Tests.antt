-- ===== src/Builtin/Tests.antt =====
-- The built-in languages on a C program, and on a language that none of them serves.
use wave_judge.Prelude.{none, some, codes, ◌≡◌, refl}
use wave_judge.Judge.Languages.{LanguageManager, no_languages, Program, judgee}
use wave_judge.Judge.Engine.Compiler.{get_compile_info}
use wave_judge.Driver.Archives.Paths.{split_last, stem_of}
use wave_judge.Builtin.Names.{file_stem, file_name, trimmed}
use wave_judge.Builtin.Paths.{branch}
use wave_judge.Builtin.Cxx.{CxxConfig}
use wave_judge.Builtin.Java.{JavaConfig}
use wave_judge.Builtin.Python.{PythonConfig}
use wave_judge.Builtin.Rust.{RustConfig}
use wave_judge.Builtin.Init.{init_language_providers}
use wave_judge.Builtin.Served.{all_loaded, Known, get_compile_info-Known}

abbrev cxx_config : CxxConfig
cxx_config = record {
  testlib_include_dir = codes "/lib/include";
  testlib_lib_dir = codes "/lib/lib";
}

abbrev java_config : JavaConfig
java_config = record { testlib_jar = codes "/lib/t.jar"; compile_script = codes "/lib/javac.py" }

abbrev python_config : PythonConfig
python_config = record { testlib_module_dir = codes "/lib/py" }

abbrev rust_config : RustConfig
rust_config = record { testlib_dir = codes "/lib/rs" }

abbrev source : Program
source = record {
  file = codes "/tmp/a.c";
  language = record { language = codes "c"; branch = branch (codes "gnu") (codes "c11") };
}

abbrev builtins : LanguageManager
builtins =
    (init_language_providers (all_loaded cxx_config java_config python_config rust_config)
      no_languages).0

get_compile_info-Known_example :
    Known source builtins (get_compile_info builtins source judgee none)
unfolding file_stem file_name trimmed split_last stem_of
get_compile_info-Known_example =
    get_compile_info-Known cxx_config java_config python_config rust_config source judgee none
      (codes "a") refl

-- The root and a parent have no name, and the end of a path does not count.
stem-root : file_stem (codes "//") ≡ none
unfolding file_stem file_name trimmed split_last stem_of
stem-root = refl

stem-up : file_stem (codes "a/..") ≡ none
unfolding file_stem file_name trimmed split_last stem_of
stem-up = refl

stem-here : file_stem (codes "./") ≡ none
unfolding file_stem file_name trimmed split_last stem_of
stem-here = refl

stem-trimmed : file_stem (codes "/tmp/a.b.c/./") ≡ some (codes "a.b")
unfolding file_stem file_name trimmed split_last stem_of
stem-trimmed = refl
