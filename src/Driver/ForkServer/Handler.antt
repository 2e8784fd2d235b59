-- ===== src/Driver/ForkServer/Handler.antt =====
-- The handler of the fork server: its languages after the libraries are loaded, and its user.
use wave_judge.Prelude.{List, [], ◌∷◌, ◌++◌, Text}
use wave_judge.Judge.Languages.{LanguageProvider, Dylib}

-- What the libraries register, in the order of the configuration.
abbrev pub all_registered : (Text → Dylib) → List Text → List LanguageProvider
all_registered dylib [] = []
all_registered dylib (so ∷ sos) = (dylib so).registered ++ all_registered dylib sos
