-- ===== src/Judge/Languages.antt =====
-- judge/src/languages/mod.rs: language identifiers, providers and their registry. The names and
-- versions are their bytes; the registry's `HashMap` is a list of its entries in the order of their
-- first insertion. The loading of a dynamic library (loader.rs) runs an `init` that is a parameter.
pub mod Registry
pub mod Listing
use wave_judge.Prelude.{
  Bool, true, false, ◌&&◌, ◌||◌, Option, none, some, List, [], ◌∷◌, ◌++◌, map, Text, text_eq,
  Result, ok, err, panic, if◌then◌else◌, String,
}
use wave_judge.Sandbox.Builder.{SystemCall}

-- `LanguageBranch`.use wave_judge.Sandbox.Builder.{SystemCall}

pub record LanguageBranch : Type 0 where
  pub dialect : Text
  pub version : Text

pub record LanguageIdentifier : Type 0 where
  pub language : Text
  pub branch : LanguageBranch

-- `==` on branches.
unfoldable pub branch_eq : LanguageBranch → LanguageBranch → Bool
unfolding text_eq
branch_eq a b = text_eq a.dialect b.dialect && text_eq a.version b.version

-- `Program`.
pub record Program : Type 0 where
  pub file : Text
  pub language : LanguageIdentifier

pub data ProgramKind : Type 0 where
  judgee checker interactor : ProgramKind

-- `ProgramKind::is_jury`.
unfoldable pub is_jury : ProgramKind → Bool
is_jury checker = true
is_jury interactor = true
is_jury judgee = false

pub record ExecutionInfo : Type 0 where
  pub executable : Text
  pub args : List Text
  pub envs : List (Text × Text)
  pub syscall_whitelist : List SystemCall

pub record CompilationInfo : Type 0 where
  pub compiler : ExecutionInfo
  pub output_file : Text

-- `LanguageProviderMetadata`.
pub record Metadata : Type 0 where
  pub name : Text
  pub branches : List LanguageBranch
  pub interpreted : Bool

-- `LanguageProvider`; an error is its message.
pub record LanguageProvider : Type 0 where
  pub metadata : Metadata
  pub compile : Program → ProgramKind → Option Text → Result Text CompilationInfo
  pub execute : Program → ProgramKind → Result Text ExecutionInfo

-- `LanguageManagerImpl`: the paths of the loaded libraries, and the providers of each language.
pub record LanguageManager : Type 0 where
  pub libs : List Text
  pub providers : List (Text × List LanguageProvider)

-- `LanguageManager::new`.
abbrev pub no_languages : LanguageManager
no_languages = record { libs = []; providers = [] }

-- `providers.get_mut(name)` and a push, or the insertion of a new entry.
unfoldable pub insert :
    LanguageProvider → List (Text × List LanguageProvider) → List (Text × List LanguageProvider)
unfolding text_eq
insert p [] = (p.metadata.name, p ∷ []) ∷ []
insert p ((name, prov) ∷ entries) =
    if text_eq name p.metadata.name
    then (name, prov ++ p ∷ []) ∷ entries
    else (name, prov) ∷ insert p entries

unfoldable pub register : LanguageProvider → LanguageManager → LanguageManager
unfolding insert
register p m = record m { providers = insert p m.providers }

-- `branches.contains`.
unfoldable pub has_branch : LanguageBranch → List LanguageBranch → Bool
unfolding branch_eq
has_branch b [] = false
has_branch b (x ∷ xs) = branch_eq x b || has_branch b xs

-- `providers.get`.
unfoldable pub get : Text → List (Text × List LanguageProvider) → Option (List LanguageProvider)
unfolding text_eq
get name [] = none
get name ((key, prov) ∷ entries) = if text_eq key name then some prov else get name entries

unfoldable pub find_branch : LanguageBranch → List LanguageProvider → Option LanguageProvider
unfolding has_branch
find_branch b [] = none
find_branch b (p ∷ ps) = if has_branch b p.metadata.branches then some p else find_branch b ps

unfoldable pub find_in : LanguageBranch → Option (List LanguageProvider) → Option LanguageProvider
unfolding find_branch
find_in b none = none
find_in b (some prov) = find_branch b prov

unfoldable pub find : LanguageIdentifier → LanguageManager → Option LanguageProvider
unfolding find_in get
find lang m = find_in lang.branch (get lang.language m.providers)

-- The two inner loops of `languages`.
unfoldable pub provider_languages : Text → List LanguageProvider → List LanguageIdentifier
provider_languages name [] = []
provider_languages name (p ∷ ps) =
    map (λ b. record { language = name; branch = b }) p.metadata.branches
    ++ provider_languages name ps

unfoldable pub all_languages : List (Text × List LanguageProvider) → List LanguageIdentifier
unfolding provider_languages
all_languages [] = []
all_languages ((name, prov) ∷ entries) = provider_languages name prov ++ all_languages entries

unfoldable pub languages : LanguageManager → List LanguageIdentifier
unfolding all_languages
languages m = all_languages m.providers

-- What the loader does with a file: the providers that its `init` registered before it returned,
-- and whether it succeeded.
pub record Dylib : Type 0 where
  pub registered : List LanguageProvider
  pub loaded : Result Text (Unit {0})

unfoldable pub register_all : List LanguageProvider → LanguageManager → LanguageManager
unfolding register
register_all [] m = m
register_all (p ∷ ps) m = register_all ps (register p m)

unfoldable pub after_load :
    Text → Result Text (Unit {0}) → LanguageManager → LanguageManager × Result Text (Unit {0})
after_load file (ok u) m = (record m { libs = m.libs ++ file ∷ [] }, ok tt)
after_load file (err e) m = (m, err e)
after_load file panic m = (m, panic)

-- `load_dylib`; a library whose `init` fails leaves what it registered.
unfoldable pub load_dylib :
    (Text → Dylib) → Text → LanguageManager → LanguageManager × Result Text (Unit {0})
unfolding register_all after_load
load_dylib dylib file m =
    after_load file (dylib file).loaded (register_all (dylib file).registered m)
