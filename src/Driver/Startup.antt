-- ===== src/Driver/Startup.antt =====
-- driver/src/init.rs and `do_main` of driver/src/main.rs, with the configuration (driver/src/config.rs)
-- and the stores as they are made (driver/src/storage). The files, the parsers, the database and the
-- fork are a parameter.
pub mod Straight
pub mod Exits
use wave_judge.Prelude.{
  ℕ, ◌==◌, Bool, true, false, ◌||◌, text_eq, Option, none, some, List, [], ◌∷◌, Text, codes, Result,
  ok, err, panic, map_err, if◌then◌else◌,
}
use wave_judge.Prelude.Work.{Work, ◌>>=◌, ◌>>◌, give, present}
use wave_judge.Driver.ObjectIds.{ObjectId}
use wave_judge.Driver.Sync.{KeyLock, new_lock}
use wave_judge.Driver.ForkServer.{AppEngineConfig}
use wave_judge.Driver.Workers.Threads.{Ending, WorkersError, run}

pub record ClusterConfig : Type 0 where
  pub judge_board_url : Text
  pub heartbeat_interval : ℕ
  pub authenticate_key_file : Text

pub record StorageConfig : Type 0 where
  pub db_file : Text
  pub archive_dir : Text
  pub jury_dir : Text

pub record AppConfig : Type 0 where
  pub workers : ℕ
  pub cluster : ClusterConfig
  pub storage : StorageConfig
  pub engine : AppEngineConfig

pub data InitError : Type 0 where
  invalid_config_file : InitError
  log_error io_error openssl_error url_error fork_server_error storage_error : Text → InitError

-- What the start calls: log4rs, the files, serde_yaml, reqwest's `Url`, openssl, sqlite, and the fork.
-- `U` is a URL, `K` a key, `F` the client of the fork server and `D` a connection to the database.
pub record Machine (W U K F D : Type 0) : Type 0 where
  pub init_file : Text → Work W Text (Unit {0})
  pub read_to_string : Text → Work W Text Text
  pub read : Text → Work W Text (List ℕ)
  pub from_yaml : Text → Result Text AppConfig
  pub parse_url : Text → Result Text U
  pub private_key_from_pem : List ℕ → Result Text K
  pub start_fork_server : AppEngineConfig → Work W Text F
  pub open_db : Text → Work W Text D
  pub get_table_names : D → Work W Text (List Text)
  pub create_problems : D → Work W Text (Unit {0})
  pub create_dir_all : Text → Work W Text (Unit {0})

pub record RestfulClient (U K : Type 0) : Type 0 where
  pub judge_board_url : U
  pub auth_key : K

pub record ArchiveStore (U K : Type 0) : Type 0 where
  pub lock : KeyLock ObjectId
  pub root_dir : Text
  pub rest : RestfulClient U K

pub record ProblemStore (U K F D : Type 0) : Type 0 where
  pub lock : KeyLock ObjectId
  pub db : D
  pub rest : RestfulClient U K
  pub fork_server : F
  pub jury_dir : Text

pub record AppStorageFacade (U K F D : Type 0) : Type 0 where
  pub archives : ArchiveStore U K
  pub problems : ProblemStore U K F D

pub record AppContext (U K F D : Type 0) : Type 0 where
  pub config : AppConfig
  pub fork_server : F
  pub rest : RestfulClient U K
  pub storage : AppStorageFacade U K F D

pub record AppContextBuilder (U K F D : Type 0) : Type 0 where
  pub config : Option AppConfig
  pub fork_server : Option F
  pub rest : Option (RestfulClient U K)
  pub storage : Option (AppStorageFacade U K F D)

abbrev pub new_builder : {U K F D : Type 0} → AppContextBuilder U K F D
new_builder = record { config = none; fork_server = none; rest = none; storage = none }

-- A conversion of errors that `?` inserts.
abbrev pub converted : {W E E' A : Type 0} → (E → E') → Work W E A → Work W E' A
converted f m w = (map_err f (m w).0, (m w).1)

unfoldable pub contains : Text → List Text → Bool
contains name [] = false
contains name (t ∷ ts) = text_eq t name || contains name ts

module _ {W U K F D : Type 0} (machine : Machine W U K F D) where
  unfoldable pub from_file : Text → Work W InitError AppConfig
  from_file path = do
    content ← converted (λ _. invalid_config_file) (machine.read_to_string path)
    give (map_err (λ _. invalid_config_file) (machine.from_yaml content))

  unfoldable pub init_db : D → Work W Text (Unit {0})
  unfolding contains
  init_db db = do
    names ← machine.get_table_names db
    if contains (codes "problems") names then give (ok tt) else machine.create_problems db

  unfoldable pub new_archives : Text → RestfulClient U K → Work W Text (ArchiveStore U K)
  unfolding new_lock
  new_archives dir rest = do
    machine.create_dir_all dir
    give (ok (record { lock = new_lock; root_dir = dir; rest = rest }))

  unfoldable pub new_problems :
      D → RestfulClient U K → F → Text → Work W Text (ProblemStore U K F D)
  unfolding new_lock init_db
  new_problems db rest fork_server jury_dir = do
    init_db db
    machine.create_dir_all jury_dir
    give (
        ok (record {
          lock = new_lock;
          db = db;
          rest = rest;
          fork_server = fork_server;
          jury_dir = jury_dir;
        }))

  unfoldable pub new_storage :
      AppConfig → RestfulClient U K → F → Work W Text (AppStorageFacade U K F D)
  unfolding new_archives new_problems
  new_storage config rest fork_server = do
    db ← machine.open_db config.storage.db_file
    archives ← new_archives config.storage.archive_dir rest
    problems ← new_problems db rest fork_server config.storage.jury_dir
    give (ok (record { archives = archives; problems = problems }))

  -- The steps of the builder.
  abbrev pub Step : Type 0
  Step = AppContextBuilder U K F D → Work W InitError (AppContextBuilder U K F D)

  unfoldable pub init_app_config : Text → Step
  unfolding from_file
  init_app_config config_file b = do
    config ← from_file config_file
    give (ok (record b { config = some config }))

  unfoldable pub init_fork_server : Step
  init_fork_server b = do
    config ← present b.config
    client ← converted fork_server_error (machine.start_fork_server config.engine)
    give (ok (record b { fork_server = some client }))

  unfoldable pub new_rest : ClusterConfig → Work W InitError (RestfulClient U K)
  new_rest cluster = do
    url ← give (map_err url_error (machine.parse_url cluster.judge_board_url))
    pem_data ← converted io_error (machine.read cluster.authenticate_key_file)
    auth_key ← give (map_err openssl_error (machine.private_key_from_pem pem_data))
    give (ok (record { judge_board_url = url; auth_key = auth_key }))

  unfoldable pub init_rest : Step
  unfolding new_rest
  init_rest b = do
    config ← present b.config
    rest ← new_rest config.cluster
    give (ok (record b { rest = some rest }))

  unfoldable pub init_storage_facade : Step
  unfolding new_storage
  init_storage_facade b = do
    config ← present b.config
    rest ← present b.rest
    fork_server ← present b.fork_server
    storage ← converted storage_error (new_storage config rest fork_server)
    give (ok (record b { storage = some storage }))

  unfoldable pub init_all : Text → Step
  unfolding init_app_config init_fork_server init_rest init_storage_facade
  init_all config_path b = do
    b₁ ← init_app_config config_path b
    b₂ ← init_fork_server b₁
    b₃ ← init_rest b₂
    init_storage_facade b₃

  unfoldable pub build_app_context :
      AppContextBuilder U K F D → Work W InitError (AppContext U K F D)
  build_app_context b = do
    config ← present b.config
    fork_server ← present b.fork_server
    rest ← present b.rest
    storage ← present b.storage
    give
        (ok (record { config = config; fork_server = fork_server; rest = rest; storage = storage }))

  -- `init`, with what clap gives for `log_config_file` and `config_file`.
  unfoldable pub init : Option Text → Option Text → Work W InitError (AppContext U K F D)
  unfolding init_all build_app_context
  init log_config_file config_file = do
    log_path ← present log_config_file
    converted log_error (machine.init_file log_path)
    config_path ← present config_file
    b ← init_all config_path new_builder
    build_app_context b

-- How the process ends; `none` when it does not.
pub data MainError : Type 0 where
  initialization_error : InitError → MainError
  worker_error : WorkersError → MainError

unfoldable pub after_workers :
    Option (Result WorkersError (Unit {0})) → Option (Result MainError (Unit {0}))
after_workers none = none
after_workers (some r) = some (map_err worker_error r)

unfoldable pub after_init :
    {W U K F D : Type 0}
    → (ℕ → Option Ending)
    → Result InitError (AppContext U K F D) × W
    → Option (Result MainError (Unit {0}))
unfolding run after_workers
after_init ends (ok context, w) = after_workers (run ends context.config.workers)
after_init ends (err e, w) = some (err (initialization_error e))
after_init ends (panic, w) = some panic

-- `do_main`. The daemon of the heartbeat has a thread of its own, and `ends` says how the threads of the workers end.
unfoldable pub do_main :
    {W U K F D : Type 0}
    → Machine W U K F D
    → (ℕ → Option Ending)
    → Option Text
    → Option Text
    → W
    → Option (Result MainError (Unit {0}))
unfolding init after_init
do_main machine ends log_config_file config_file w =
    after_init ends (init machine log_config_file config_file w)

-- `main`: a panic ends a process with the status 101, and `exit(-1)` with 255.
unfoldable pub exit_status : Option (Result MainError (Unit {0})) → Option ℕ
exit_status none = none
exit_status (some (ok u)) = some 0
exit_status (some (err e)) = some 255
exit_status (some panic) = some 101
