-- ===== src/Driver/Startup/Straight.antt =====
-- The start of the driver (driver/src/init.rs) without its builder.
use wave_judge.Prelude.{◌≡◌, refl, some, Text, Result, ok, err, panic}
use wave_judge.Prelude.Work.{Work, go_on, ◌>>=◌, ◌>>◌, give, present}
use wave_judge.Driver.Startup.{
  AppConfig, InitError, log_error, fork_server_error, storage_error, RestfulClient,
  AppStorageFacade, Machine, AppContext, AppContextBuilder, new_builder, converted, from_file,
  new_rest, new_storage, init_app_config, init_fork_server, init_rest, init_storage_facade,
  init_all, build_app_context, init,
}

module _ {W U K F D : Type 0} (machine : Machine W U K F D) where
  -- The steps in their order, each with what the steps before it gave.
  abbrev pub storage_made :
      AppConfig → F → RestfulClient U K → Work W InitError (AppContext U K F D)
  storage_made config fork_server rest = do
    storage ← converted storage_error (new_storage machine config rest fork_server)
    give
        (ok (record { config = config; fork_server = fork_server; rest = rest; storage = storage }))

  abbrev pub rest_made : AppConfig → F → Work W InitError (AppContext U K F D)
  rest_made config fork_server = do
    rest ← new_rest machine config.cluster
    storage_made config fork_server rest

  abbrev pub fork_server_made : AppConfig → Work W InitError (AppContext U K F D)
  fork_server_made config = do
    fork_server ← converted fork_server_error (machine.start_fork_server config.engine)
    rest_made config fork_server

  abbrev pub straight : Text → Text → Work W InitError (AppContext U K F D)
  straight log_path config_path = do
    converted log_error (machine.init_file log_path)
    config ← from_file machine config_path
    fork_server_made config

  -- The builder after each step.
  abbrev with_config : AppConfig → AppContextBuilder U K F D
  with_config c = record new_builder { config = some c }

  abbrev with_fork_server : AppConfig → F → AppContextBuilder U K F D
  with_fork_server c f = record (with_config c) { fork_server = some f }

  abbrev with_rest : AppConfig → F → RestfulClient U K → AppContextBuilder U K F D
  with_rest c f r = record (with_fork_server c f) { rest = some r }

  abbrev build : AppContextBuilder U K F D → Work W InitError (AppContext U K F D)
  build = build_app_context machine

  built :
      (c : AppConfig) (f : F) (r : RestfulClient U K)
      (x : Result InitError (AppStorageFacade U K F D) × W)
      → go_on build (go_on (λ s. give (ok (record (with_rest c f r) { storage = some s }))) x)
        ≡ go_on (λ s. give (ok (record { config = c; fork_server = f; rest = r; storage = s }))) x
  unfolding go_on build_app_context
  built c f r (ok s, w) = refl
  built c f r (err e, w) = refl
  built c f r (panic, w) = refl

  build-storage :
      (c : AppConfig) (f : F) (r : RestfulClient U K) (w : W)
      → go_on build (init_storage_facade machine (with_rest c f r) w) ≡ storage_made c f r w
  unfolding go_on init_storage_facade
  build-storage c f r w = built c f r (converted storage_error (new_storage machine c r f) w)

  after_rest :
      (c : AppConfig) (f : F) (x : Result InitError (RestfulClient U K) × W)
      → go_on build
          (go_on (init_storage_facade machine) (go_on (λ r. give (ok (with_rest c f r))) x))
        ≡ go_on (storage_made c f) x
  unfolding go_on
  after_rest c f (ok r, w) = build-storage c f r w
  after_rest c f (err e, w) = refl
  after_rest c f (panic, w) = refl

  build-rest :
      (c : AppConfig) (f : F) (w : W)
      → go_on build
          (go_on (init_storage_facade machine) (init_rest machine (with_fork_server c f) w))
        ≡ rest_made c f w
  unfolding go_on init_rest
  build-rest c f w = after_rest c f (new_rest machine c.cluster w)

  abbrev storage_and_rest : AppContextBuilder U K F D → Work W InitError (AppContextBuilder U K F D)
  storage_and_rest b = init_rest machine b >>= init_storage_facade machine

  after_fork_server :
      (c : AppConfig) (x : Result InitError F × W)
      → go_on build (go_on storage_and_rest (go_on (λ f. give (ok (with_fork_server c f))) x))
        ≡ go_on (rest_made c) x
  unfolding go_on
  after_fork_server c (ok f, w) = build-rest c f w
  after_fork_server c (err e, w) = refl
  after_fork_server c (panic, w) = refl

  build-fork_server :
      (c : AppConfig) (w : W)
      → go_on build (go_on storage_and_rest (init_fork_server machine (with_config c) w))
        ≡ fork_server_made c w
  unfolding go_on init_fork_server
  build-fork_server c w =
      after_fork_server c (converted fork_server_error (machine.start_fork_server c.engine) w)

  after_config :
      (x : Result InitError AppConfig × W)
      → go_on build (
          go_on
            (λ b. init_fork_server machine b >>= storage_and_rest)
            (go_on (λ c. give (ok (with_config c))) x))
        ≡ go_on fork_server_made x
  unfolding go_on
  after_config (ok c, w) = build-fork_server c w
  after_config (err e, w) = refl
  after_config (panic, w) = refl

  build-init_all :
      (config_path : Text) (w : W)
      → go_on build (init_all machine config_path new_builder w)
        ≡ go_on fork_server_made (from_file machine config_path w)
  unfolding init_all init_app_config
  build-init_all config_path w = after_config (from_file machine config_path w)

  after_log :
      (config_path : Text) (x : Result InitError (Unit {0}) × W)
      → go_on
          (λ _. present (some config_path) >>= λ path. init_all machine path new_builder >>= build)
          x
        ≡ go_on (λ _. from_file machine config_path >>= fork_server_made) x
  unfolding go_on
  after_log config_path (ok u, w) = build-init_all config_path w
  after_log config_path (err e, w) = refl
  after_log config_path (panic, w) = refl

  -- With the paths of both files, the start is its steps in their order: the configuration, the fork
  -- server, the client of the board and the stores, ended by the first that does not succeed. No
  -- expectation of the builder fails.
  pub init-straight :
      (log_path config_path : Text) (w : W)
      → init machine (some log_path) (some config_path) w ≡ straight log_path config_path w
  unfolding init go_on
  init-straight log_path config_path w =
      after_log config_path (converted log_error (machine.init_file log_path) w)
