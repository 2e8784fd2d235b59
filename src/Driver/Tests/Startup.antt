-- ===== src/Driver/Tests/Startup.antt =====
-- A start with one worker, and the packets of the daemon.
use wave_judge.Prelude.{ℕ, ◌≡◌, ◌∷◌, ◌↔◌, false, Option, some, none, [], Text, codes, ok}
use wave_judge.Prelude.Work.{Work}
use wave_judge.Driver.ForkServer.{AppEngineConfig}
use wave_judge.Driver.Workers.Threads.{Ending}
use wave_judge.Driver.Heartbeat.{Node, min_heartbeat_interval, heartbeat_daemon_entry}
use wave_judge.Driver.Heartbeat.Pace.{Paced, heartbeat_daemon_entry-Paced}
use wave_judge.Driver.Startup.{AppConfig, Machine, init, do_main, exit_status}
use wave_judge.Driver.Startup.Straight.{straight, init-straight}
use wave_judge.Driver.Startup.Exits.{EndsWell, do_main_iff}

abbrev pub an_engine : AppEngineConfig
an_engine = record {
  judge_dir = codes "/judge";
  language_dylibs = codes "py.so" ∷ [];
  judge_username = codes "judge";
  judgee_syscall_whitelist = [];
  jury_cpu_time_limit = 1000;
  jury_real_time_limit = 3000;
  jury_memory_limit = 256;
  jury_syscall_whitelist = [];
}

abbrev a_config : AppConfig
a_config = record {
  workers = 1;
  cluster = record {
    judge_board_url = codes "http://board";
    heartbeat_interval = 5;
    authenticate_key_file = codes "key.pem";
  };
  storage = record {
    db_file = codes "db";
    archive_dir = codes "archives";
    jury_dir = codes "jury";
  };
  engine = an_engine;
}

abbrev granted : Work Unit Text (Unit {0})
granted w = (ok tt, w)

-- A machine that grants everything.
abbrev willing : Machine Unit Text Text Unit Unit
willing = record {
  init_file = λ path. granted;
  read_to_string = λ path w. (ok path, w);
  read = λ path w. (ok path, w);
  from_yaml = λ content. ok a_config;
  parse_url = λ text. ok text;
  private_key_from_pem = λ pem. ok pem;
  start_fork_server = λ config. granted;
  open_db = λ file. granted;
  get_table_names = λ db w. (ok [], w);
  create_problems = λ db. granted;
  create_dir_all = λ dir. granted;
}

init-straight_example :
    init willing (some (codes "log")) (some (codes "app")) tt
    ≡ straight willing (codes "log") (codes "app") tt
init-straight_example = init-straight willing (codes "log") (codes "app") tt

abbrev never : ℕ → Option Ending
never k = none

do_main_iff_example :
    (exit_status (do_main willing never (some (codes "log")) (some (codes "app")) tt) ≡ some 0)
    ↔ EndsWell never (straight willing (codes "log") (codes "app") tt)
do_main_iff_example = do_main_iff willing never (codes "log") (codes "app") tt

abbrev a_node : Node Unit Text
a_node = record {
  meminfo = λ w. (
    ok (record { mem_total = 8; mem_free = 4; swap_total = 2; swap_free = 1; swap_cached = 0 }),
    w,
  );
  num_cores = λ w. (ok 4, w);
  patch_heartbeat = λ hb. granted;
}

-- One second.
heartbeat_daemon_entry-Paced_example :
    Paced min_heartbeat_interval false (heartbeat_daemon_entry a_node 1000000000 2 tt).0
    × Paced 1000000000 false (heartbeat_daemon_entry a_node 1000000000 2 tt).0
heartbeat_daemon_entry-Paced_example = heartbeat_daemon_entry-Paced a_node 1000000000 2 tt
