-- ===== src/Lib.antt =====
-- WaveJudge, an online judge in Rust: how it runs programs in a sandbox, judges them and handles
-- submissions.
--
-- The program has three layers and a library of languages. The crate `sandbox` (sandbox/src) starts
-- a child process under a user id, a directory, redirections, limits and a system call filter, and
-- watches it from a daemon thread. The crate `judge` (judge/src) compiles and runs submissions in
-- the sandbox, test case by test case, and has an answer checked by a built-in checker or by a jury
-- program. The crate `driver` (driver/src) fetches submissions from the board, hands them to the
-- engine in another process and reports the results. The crate `builtin-languages`
-- (builtin-languages/src) registers the language providers that describe to the engine how a
-- program is compiled and executed.
--
-- The files, and the code they are about:
--   Prelude and its children: shared names, lists, results (`Result` has a third case for a panic),
--     texts as lists of bytes, and Boolean tests on the native numbers;
--   Sandbox.Memory, Sandbox.Usage, Sandbox.Errors: the value types of sandbox/src/lib.rs, and the check
--     of limits of sandbox/src/daemon.rs;
--   Sandbox.Daemon: sandbox/src/daemon.rs and `Process`; a run of the thread is a list of rounds, each
--     with the kernel's answers to it;
--   Sandbox.Kernel: the system calls of sandbox/src/rlimits.rs, seccomp.rs and misc.rs, over an oracle
--     that grants or refuses each call, given the calls granted so far;
--   Sandbox.Builder, Sandbox.Launch: `ProcessBuilder`, `start_child` and `expand_path`;
--   Judge.Verdicts, Judge.Task: the values of judge/src/lib.rs;
--   Judge.Tokens: `TokenizedReader` of judge/src/engine/io.rs, over a device that gives blocks of bytes
--     or errors;
--   Judge.Checkers: judge/src/engine/checkers.rs; `f64` is a parameter (`Float64`);
--   Judge.Languages: judge/src/languages; providers are records of functions, and the `init` of a
--     library is a parameter;
--   Judge.Engine and its children: judge/src/engine/mod.rs; `Engine` has the configuration and the
--     machine (`Host`, a parameter) with the computations that run on it, `Compiler`, `Executor` and
--     `Judging` have compilation, the execution of test suites and the preparation of tasks;
--   Builtin.Paths, Cxx, Java, Python, Rust and Init: builtin-languages/src, the providers that the
--     engine's registry gets; what a configuration file gives is a parameter (`Configs`), and a path is
--     bytes that `display` shows as they are; Builtin.Names has the functions of `std::path` on them;
--   Driver.ObjectIds, Driver.Entities: driver/src/restful/entities.rs;
--   Driver.Workers: driver/src/workers.rs, over the stores and the fork server as a parameter
--     (`Services`), and its child Threads, the loop of a worker and `run`, over the requests to the
--     board (`Board`);
--   Driver.Sync: the locks of driver/src/sync.rs, with the threads that use them as a step relation;
--   Driver.Archives and its children Paths and Store: driver/src/storage/archives.rs, over zip, the
--     file system and the download as a parameter (`Disk`);
--   Driver.Problems and its child Store: driver/src/storage/problems.rs, over SQLite, the board and the
--     fork server as a parameter (`Sources`);
--   Driver.Rest with Pipeline, Auth and Requests: pipeline.rs, auth.rs and mod.rs of
--     driver/src/restful, over reqwest and the key as a parameter (`Net`);
--   Driver.Heartbeat: driver/src/heartbeat.rs, over procfs and the request as a parameter (`Node`);
--   Driver.Startup: init.rs, config.rs, main.rs and storage/mod.rs of driver/src, over what the start
--     calls as a parameter (`Machine`);
--   Driver.ForkServer: driver/src/forkserver, the engine of this development behind the commands of the
--     driver, with the handler as it is made; `getpwnam` is a parameter;
--   Tools.SandboxBin, Tools.JudgeBin: the command line tools sandbox/src/bin/sandbox-bin.rs and
--     judge/src/bin/judge-bin.rs; what clap finds, files and processes are parameters;
--   Sandbox.Tests, Judge.Tests, Builtin.Tests, Driver.Tests, Tools.Tests: runs on concrete inputs.
-- The children of a file that are not named here hold the theorems about it.
--
-- Bounds: a machine word has 64 bits, and sizes in bytes wrap around. `Duration` is a number of
-- nanoseconds. The loops of the token reader and of the checkers run on fuel, one unit for each byte or
-- token; more fuel than the bytes that are left is enough, and `run_checker` gives that much.
-- The counter of the tokens of a checker is an i32 that wraps around, as in a release build.
-- The count of a key lock is a u32; the theorems on it are for fewer than 2 ^ 32 threads.
-- The loop of the daemon goes through its rounds and is `none` when they do not end it.
-- The loops of a worker and of the heartbeat have no end of their own: they run for a number of rounds,
-- and the theorems are for every number.
--
-- Not modelled: the `fork` itself, the text of log messages, the parsing of /proc, the content of
-- dynamic libraries, the lossy conversion of bytes to text (a parameter), the encoding
-- of messages as JSON and MessagePack, and the pipes of the fork server.
pub mod Prelude
pub mod Sandbox
pub mod Judge
pub mod Builtin
pub mod Driver
pub mod Tools
