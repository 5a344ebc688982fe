-- ===== src/Tests/Server.antt =====
-- The theorems on the start of the server, on its polling loop and on the logger (app/src,
-- main.cpp, core/src/Logger.cpp) at concrete runs.
use oj_backend.Prelude.{
  ℕ, ◌≡◌, ◌≢◌, refl, pos, negsuc, String, true, false, none, some, List, [], ◌∷◌,
}
use oj_backend.Exceptions.Result.{Error, ok, err}
use oj_backend.Exceptions.Files.{
  check_file_exists, check_file_readable, check_file_writable, is_special_path,
}
use oj_backend.Core.Configurator.{IniReader, make_configurator, get}
use oj_backend.Core.Logger.{
  Level, Log, LoggerState, init, shutdown, log_at, level_value, is_level, set_level, get_logger,
  finish_init, ask_pool, register,
}
use oj_backend.Core.Logger.Levels.{LoggerCall, inits, after_calls, shutdown_silences}
use oj_backend.Core.ThreadPool.Joined.{Event, submits, wakes, destroys, run, opened}
use oj_backend.Judge.System.{SystemAnswers, system_checks, init_system, compile_policy, open_policy}
use oj_backend.App.Polling.{Turn, message, timed_out, closed, poll}
use oj_backend.App.Polling.Trouble.{poll-before_trouble}
use oj_backend.App.Polling.Starvation.{
  ServerTask, polling, judge_task, db_event, one_worker_starves,
}
use oj_backend.App.Startup.{
  Impl, ImplAnswers, make_impl, Process, no_process, start, get_instance, init_application,
  register_all, main_routes, registry_router, worker_number, operate_channel, submission_temp_dir,
  make_parts,
}
use oj_backend.App.Startup.Routes.{Serves, start_ready}
use oj_backend.Tests.Actuator.{there}

-- Two messages, a closed connection, and a third message.
abbrev turns : List Turn
turns =
    record { should_exit = false; consumed = message "db_operate_channel" "first" (ok tt) }
    ∷ record { should_exit = false; consumed = timed_out }
    ∷ record { should_exit = false; consumed = message "db_operate_channel" "second" (ok tt) }
    ∷ record { should_exit = false; consumed = closed (ok tt) }
    ∷ record { should_exit = false; consumed = message "db_operate_channel" "third" (ok tt) }
    ∷ []

poll-before_trouble_example :
    (poll (record { channel = "db_operate_channel"; has_handler = true }) turns).1
    ≡ "first" ∷ "second" ∷ []
poll-before_trouble_example = poll-before_trouble "db_operate_channel" turns

abbrev busy_day : List (Event (ServerTask String String))
busy_day =
    submits (db_event "first") ∷ wakes 0 ∷ submits (judge_task "s1") ∷ wakes 0 ∷ destroys ∷ []

one_worker_starves_example :
    (run (opened 1) (submits polling ∷ wakes 0 ∷ busy_day)).started ≡ polling ∷ []
one_worker_starves_example = one_worker_starves busy_day refl

-- An asynchronous logger that is shut down and initialised again.
abbrev first_log : Log
first_log = record {
  name = "oj-server";
  level = 2;
  has_file = true;
  is_async = true;
  flush_level = 3;
}

abbrev second_log : Log
second_log = record first_log { name = "again" }

abbrev logging : LoggerState
logging = record {
  logger = some first_log;
  is_async = true;
  pool_asked = true;
  has_pool = true;
  names = "oj-server" ∷ [];
}

abbrev again : List LoggerCall
again = inits true "again" (pos 2) "logs/server.log" true ∷ []

shutdown_silences_example : log_at Level.error (after_calls (shutdown logging) again) ≡ ok false
unfolding init shutdown finish_init set_level get_logger is_level level_value ask_pool register
shutdown_silences_example =
    shutdown_silences logging first_log again Level.error second_log refl refl refl refl refl

-- A configuration file that sets nothing, and a system in order.
abbrev defaults : IniReader ℕ
defaults = record {
  parse_error = pos 0;
  get_integer = λ section key d. d;
  get_string = λ section key d. d;
  get_real = λ section key d. d;
  get_boolean = λ section key d. d;
}

abbrev parts_ok : ImplAnswers ℕ
parts_ok = record {
  conf_state = there;
  reader = defaults;
  sodium_init = pos 0;
  hardware_concurrency = 4;
  errno = pos 0;
  make_pool = λ n. ok tt;
  parts = (λ c. ok tt) ∷ [];
  subscribe = λ channel. ok tt;
  is_directory = λ path. true;
  create_directories = λ path. ok tt;
}

abbrev system_ok : SystemAnswers
system_ok = record {
  proc = there;
  cgroup_root = there;
  policy = there;
  policy_path = "./kafel.policy";
  policy_opens = true;
  compile_result = pos 0;
  error_message = none;
  errno = pos 0;
}

abbrev up : Process ℕ
up = (start true parts_ok system_ok (no_process ℕ)).1

start_ready_example :
    (up.logger.logger ≢ none)
    × (impl : Impl ℕ) × (make_impl parts_ok "config.ini" ≡ ok impl)
    × (up.impl ≡ some impl)
    × (system_checks system_ok ≡ ok tt)
    × Serves up
unfolding start get_instance init_application register_all main_routes registry_router init shutdown
    finish_init set_level get_logger is_level level_value ask_pool register make_impl
    make_configurator get make_parts worker_number operate_channel submission_temp_dir init_system
    system_checks check_file_exists check_file_readable check_file_writable compile_policy
    open_policy is_special_path
start_ready_example = start_ready true parts_ok system_ok up refl

-- A policy that does not compile and comes with no message.
undefined_message :
    system_checks (record system_ok { compile_result = negsuc 0 })
    ≡ err (Error.undefined "*error_ptr")
unfolding system_checks check_file_exists check_file_readable check_file_writable compile_policy
    open_policy is_special_path
undefined_message = refl
