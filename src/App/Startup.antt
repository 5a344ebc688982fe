-- ===== src/App/Startup.antt =====
-- The start of the server: Application::Impl, getInstance, init and run (app/src/Application.cpp),
-- registryRouter (app/include/Application.hpp) and main (main.cpp).
pub mod Routes
use text.Mathlib.Text.{◌==◌ as str_eq}
use oj_backend.Prelude.{
  ℕ, ◌-◌, ◌%◌, ◌^◌, ℤ, pos, negsuc, String, Bool, true, false, not, ◌&&◌, Option, none, some, List,
  [], ◌∷◌, ◌++◌, ◌==◌, if◌then◌else◌,
}
use oj_backend.Exceptions.Result.{Result, Error, ok, err, ◌>>=◌}
use oj_backend.Exceptions.Files.{PathState}
use oj_backend.Core.Configurator.{
  IniReader, Configurator, IniValue, int_value, string_value, make_configurator, get,
}
use oj_backend.Core.Logger.{Level, level_value, LoggerState, no_logger, init}
use oj_backend.Judge.System.{SystemAnswers, init_system}
use oj_backend.App.Polling.{Subscriber}

-- core/include/Http.hpp
pub data HttpMethod : Type 0 where
  get_method post_method put_method delete_method patch_method head_method options_method :
      HttpMethod
  trace_method connect_method : HttpMethod

-- The functions of app/src/api.
pub data Handler : Type 0 where
  registry login create_problem add_problem_limit upload_test_cases submit : Handler
  query_submissions get_problem_list : Handler

pub record Route : Type 0 where
  pub method : HttpMethod
  pub path : String
  pub handler : Handler

-- What the constructor makes; of the managers and services only that they were made counts.
pub record Impl (F : Type 0) : Type 0 where
  pub configurator : Configurator F
  pub workers : ℕ
  pub subscriber : Subscriber
  pub temp_dir : String

-- What the libraries and the constructors of the other parts answer. `parts` are DbManager,
-- RedisManager and the three services, in this order.
pub record ImplAnswers (F : Type 0) : Type 0 where
  pub conf_state : PathState
  pub reader : IniReader F
  pub sodium_init : ℤ
  pub hardware_concurrency : ℕ
  pub errno : ℤ
  pub make_pool : ℕ → Result (Unit {0})
  pub parts : List (Configurator F → Result (Unit {0}))
  pub subscribe : String → Result (Unit {0})
  pub is_directory : String → Bool
  pub create_directories : String → Result (Unit {0})

-- `int` to `size_t`
abbrev pub to_size : ℤ → ℕ
to_size (pos n) = n
to_size (negsuc n) = 2 ^ 64 - 1 - n

abbrev pub is_minus_one : ℤ → Bool
is_minus_one (pos n) = false
is_minus_one (negsuc n) = n == 0

abbrev method_index : HttpMethod → ℕ
method_index get_method = 0
method_index post_method = 1
method_index put_method = 2
method_index delete_method = 3
method_index patch_method = 4
method_index head_method = 5
method_index options_method = 6
method_index trace_method = 7
method_index connect_method = 8

abbrev pub same_method : HttpMethod → HttpMethod → Bool
same_method a b = method_index a == method_index b

-- The routes of main.cpp.
unfoldable pub main_routes : List (HttpMethod × String × Handler)
main_routes =
    (post_method, "/api/auth/registry", registry)
    ∷ (post_method, "/api/auth/login", login)
    ∷ (post_method, "/api/problems/create_problem", create_problem)
    ∷ (post_method, "/api/problems/add_problem_limit", add_problem_limit)
    ∷ (post_method, "/api/problems/upload_testcases", upload_test_cases)
    ∷ (post_method, "/api/submissions/submit", submit)
    ∷ (post_method, "/api/submissions/query_submissions", query_submissions)
    ∷ (get_method, "/api/problems/get_problem_list", get_problem_list)
    ∷ []

-- The process: the logger, s_AppPtr, its members, and the flag of initSystem.
pub record Process (F : Type 0) : Type 0 where
  pub logger : LoggerState
  pub has_app : Bool
  pub impl : Option (Impl F)
  pub routes : Option (List Route)
  pub system_ready : Bool

abbrev pub no_process : (F : Type 0) → Process F
no_process F = record {
  logger = no_logger;
  has_app = false;
  impl = none;
  routes = none;
  system_ready = false;
}

abbrev pub Started : Type 0 → Type 0
Started F = Result (Unit {0}) × Process F

module _ {F : Type 0} where
  abbrev as_int : IniValue F → ℤ
  as_int (int_value n) = n
  as_int _ = pos 0

  abbrev as_string : IniValue F → String
  as_string (string_value s) = s
  as_string _ = ""

  unfoldable pub worker_number : Configurator F → ℕ → ℕ
  unfolding get
  worker_number c hardware =
      to_size (as_int (get c "application" "JUDGER_NUMBER" (int_value (pos hardware))))

  unfoldable pub operate_channel : Configurator F → String
  unfolding get
  operate_channel c =
      as_string (get c "redis" "OPERATE_CHANNEL" (string_value "db_operate_channel"))

  unfoldable pub submission_temp_dir : Configurator F → String
  unfolding get
  submission_temp_dir c =
      as_string (get c "application" "SUBMISSION_TEMP_DIR" (string_value "./submission_temp/"))

  unfoldable pub make_parts :
      List (Configurator F → Result (Unit {0})) → Configurator F → Result (Unit {0})
  make_parts [] c = ok tt
  make_parts (part ∷ rest) c = do _ ← part c; make_parts rest c

  abbrev sodium_ready : ImplAnswers F → Result (Unit {0})
  sodium_ready a =
      if is_minus_one a.sodium_init
      then err (Error.system a.errno "lib sodium init error")
      else ok tt

  abbrev temp_dir_ready : ImplAnswers F → String → Result (Unit {0})
  temp_dir_ready a temp_dir =
      if a.is_directory temp_dir then ok tt else a.create_directories temp_dir

  -- Impl::Impl
  unfoldable pub make_impl : ImplAnswers F → String → Result (Impl F)
  unfolding make_configurator worker_number operate_channel submission_temp_dir make_parts
  make_impl a conf_file_path = do
    c ← make_configurator a.conf_state a.reader conf_file_path
    _ ← sodium_ready a
    let workers = worker_number c a.hardware_concurrency
    _ ← a.make_pool workers
    _ ← make_parts a.parts c
    let channel = operate_channel c
    _ ← a.subscribe channel
    let temp_dir = submission_temp_dir c
    _ ← temp_dir_ready a temp_dir
    ok (record {
      configurator = c;
      workers = workers;
      subscriber = record { channel = channel; has_handler = true };
      temp_dir = temp_dir;
    })

  -- Application::getInstance
  unfoldable pub get_instance : Bool → Process F → Started F
  get_instance log_opens p =
      if p.has_app
      then (ok tt, p)
      else (let (r, logger) =
            init log_opens "oj-server" (pos (level_value Level.info)) "logs/server.log" true
              p.logger in
          elim r [
            | err e ↦ (err e, record p { logger = logger })
            | ok u ↦ (ok tt, record p { logger = logger; has_app = true })
          ])

  -- Application::init
  unfoldable pub init_application : ImplAnswers F → SystemAnswers → String → Process F → Started F
  unfolding make_impl init_system
  init_application a system conf_file p = elim (make_impl a conf_file) [
    | err e ↦ (err e, p)
    | ok impl ↦
        let (r, ready) = init_system system p.system_ready in
        (r, record p { impl = some impl; routes = some []; system_ready = ready })
  ]

  abbrev routed : Process F → Option (List Route) → Route → Started F
  routed p none r = (err (Error.undefined "m_HttpServer is null"), p)
  routed p (some routes) r = (ok tt, record p { routes = some (routes ++ r ∷ []) })

  -- Application::registryRouter; other methods are only logged.
  unfoldable pub registry_router : HttpMethod → String → Handler → Process F → Started F
  registry_router method path handler p =
      let r : Route = record { method = method; path = path; handler = handler } in
      elim method [
        | get_method ↦ routed p p.routes r
        | post_method ↦ routed p p.routes r
        | put_method ↦ routed p p.routes r
        | _ ↦ (ok tt, p)
      ]

  unfoldable pub register_all : List (HttpMethod × String × Handler) → Process F → Started F
  unfolding registry_router
  register_all [] p = (ok tt, p)
  register_all ((method, path, handler) ∷ rest) p =
      let (r, p') = registry_router method path handler p in
      elim r [ err e ↦ (err e, p') | ok u ↦ register_all rest p' ]

  abbrev then_do : Started F → (Process F → Started F) → Started F
  then_do (err e, p) f = (err e, p)
  then_do (ok u, p) f = f p

  -- main, up to Application::run. Every use of `App` is a call of getInstance; after the first one
  -- the instance is there.
  unfoldable pub start : Bool → ImplAnswers F → SystemAnswers → Process F → Started F
  unfolding get_instance init_application register_all main_routes
  start log_opens a system p =
      then_do (get_instance log_opens p)
        (λ p1. then_do (init_application a system "config.ini" p1) (register_all main_routes))

-- How main ends: 0, EXIT_FAILURE, or not by itself.
pub data MainEnd : Type 0 where
  exit_success exit_failure crashed : MainEnd

abbrev ended : LoggerState → Result (Unit {0}) → MainEnd
ended logger (ok u) = exit_success
ended logger (err (Error.undefined text)) = crashed
ended logger (err e) = elim logger.logger [ none ↦ crashed | some log ↦ exit_failure ]

-- main. `run` is what Application::run comes to; an exception is logged, which asserts that there
-- is a logger.
unfoldable pub main :
    {F : Type 0} → Bool → ImplAnswers F → SystemAnswers → Result (Unit {0}) → MainEnd
unfolding start
main {F} log_opens a system run =
    let (r, p) = start log_opens a system (no_process F) in
    elim r [ ok u ↦ ended p.logger run | err e ↦ ended p.logger (err e) ]
