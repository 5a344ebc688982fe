-- ===== src/App/Settings.antt =====
-- What the constructors of the managers, the services and the database pool read from the
-- configuration: app/src/RedisManager.cpp, app/src/DbManager.cpp, app/src/services and
-- database/src/DbPool.cpp.
pub mod Keys
use text.Mathlib.Text.{◌==◌ as str_eq}
use oj_backend.Prelude.{
  ℕ, ◌%◌, ◌^◌, ℤ, pos, negsuc, to_int32, String, Bool, not, Option, none, some, if◌then◌else◌,
}
use oj_backend.Exceptions.Result.{Result, Error, ok, err, ◌>>=◌}
use oj_backend.Core.Configurator.{
  Configurator, IniValue, int_value, string_value, uint16_value, size_value, get,
}
use oj_backend.Database.Worker.{Driver}
use oj_backend.Database.Pool.{DbPool, make_pool}
use oj_backend.App.Token.{TokenManager}
use oj_backend.App.Services.{Config}
use oj_backend.App.Services.{Config}

-- sw::redis::ConnectionOptions, with the size of the pool
pub record RedisOptions : Type 0 where
  pub host : String
  pub port : ℕ
  pub password : String
  pub db : ℤ
  pub connect_timeout : ℤ
  pub socket_timeout : ℤ
  pub pool_size : ℕ

-- The members of RedisManager, and its channel
pub record RedisManager : Type 0 where
  pub operate_channel : String
  pub key_ttl : ℤ
  pub options : RedisOptions

-- What a worker of the database pool connects to
pub record DbAddress : Type 0 where
  pub host : String
  pub port : ℕ
  pub user : String
  pub password : String
  pub database : String

module _ {F : Type 0} (c : Configurator F) where
  abbrev as_int : IniValue F → ℤ
  as_int (int_value n) = n
  as_int _ = pos 0

  abbrev as_string : IniValue F → String
  as_string (string_value s) = s
  as_string _ = ""

  abbrev as_ℕ : IniValue F → ℕ
  as_ℕ (uint16_value n) = n
  as_ℕ (size_value n) = n
  as_ℕ _ = 0

  unfoldable pub int_setting : String → String → ℕ → ℤ
  unfolding get
  int_setting section key d = as_int (get c section key (int_value (pos d)))

  unfoldable pub string_setting : String → String → String → String
  unfolding get
  string_setting section key d = as_string (get c section key (string_value d))

  unfoldable pub port_setting : String → String → ℕ → ℕ
  unfolding get
  port_setting section key d = as_ℕ (get c section key (uint16_value d))

  unfoldable pub size_setting : String → String → ℕ → ℕ
  unfolding get
  size_setting section key d = as_ℕ (get c section key (size_value d))

  -- RedisManager::RedisManager: the options; `size_t` to `int` for the database
  unfoldable pub redis_options : RedisOptions
  unfolding int_setting string_setting port_setting size_setting
  redis_options = record {
    host = string_setting "redis" "HOST" "127.0.0.1";
    port = port_setting "redis" "PORT" 6379;
    password = string_setting "redis" "PASSWORD" "";
    db = to_int32 (size_setting "redis" "DB_INDEX" 0);
    connect_timeout = int_setting "redis" "CONNECT_TIMEOUT" 30;
    socket_timeout = int_setting "redis" "SOCKET_TIMEOUT" 30;
    pool_size = size_setting "redis" "POOL_SIZE" 4;
  }

  -- The constructor. `ping` is what the test connection answers, `connect` what making the pool
  -- comes to.
  unfoldable pub make_redis_manager :
      (RedisOptions → Result String) → (RedisOptions → Result (Unit {0})) → ℤ → Result RedisManager
  unfolding redis_options
  make_redis_manager ping connect errno = do
    answer ← ping redis_options
    if not (str_eq answer "PONG")
        then err (Error.system errno "Redis connection test failed")
        else (do
          _ ← connect redis_options
          ok (record {
            operate_channel = string_setting "redis" "OPERATE_CHANNEL" "db_operate_channel";
            key_ttl = int_setting "redis" "KEY_TTL" 3600;
            options = redis_options;
          }))

  -- DbManager::DbManager: the seconds that acquire waits
  unfoldable pub op_wait_time : ℤ
  unfolding int_setting
  op_wait_time = int_setting "judgedb" "OP_WAIT_TIME" 10

  -- DbPool::DbPool: the workers, with what the driver answers to the connections of each, and what
  -- they connect to
  unfoldable pub configured_pool : (ℕ → Driver) → DbPool
  unfolding size_setting make_pool
  configured_pool drivers = make_pool drivers (size_setting "application" "DB_NUMBER" 2)

  unfoldable pub db_address : DbAddress
  unfolding string_setting port_setting
  db_address = record {
    host = string_setting "judgedb" "HOST" "127.0.0.1";
    port = port_setting "judgedb" "PORT" 3306;
    user = string_setting "judgedb" "USERNAME" "root";
    password = string_setting "judgedb" "PASSWORD" "";
    database = string_setting "judgedb" "DATABASE" "judgedb";
  }

  -- TokenManager::TokenManager. The model has no negative times: `none` for a negative JWT_EXPIRE.
  unfoldable pub token_manager : Option TokenManager
  unfolding string_setting int_setting
  token_manager = elim (int_setting "application" "JWT_EXPIRE" 1800) [
    | negsuc n ↦ none
    | pos seconds ↦ some (record {
      jwt_secret_key = string_setting "application" "JWT_SECRET_KEY" "";
      active_prefix = string_setting "application" "REDIS_ACTIVE_PREFIX" "user:active:";
      blacklist_prefix =
          string_setting "application" "REDIS_BLACKLIST_PREFIX" "user:token_blacklist:";
      expire_time = seconds;
    })
  ]

  -- ProblemService::ProblemService: the prefixes of problems, limits and test cases
  unfoldable pub problem_prefixes : String × String × String
  unfolding string_setting
  problem_prefixes = (
    string_setting "application" "PROBLEM_PREFIX" "problem:",
    string_setting "application" "LIMIT_PREFIX" "limit:",
    string_setting "application" "TESTCASE_PREFIX" "testcase:",
  )

  -- SubmissionService::SubmissionService
  unfoldable pub submission_prefix_setting : String
  unfolding string_setting
  submission_prefix_setting = string_setting "application" "SUBMISSION_PREFIX" "submission:"

  -- What the three services and the Redis manager work with; `none` for a negative time.
  unfoldable pub services_config : Option Config
  unfolding token_manager problem_prefixes submission_prefix_setting int_setting string_setting
  services_config =
      let (problem, limit, _) = problem_prefixes in
      elim (int_setting "redis" "KEY_TTL" 3600) [
        | negsuc n ↦ none
        | pos ttl ↦ elim token_manager [
          | none ↦ none
          | some tokens ↦ some (record {
            tokens = tokens;
            operate_channel = string_setting "redis" "OPERATE_CHANNEL" "db_operate_channel";
            key_ttl = ttl;
            problem_prefix = problem;
            limit_prefix = limit;
            submission_prefix = submission_prefix_setting;
          })
        ]
      ]
