-- ===== src/Core/Logger.antt =====
-- core/include/Logger.hpp and core/src/Logger.cpp: the one logger of the process. What the logging
-- library keeps, its thread pool and the names that it knows, is part of the state.
pub mod Levels
use Prim.Native.String.{len, find}
use text.Mathlib.Text.{◌==◌ as str_eq}
use oj_backend.Prelude.{
  ℕ, ◌≤◌, ℤ, pos, negsuc, String, Bool, true, false, not, ◌&&◌, ◌||◌, Option, none, some, List, [],
  ◌∷◌, leb, ltb, any, if◌then◌else◌,
}
use oj_backend.Exceptions.Result.{Result, Error, ok, err}

-- Logger::Level. A value of the enumeration is any `int`; these are its names.
pub data Level : Type 0 where
  trace debug info warn error critical off : Level

unfoldable pub level_value : Level → ℕ
level_value trace = 0
level_value debug = 1
level_value info = 2
level_value warn = 3
level_value error = 4
level_value critical = 5
level_value off = 6

pub record Log : Type 0 where
  pub name : String
  pub level : ℕ
  pub has_file : Bool
  pub is_async : Bool
  pub flush_level : ℕ

-- s_logger, s_async, the flag of call_once, whether the library's thread pool is there, and the
-- names that it has registered.
pub record LoggerState : Type 0 where
  pub logger : Option Log
  pub is_async : Bool
  pub pool_asked : Bool
  pub has_pool : Bool
  pub names : List String

abbrev pub no_logger : LoggerState
no_logger = record {
  logger = none;
  is_async = false;
  pool_asked = false;
  has_pool = false;
  names = [];
}

-- `level < Level::TRACE || level > Level::OFF`
unfoldable pub is_level : ℤ → Option ℕ
unfolding level_value
is_level (negsuc n) = none
is_level (pos n) = if ltb (level_value off) n then none else some n

abbrev pub Logged : Type 0
Logged = Result (Unit {0}) × LoggerState

abbrev invalid_level : Error
invalid_level = Error.out_of_range "Invalid log level"

-- Logger::GetLogger; the failed assertion ends the program.
unfoldable pub get_logger : LoggerState → Result Log
get_logger s = elim s.logger [
  | none ↦ err (Error.undefined "Logger not initialized")
  | some log ↦ ok log
]

-- Logger::SetLevel
unfoldable pub set_level : ℤ → LoggerState → Logged
unfolding is_level get_logger
set_level level s = elim (is_level level) [
  | none ↦ (err invalid_level, s)
  | some n ↦ elim (get_logger s) [
    | err e ↦ (err e, s)
    | ok log ↦ (ok tt, record s { logger = some (record log { level = n }) })
  ]
]

-- The thread pool of the library is made by the first asynchronous Init only.
unfoldable pub ask_pool : Bool → LoggerState → LoggerState
ask_pool async s =
    if async && not s.pool_asked
    then record s { is_async = async; pool_asked = true; has_pool = true }
    else record s { is_async = async }

-- `logFile.find("..") != std::string::npos`
abbrev pub has_dots : String → Bool
has_dots file = leb (find file "..") (len file)

-- The level of a new logger is INFO; the library refuses a name that is registered.
unfoldable pub register : String → LoggerState → Logged
register name s =
    if any (str_eq name) s.names
    then (err (Error.runtime "logger with this name already exists"), s)
    else (ok tt, record s { names = name ∷ s.names })

abbrev then_register : String → Logged → Logged
then_register name (err e, s) = (err e, s)
then_register name (ok u, s) = register name s

unfoldable pub finish_init : String → ℤ → LoggerState → Logged
unfolding is_level set_level register
finish_init name level s = elim (is_level level) [
  | none ↦ (err invalid_level, s)
  | some n ↦ then_register name (set_level level s)
]

abbrev pub new_log : String → String → Bool → Log
new_log name file async = record {
  name = name;
  level = level_value info;
  has_file = not (str_eq file "");
  is_async = async;
  flush_level = level_value warn;
}

-- Logger::Init; `opens` says whether the file can be opened.
unfoldable pub init : Bool → String → ℤ → String → Bool → LoggerState → Logged
unfolding ask_pool finish_init
init opens name level file async s = elim s.logger [
  | some log ↦ (err (Error.runtime "Logger already initialized"), s)
  | none ↦
      let s' = ask_pool async s in
      if not (str_eq file "") && has_dots file
      then (err (Error.runtime "Invalid log file path"), s')
      else if not (str_eq file "") && not opens
      then (err (Error.runtime "Failed opening file for writing"), s')
      else finish_init name level (record s' { logger = some (new_log name file async) })
]

-- Logger::Flush
unfoldable pub flush : LoggerState → Result (Unit {0})
unfolding get_logger
flush s = elim (get_logger s) [ err e ↦ err e | ok log ↦ ok tt ]

-- Logger::Shutdown; spdlog::shutdown drops the registered loggers and the thread pool.
unfoldable pub shutdown : LoggerState → LoggerState
shutdown s = elim s.logger [
  | none ↦ s
  | some log ↦ if s.is_async then record s { logger = none; has_pool = false; names = [] } else s
]

-- Trace, Debug, Info, Warn, Error and Critical: whether the message is written. The library drops
-- a message of an asynchronous logger when the thread pool is gone.
unfoldable pub log_at : Level → LoggerState → Result Bool
unfolding get_logger level_value
log_at level s = elim (get_logger s) [
  | err e ↦ err e
  | ok log ↦ ok (leb log.level (level_value level) && (not log.is_async || s.has_pool))
]
