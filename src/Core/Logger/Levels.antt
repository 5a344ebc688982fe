-- ===== src/Core/Logger/Levels.antt =====
-- The logger of core/src/Logger.cpp over a sequence of calls.
use oj_backend.Prelude.{
  ℕ, ◌≤◌, ℤ, ◌≡◌, String, Bool, true, false, Option, none, some, List, [], ◌∷◌, arith,
}
use oj_backend.Exceptions.Result.{Error, ok, err}
use oj_backend.Core.Logger.{
  Level, level_value, Log, LoggerState, is_level, get_logger, set_level, ask_pool, register,
  finish_init, init, shutdown, log_at,
}

-- A call that changes the state.
pub data LoggerCall : Type 0 where
  inits : Bool → String → ℤ → String → Bool → LoggerCall
  sets_level : ℤ → LoggerCall
  shuts_down : LoggerCall

abbrev pub called : LoggerState → LoggerCall → LoggerState
called s (inits opens name level file async) = (init opens name level file async s).1
called s (sets_level level) = (set_level level s).1
called s shuts_down = shutdown s

abbrev pub after_calls : LoggerState → List LoggerCall → LoggerState
after_calls s [] = s
after_calls s (c ∷ rest) = after_calls (called s c) rest

abbrev pub level_of : Option Log → ℕ
level_of none = 0
level_of (some log) = log.level

-- A logger has one of the seven levels.
abbrev pub IsSound : LoggerState → Type 0
IsSound s = level_of s.logger ≤ 6

init-IsSound :
    (opens : Bool) (name : String) (level : ℤ) (file : String) (async : Bool) (s : LoggerState)
    → IsSound s
    → IsSound (init opens name level file async s).1
unfolding init ask_pool finish_init set_level get_logger register is_level level_value
init-IsSound opens name level file async s h = ground arith

set_level-IsSound : (level : ℤ) (s : LoggerState) → IsSound s → IsSound (set_level level s).1
unfolding set_level get_logger is_level level_value
set_level-IsSound level s h = ground arith

shutdown-IsSound : (s : LoggerState) → IsSound s → IsSound (shutdown s)
unfolding shutdown
shutdown-IsSound s h = ground arith

-- Whatever sequence of calls has been made, failed ones included, a logger that is there has one of
-- the seven levels.
pub after_calls-IsSound :
    (s : LoggerState) (calls : List LoggerCall) → IsSound s → IsSound (after_calls s calls)
after_calls-IsSound s [] h = h
after_calls-IsSound s (inits opens name level file async ∷ rest) h =
    after_calls-IsSound (called s (inits opens name level file async)) rest
      (init-IsSound opens name level file async s h)
after_calls-IsSound s (sets_level level ∷ rest) h =
    after_calls-IsSound (called s (sets_level level)) rest (set_level-IsSound level s h)
after_calls-IsSound s (shuts_down ∷ rest) h =
    after_calls-IsSound (shutdown s) rest (shutdown-IsSound s h)

-- An Init whose level is none of the seven throws, and yet leaves a logger behind if its file can
-- be opened: every later Init throws then, with whatever arguments.
pub init_invalid_level :
    (name : String) (level : ℤ) (async : Bool) (s : LoggerState) (opens : Bool) (name' : String)
    (level' : ℤ) (file' : String) (async' : Bool)
    → s.logger ≡ none
    → is_level level ≡ none
    → ((init true name level "" async s).0 ≡ err (Error.out_of_range "Invalid log level"))
      × ((init opens name' level' file' async' (init true name level "" async s).1).0
          ≡ err (Error.runtime "Logger already initialized"))
unfolding init ask_pool finish_init
init_invalid_level name level async s opens name' level' file' async' h l = ground arith

-- Shutdown drops the thread pool of the library, and Init makes it only once: whatever calls are
-- made after the first asynchronous one, once it is dropped it never comes back.
abbrev pub HasLostPool : LoggerState → Type 0
HasLostPool s = (s.pool_asked ≡ true) × (s.has_pool ≡ false)

called-HasLostPool : (s : LoggerState) (c : LoggerCall) → HasLostPool s → HasLostPool (called s c)
unfolding init ask_pool finish_init set_level get_logger register shutdown
called-HasLostPool s (inits opens name level file async) h = ground arith
called-HasLostPool s (sets_level level) h = ground arith
called-HasLostPool s shuts_down h = ground arith

after_calls-HasLostPool :
    (s : LoggerState) (calls : List LoggerCall) → HasLostPool s → HasLostPool (after_calls s calls)
after_calls-HasLostPool s [] h = h
after_calls-HasLostPool s (c ∷ rest) h =
    after_calls-HasLostPool (called s c) rest (called-HasLostPool s c h)

-- After the shutdown of an asynchronous logger no asynchronous logger writes anything, whatever
-- calls are made then: Init makes the thread pool of the library only once.
pub shutdown_silences :
    (s : LoggerState) (log : Log) (calls : List LoggerCall) (level : Level) (later : Log)
    → s.pool_asked ≡ true
    → s.is_async ≡ true
    → s.logger ≡ some log
    → (after_calls (shutdown s) calls).logger ≡ some later
    → later.is_async ≡ true
    → log_at level (after_calls (shutdown s) calls) ≡ ok false
unfolding log_at get_logger
shutdown_silences s log calls level later asked async is here la =
    let lost : HasLostPool (shutdown s) = unfold shutdown in ground arith in
    ground (arith, after_calls-HasLostPool (shutdown s) calls lost)
