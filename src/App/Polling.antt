-- ===== src/App/Polling.antt =====
-- Application::run of app/src/Application.cpp: the loop that consumes the messages of the operation
-- channel, as a task of the pool. What consume() answers is a list of turns.
pub mod Trouble
pub mod Starvation
use text.Mathlib.Text.{◌==◌ as str_eq}
use oj_backend.Prelude.{
  String, Bool, true, false, not, ◌&&◌, Option, none, some, List, [], ◌∷◌, if◌then◌else◌,
}
use oj_backend.Exceptions.Result.{Result, Error, ok, err}

-- sw::redis::Subscriber: what it has subscribed to, and whether on_message was called on it.
pub record Subscriber : Type 0 where
  pub channel : String
  pub has_handler : Bool

-- What consume() comes to: a message with its channel, and what processDbOperateEvent does with it;
-- TimeoutError; ClosedError, and what making and subscribing the new subscriber does; another
-- exception.
pub data Consumed : Type 0 where
  message : String → String → Result (Unit {0}) → Consumed
  timed_out : Consumed
  closed : Result (Unit {0}) → Consumed
  failed : Error → Consumed

-- One turn: m_ShouldExit, and what is consumed if it is not set.
pub record Turn : Type 0 where
  pub should_exit : Bool
  pub consumed : Consumed

-- How the loop ends: by its condition, by `break`, or by an exception of a catch block.
pub data PollEnd : Type 0 where
  stopped broken : PollEnd
  escaped : Error → PollEnd

-- What a turn hands on to processDbOperateEvent, and how the loop goes on.
pub data Next : Type 0 where
  goes_on : List String → Subscriber → Next
  ends : PollEnd → Next

abbrev pub reconnect_channel : String
reconnect_channel = "db_operate_channel"

-- The library calls the handler for a message of the channel, if there is one.
unfoldable pub consume : Subscriber → Consumed → Next
consume s (message channel text (ok u)) =
    if s.has_handler && str_eq channel s.channel then goes_on (text ∷ []) s else goes_on [] s
consume s (message channel text (err e)) =
    if s.has_handler && str_eq channel s.channel then ends broken else goes_on [] s
consume s timed_out = goes_on [] s
consume s (closed (ok u)) = goes_on [] (record { channel = reconnect_channel; has_handler = false })
consume s (closed (err e)) = ends (escaped e)
consume s (failed e) = ends broken

abbrev with_texts : List String → Option PollEnd × List String → Option PollEnd × List String
with_texts [] (end, later) = (end, later)
with_texts (text ∷ texts) (end, later) =
    let (end', all) = with_texts texts (end, later) in (end', text ∷ all)

-- The loop: how it ends (`none`: it still runs), and the messages handed on.
unfoldable pub poll : Subscriber → List Turn → Option PollEnd × List String
unfolding consume
poll s [] = (none, [])
poll s (t ∷ rest) = if t.should_exit then (some stopped, []) else elim (consume s t.consumed) [
  | ends e ↦ (some e, [])
  | goes_on texts s' ↦ with_texts texts (poll s' rest)
]
