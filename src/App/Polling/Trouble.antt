-- ===== src/App/Polling/Trouble.antt =====
-- Which messages the loop of Application::run (app/src/Application.cpp) hands on, and when it ends.
use text.Mathlib.Text.{◌==◌ as str_eq}
use oj_backend.Prelude.{
  ◌≡◌, ◌≢◌, refl, String, true, false, none, List, [], ◌∷◌, any, arith, if◌then◌else◌,
}
use oj_backend.Exceptions.Result.{ok, err}
use oj_backend.App.Polling.{Subscriber, message, timed_out, closed, failed, Turn, consume, poll}

-- The messages of the channel up to the first trouble: the end of the server, a closed connection,
-- a message that cannot be queued, or another exception.
abbrev pub before_trouble : String → List Turn → List String
before_trouble channel [] = []
before_trouble channel (t ∷ rest) =
    let later = before_trouble channel rest in
    if t.should_exit then [] else elim t.consumed [
      | message from text r ↦ elim r [
        | ok u ↦ if str_eq from channel then text ∷ later else later
        | err e ↦ if str_eq from channel then [] else later
      ]
      | timed_out ↦ later
      | closed r ↦ []
      | failed e ↦ []
    ]

poll-no_handler :
    (channel : String) (turns : List Turn)
    → (poll (record { channel = channel; has_handler = false }) turns).1 ≡ []
unfolding poll consume
poll-no_handler channel [] = refl
poll-no_handler channel (t ∷ rest) =
    ground (arith, poll-no_handler channel rest, poll-no_handler "db_operate_channel" rest)

-- The loop hands on the messages of its channel, in order, up to the first trouble, and none after
-- it: the subscriber that replaces one whose connection was closed has no handler.
pub poll-before_trouble :
    (channel : String) (turns : List Turn)
    → (poll (record { channel = channel; has_handler = true }) turns).1
      ≡ before_trouble channel turns
unfolding poll consume
poll-before_trouble channel [] = refl
poll-before_trouble channel (t ∷ rest) =
    ground (arith, poll-before_trouble channel rest, poll-no_handler "db_operate_channel" rest)

-- Once m_ShouldExit is set, the loop ends with the next turn, if it has not ended before.
pub poll_ends :
    (s : Subscriber) (turns : List Turn)
    → any (λ t. t.should_exit) turns ≡ true
    → (poll s turns).0 ≢ none
unfolding poll consume
poll_ends s [] h = cc
poll_ends s (t ∷ rest) h = ground (
  arith,
  poll_ends s rest,
  poll_ends (record { channel = "db_operate_channel"; has_handler = false }) rest,
)
