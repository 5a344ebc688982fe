-- ===== src/Tests/Core.antt =====
-- The theorems on the core library (core) at concrete runs.
use oj_backend.Prelude.{
  decimal, ℕ, ◌≡◌, ◌≤◌, refl, pos, true, List, [], ◌∷◌, ◌++◌, length, not, ◌&&◌, arith, to_string,
  none, false,
}
use oj_backend.Exceptions.Result.{ok}
use oj_backend.Exceptions.Files.{PathState, is_special_path}
use oj_backend.Core.Types.{TestCaseInfo}
use oj_backend.Core.Serial.{test_case_to_json}
use oj_backend.Core.Serializable.{test_case_info, to_json_string, from_json_string}
use oj_backend.Core.Serializable.RoundTrip.{json_round_trip}
use oj_backend.Core.Queue.Fifo.{Call, pushes, pops, shuts, run, opened, run_fifo}
use oj_backend.Core.ThreadPool.{make_pool, enqueue, wake, destroy}
use oj_backend.Core.ThreadPool.Joined.{
  Event, submits, wakes, ends, destroys, joined, started_in_order,
}
use oj_backend.Core.ThreadPool.Joined
use oj_backend.Tests.Values.{json_lib, json_laws}

abbrev calls : List (Call ℕ)
calls = pushes 7 ∷ pushes 8 ∷ pushes 9 ∷ pops ∷ shuts ∷ pops ∷ pushes 6 ∷ []

run_fifo_example :
    ((run (opened 2) calls).accepted
      ≡ (run (opened 2) calls).delivered ++ (run (opened 2) calls).queue.items)
    × (length (run (opened 2) calls).queue.items ≤ 2)
run_fifo_example = run_fifo 2 calls

abbrev events : List (Event ℕ)
events = submits 7 ∷ wakes 0 ∷ submits 8 ∷ ends 0 ∷ destroys ∷ wakes 0 ∷ ends 0 ∷ wakes 0 ∷ []

joined_example :
    let h = Joined.run (Joined.opened 1) events in
    (h.pool.stop ≡ true) × (h.started ≡ h.enqueued) × (h.ended ≡ length h.enqueued)
unfolding Joined.run Joined.step make_pool enqueue wake destroy
joined_example = joined 1 events (λ e. cc) refl

abbrev sum_case : TestCaseInfo
sum_case = record { problem_title = "Sum"; stdin_data = "1 2"; expected_output = "3"; sequence = 1 }

json_round_trip_example :
    from_json_string json_lib (test_case_info sum_case) "test_case" ≡ ok (test_case_info sum_case)
unfolding to_json_string test_case_to_json
json_round_trip_example =
    json_round_trip json_lib json_laws (test_case_info sum_case) {text = "test_case"} (omega arith)
      refl

-- A script that nobody may execute.
abbrev script : PathState
script = record {
  exists = true;
  is_directory = false;
  owner_read = true;
  owner_write = true;
  owner_exec = false;
  status_error = none;
  opens = true;
  header = 35 ∷ 33 ∷ 47 ∷ 98 ∷ [];
  accessible = true;
  errno = pos 0;
  is_root = true;
}

three_digits : to_string 407 ≡ "407"
unfolding decimal
three_digits = refl

special : is_special_path "/proc/1" && not (is_special_path "/tmp/proc") ≡ true
unfolding is_special_path
special = refl
