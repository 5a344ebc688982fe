-- ===== src/Judge/Status.antt =====
-- judge/include/utilities/ExecutionResult.hpp, judge/include/utilities/JudgeResult.hpp and
-- judge/src/utilities: the verdict of one test, the verdict of a submission, and how the second
-- is computed from the first ones.
use oj_backend.Prelude.{
  ℕ, String, ◌^◌, ◌%◌, ℤ, bit_and, bit_or, Bool, not, List, [], ◌∷◌, ◌==◌, if◌then◌else◌,
}

pub data TestStatus : Type 0 where
  unknown accepted wrong_answer runtime_error memory_limit_exceeded : TestStatus
  time_limit_exceeded internal_error compilation_error : TestStatus

-- BITMASK(x), the value of the enumerator
unfoldable pub mask : TestStatus → ℕ
mask unknown = 2 ^ 0
mask accepted = 2 ^ 1
mask wrong_answer = 2 ^ 2
mask runtime_error = 2 ^ 3
mask memory_limit_exceeded = 2 ^ 4
mask time_limit_exceeded = 2 ^ 5
mask internal_error = 2 ^ 6
mask compilation_error = 2 ^ 7

unfoldable pub test_status_to_string : TestStatus → String
test_status_to_string accepted = "ACCEPTED"
test_status_to_string wrong_answer = "WRONG_ANSWER"
test_status_to_string compilation_error = "COMPILATION_ERROR"
test_status_to_string runtime_error = "RUNTIME_ERROR"
test_status_to_string time_limit_exceeded = "TIME_LIMIT_EXCEEDED"
test_status_to_string memory_limit_exceeded = "MEMORY_LIMIT_EXCEEDED"
test_status_to_string internal_error = "INTERNAL_ERROR"
test_status_to_string unknown = "UNKNOWN"

pub record TestResult : Type 0 where
  pub duration_us : ℕ
  pub exit_code : ℤ
  pub memory_kb : ℤ
  pub signal : ℤ
  pub status : TestStatus

pub data SubmissionStatus : Type 0 where
  unknown pending ac wa re mle tle ie ce : SubmissionStatus

unfoldable pub submission_status_to_string : SubmissionStatus → String
submission_status_to_string unknown = "UNKNOWN"
submission_status_to_string pending = "PENDING"
submission_status_to_string ac = "ACCEPT"
submission_status_to_string wa = "WRONG_ANSWER"
submission_status_to_string re = "RUNTIME_ERROR"
submission_status_to_string mle = "MEMORY_LIMIT_EXCEEDED"
submission_status_to_string tle = "TIME_LIMIT_EXCEEDED"
submission_status_to_string ie = "INTERNAL_ERROR"
submission_status_to_string ce = "COMPILATION_ERROR"

-- The lambda of the fold; `StatusCode` has eight bits.
unfoldable pub add_status : ℕ → TestStatus → ℕ
add_status code s = bit_or code (mask s % 2 ^ 8) % 2 ^ 8

unfoldable pub fold_statuses : ℕ → List TestStatus → ℕ
fold_statuses code [] = code
fold_statuses code (s ∷ rest) = fold_statuses (add_status code s) rest

abbrev pub has_bit : ℕ → TestStatus → Bool
has_bit code s = not (bit_and code (mask s % 2 ^ 8) == 0)

-- The ladder of tests on the accumulated mask.
unfoldable pub decode_statuses : ℕ → SubmissionStatus
decode_statuses code =
    if code == mask accepted % 2 ^ 8
    then ac
    else if has_bit code wrong_answer
    then wa
    else if has_bit code memory_limit_exceeded
    then mle
    else if has_bit code time_limit_exceeded
    then tle
    else if has_bit code internal_error
    then ie
    else re

-- JudgeResult::setStatus, as the status that it stores for the results.
unfoldable pub set_status : List TestStatus → SubmissionStatus
set_status [] = ce
set_status (s ∷ rest) = decode_statuses (fold_statuses 0 (s ∷ rest))
