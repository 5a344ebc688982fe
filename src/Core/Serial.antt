-- ===== src/Core/Serial.antt =====
-- core/src/Types.cpp: `toJson` and `fromJson` of the records.
pub mod RoundTrip
use oj_backend.Prelude.{ℕ, String, ℤ, List, [], ◌∷◌, ◌++◌}
use oj_backend.Exceptions.Result.{Result, ok, err, ◌>>=◌}
use oj_backend.Core.Enums.{difficulty_to_string, string_to_difficulty, lang_of_int, lang_to_int}
use oj_backend.Core.Types.{
  TestCaseInfo, ProblemInfo, UserInfo, LimitsInfo, ProblemLimitsInfo, SubmissionInfo,
}
use oj_backend.Core.Json.{JsonLib, at_string, at_int, at_uint, at_real}

module _ {F : Type 0} (J : JsonLib F) where
  open J use {Json, str, integer, unsigned, real, object}

  -- UserInfo::toJson
  unfoldable pub user_to_json : UserInfo → Json
  user_to_json u = object (
      ("user_uuid", str u.user_uuid)
      ∷ ("username", str u.username)
      ∷ ("password_hash", str u.password_hash)
      ∷ ("email", str u.email)
      ∷ [])

  -- UserInfo::fromJson
  unfoldable pub user_from_json : Json → Result UserInfo
  user_from_json j = do
    user_uuid ← at_string J j "user_uuid"
    username ← at_string J j "username"
    password_hash ← at_string J j "password_hash"
    email ← at_string J j "email"
    ok (record {
      user_uuid = user_uuid;
      username = username;
      password_hash = password_hash;
      email = email;
    })

  -- ProblemInfo::toJson
  unfoldable pub problem_to_json : ProblemInfo → Json
  problem_to_json p = object (
      ("author_uuid", str p.username)
      ∷ ("title", str p.title)
      ∷ ("description", str p.description)
      ∷ ("difficulty", str (difficulty_to_string p.difficulty))
      ∷ [])

  -- ProblemInfo::fromJson
  unfoldable pub problem_from_json : Json → Result ProblemInfo
  problem_from_json j = do
    username ← at_string J j "username"
    title ← at_string J j "title"
    description ← at_string J j "description"
    name ← at_string J j "difficulty"
    difficulty ← string_to_difficulty name
    ok (record {
      username = username;
      title = title;
      description = description;
      difficulty = difficulty;
    })

  -- TestCaseInfo::toJson
  unfoldable pub test_case_to_json : TestCaseInfo → Json
  test_case_to_json t = object (
      ("problem_title", str t.problem_title)
      ∷ ("stdin_data", str t.stdin_data)
      ∷ ("expected_output", str t.expected_output)
      ∷ ("sequence", unsigned t.sequence)
      ∷ [])

  -- TestCaseInfo::fromJson
  unfoldable pub test_case_from_json : Json → Result TestCaseInfo
  test_case_from_json j = do
    problem_title ← at_string J j "problem_title"
    stdin_data ← at_string J j "stdin_data"
    expected_output ← at_string J j "expected_output"
    sequence ← at_uint J j "sequence"
    ok (record {
      problem_title = problem_title;
      stdin_data = stdin_data;
      expected_output = expected_output;
      sequence = sequence;
    })

  abbrev limits_fields : LimitsInfo F → List (String × Json)
  limits_fields l =
      ("time_limit_s", real l.time_limit_s)
      ∷ ("extra_time_s", real l.extra_time_s)
      ∷ ("wall_time_s", real l.wall_time_s)
      ∷ ("memory_limit_kb", unsigned l.memory_limit_kb)
      ∷ ("stack_limit_kb", unsigned l.stack_limit_kb)
      ∷ []

  -- LimitsInfo::toJson
  unfoldable pub limits_to_json : LimitsInfo F → Json
  limits_to_json l = object (limits_fields l)

  -- LimitsInfo::fromJson
  unfoldable pub limits_from_json : Json → Result (LimitsInfo F)
  limits_from_json j = do
    time_limit_s ← at_real J j "time_limit_s"
    extra_time_s ← at_real J j "extra_time_s"
    wall_time_s ← at_real J j "wall_time_s"
    memory_limit_kb ← at_uint J j "memory_limit_kb"
    stack_limit_kb ← at_uint J j "stack_limit_kb"
    ok (record {
      time_limit_s = time_limit_s;
      extra_time_s = extra_time_s;
      wall_time_s = wall_time_s;
      memory_limit_kb = memory_limit_kb;
      stack_limit_kb = stack_limit_kb;
    })

  -- ProblemLimitsInfo::toJson, where `j[key] = value` adds a field
  unfoldable pub problem_limits_to_json : ProblemLimitsInfo F → Json
  problem_limits_to_json p = object (
      limits_fields p.limits
      ++ ("language_id", integer (lang_to_int p.language_id))
        ∷ ("problem_title", str p.problem_title)
        ∷ [])

  -- ProblemLimitsInfo::fromJson
  unfoldable pub problem_limits_from_json : Json → Result (ProblemLimitsInfo F)
  problem_limits_from_json j = do
    language ← at_int J j "language_id"
    problem_title ← at_string J j "problem_title"
    limits ← limits_from_json j
    ok (record {
      limits = limits;
      language_id = lang_of_int language;
      problem_title = problem_title;
    })

  -- SubmissionInfo::toJson
  unfoldable pub submission_to_json : SubmissionInfo → Json
  submission_to_json s = object (
      ("username", str s.username)
      ∷ ("problem_title", str s.problem_title)
      ∷ ("source_code", str s.source_code)
      ∷ ("submission_id", str s.submission_id)
      ∷ ("language", integer (lang_to_int s.language_id))
      ∷ [])

  -- SubmissionInfo::fromJson
  unfoldable pub submission_from_json : Json → Result SubmissionInfo
  submission_from_json j = do
    username ← at_string J j "username"
    problem_title ← at_string J j "problem_title"
    source_code ← at_string J j "source_code"
    submission_id ← at_string J j "submission_id"
    language ← at_int J j "language"
    ok (record {
      username = username;
      problem_title = problem_title;
      source_code = source_code;
      submission_id = submission_id;
      language_id = lang_of_int language;
    })
