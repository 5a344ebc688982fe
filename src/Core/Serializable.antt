-- ===== src/Core/Serializable.antt =====
-- core/include/JsonSerializable.hpp: toJson and fromJson as the methods of one interface, with the
-- classes of core/include/Types.hpp that implement it, and the two functions on texts.
pub mod RoundTrip
use oj_backend.Prelude.{ℕ, String, ◌<◌, ◌≡◌, true, u32_mod}
use oj_backend.Exceptions.Result.{Result, Error, ok, err, ◌>>=◌}
use oj_backend.Core.Enums.{LangId, lang_of_int, lang_to_int}
use oj_backend.Core.Types.{
  TestCaseInfo, ProblemInfo, UserInfo, LimitsInfo, ProblemLimitsInfo, SubmissionInfo,
}
use oj_backend.Core.Json.{JsonLib, fits_int, dump_text, parse_text}
use oj_backend.Core.Serial.{
  user_to_json, user_from_json, problem_to_json, problem_from_json, test_case_to_json,
  test_case_from_json, submission_to_json, submission_from_json, limits_to_json, limits_from_json,
  problem_limits_to_json, problem_limits_from_json,
}

-- A JsonSerializable, by its class.
pub data Serializable (F : Type 0) : Type 0 where
  user_info : UserInfo → Serializable F
  problem_info : ProblemInfo → Serializable F
  test_case_info : TestCaseInfo → Serializable F
  limits_info : LimitsInfo F → Serializable F
  problem_limits_info : ProblemLimitsInfo F → Serializable F
  submission_info : SubmissionInfo → Serializable F

module _ {F : Type 0} (J : JsonLib F) where
  -- JsonSerializable::toJson
  unfoldable pub to_json : Serializable F → J.Json
  to_json (user_info u) = user_to_json J u
  to_json (problem_info p) = problem_to_json J p
  to_json (test_case_info t) = test_case_to_json J t
  to_json (limits_info l) = limits_to_json J l
  to_json (problem_limits_info p) = problem_limits_to_json J p
  to_json (submission_info s) = submission_to_json J s

  -- JsonSerializable::fromJson, as the object that is left
  unfoldable pub from_json : Serializable F → J.Json → Result (Serializable F)
  from_json (user_info _) j = do u ← user_from_json J j; ok (user_info u)
  from_json (problem_info _) j = do p ← problem_from_json J j; ok (problem_info p)
  from_json (test_case_info _) j = do t ← test_case_from_json J j; ok (test_case_info t)
  from_json (limits_info _) j = do l ← limits_from_json J j; ok (limits_info l)
  from_json (problem_limits_info _) j = do
    p ← problem_limits_from_json J j
    ok (problem_limits_info p)
  from_json (submission_info _) j = do s ← submission_from_json J j; ok (submission_info s)

  -- JsonSerializable::toJsonString
  unfoldable pub to_json_string : Serializable F → Result String
  unfolding to_json
  to_json_string i = dump_text J (to_json i)

  -- JsonSerializable::fromJsonString
  unfoldable pub from_json_string : Serializable F → String → Result (Serializable F)
  unfolding from_json
  from_json_string i text = do j ← parse_text J text; from_json i j

-- A value of `LangID`, whose type is `int`; the fields of 32 bits; and numbers that are neither NaN
-- nor infinite.
abbrev pub IsLang : LangId → Type 0
IsLang l = (lang_of_int (lang_to_int l) ≡ l) × (fits_int (lang_to_int l) ≡ true)

abbrev pub IsFinite : {F : Type 0} → JsonLib F → LimitsInfo F → Type 0
IsFinite J l =
    (J.is_finite l.time_limit_s ≡ true)
    × (J.is_finite l.extra_time_s ≡ true)
    × (J.is_finite l.wall_time_s ≡ true)

abbrev pub IsInRange : {F : Type 0} → JsonLib F → Serializable F → Type 0
IsInRange J (user_info _) = Unit
IsInRange J (problem_info _) = Unit
IsInRange J (test_case_info t) = t.sequence < u32_mod
IsInRange J (limits_info l) =
    IsFinite J l × (l.memory_limit_kb < u32_mod) × (l.stack_limit_kb < u32_mod)
IsInRange J (problem_limits_info p) =
    IsFinite J p.limits
    × (p.memory_limit_kb < u32_mod)
    × (p.stack_limit_kb < u32_mod)
    × IsLang p.language_id
IsInRange J (submission_info s) = IsLang s.language_id

-- What fromJson makes of what toJson wrote.
abbrev pub read_back : {F : Type 0} → Serializable F → Result (Serializable F)
read_back (problem_info _) = err (Error.json "username")
read_back i = ok i
