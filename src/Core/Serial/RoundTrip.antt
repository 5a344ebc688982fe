-- ===== src/Core/Serial/RoundTrip.antt =====
-- What is written by `toJson` is read back by `fromJson` (core/src/Types.cpp).
use oj_backend.Prelude.{zero, suc, true, ℤ, pos, ◌≡◌, ◌<◌, refl, u32_mod}
use oj_backend.Exceptions.Result.{Error, ok, err}
use oj_backend.Core.Enums.{
  DifficultyLevel, LangId, difficulty_to_string, string_to_difficulty, lang_of_int, lang_to_int,
}
use oj_backend.Core.Types.{
  TestCaseInfo, ProblemInfo, UserInfo, LimitsInfo, ProblemLimitsInfo, SubmissionInfo,
}
use oj_backend.Core.Json.{JsonLib, JsonLaws, fits_int}
use oj_backend.Core.Serial.{
  user_to_json, user_from_json, problem_to_json, problem_from_json, test_case_to_json,
  test_case_from_json, submission_to_json, submission_from_json, limits_to_json, limits_from_json,
  problem_limits_to_json, problem_limits_from_json,
}

string_to_difficulty-to_string :
    (d : DifficultyLevel) → string_to_difficulty (difficulty_to_string d) ≡ ok d
unfolding string_to_difficulty difficulty_to_string
string_to_difficulty-to_string DifficultyLevel.beginner = refl
string_to_difficulty-to_string _ = refl

to_int-lang_of_int : (n : ℤ) → lang_to_int (lang_of_int n) ≡ n
unfolding lang_to_int lang_of_int
to_int-lang_of_int (pos zero) = refl
to_int-lang_of_int (pos (suc zero)) = refl
to_int-lang_of_int (pos (suc (suc zero))) = refl
to_int-lang_of_int _ = refl

lang_of_int-to_int : (l : LangId) (n : ℤ) → l ≡ lang_of_int n → lang_of_int (lang_to_int l) ≡ l
lang_of_int-to_int l n e = rw (e, to_int-lang_of_int n)

lang_fits :
    (l : LangId) (n : ℤ) → l ≡ lang_of_int n → fits_int n ≡ true → fits_int (lang_to_int l) ≡ true
lang_fits l n e f = rw (e, to_int-lang_of_int n) f

module _ {F : Type 0} (J : JsonLib F) (laws : JsonLaws J) where
  -- What toJson writes for a user is what fromJson reads.
  pub user_round_trip : (u : UserInfo) → user_from_json J (user_to_json J u) ≡ ok u
  unfolding user_from_json user_to_json
  user_round_trip u = simp (laws.find-object, laws.get_string-str)

  -- fromJson of what toJson writes for a problem throws, for every problem: the author is written
  -- under "author_uuid" and looked up under "username".
  pub problem_no_round_trip :
      (p : ProblemInfo) → problem_from_json J (problem_to_json J p) ≡ err (Error.json "username")
  unfolding problem_from_json problem_to_json
  problem_no_round_trip p = simp (laws.find-object)

  -- What toJson writes for a test case is what fromJson reads; its number is a `uint32_t`.
  pub test_case_round_trip :
      (t : TestCaseInfo)
      → t.sequence < u32_mod
      → test_case_from_json J (test_case_to_json J t) ≡ ok t
  unfolding test_case_from_json test_case_to_json
  test_case_round_trip t h =
      simp (laws.find-object, laws.get_string-str) (rw (laws.get_uint-unsigned t.sequence h))

  pub limits_round_trip :
      (l : LimitsInfo F)
      → l.memory_limit_kb < u32_mod
      → l.stack_limit_kb < u32_mod
      → limits_from_json J (limits_to_json J l) ≡ ok l
  unfolding limits_from_json limits_to_json
  limits_round_trip l h k =
      simp (laws.find-object, laws.get_real-real)
        (rw (laws.get_uint-unsigned l.memory_limit_kb h, laws.get_uint-unsigned l.stack_limit_kb k))

  -- What toJson writes for the limits of a problem is what fromJson reads; the two sizes are
  -- `uint32_t`, and the language is any value of `LangID`.
  pub problem_limits_round_trip :
      (p : ProblemLimitsInfo F) (n : ℤ)
      → p.language_id ≡ lang_of_int n
      → fits_int n ≡ true
      → p.memory_limit_kb < u32_mod
      → p.stack_limit_kb < u32_mod
      → problem_limits_from_json J (problem_limits_to_json J p) ≡ ok p
  unfolding problem_limits_from_json problem_limits_to_json limits_from_json
  problem_limits_round_trip p n e f h k =
      simp (laws.find-object, laws.get_string-str, laws.get_real-real)
        (rw (
          laws.get_int-integer (lang_to_int p.language_id) (lang_fits p.language_id n e f),
          laws.get_uint-unsigned p.memory_limit_kb h,
          laws.get_uint-unsigned p.stack_limit_kb k,
          lang_of_int-to_int p.language_id n e,
        ))

  -- What toJson writes for a submission is what fromJson reads, for any value of `LangID`.
  pub submission_round_trip :
      (s : SubmissionInfo) (n : ℤ)
      → s.language_id ≡ lang_of_int n
      → fits_int n ≡ true
      → submission_from_json J (submission_to_json J s) ≡ ok s
  unfolding submission_from_json submission_to_json
  submission_round_trip s n e f =
      simp (laws.find-object, laws.get_string-str)
        (rw (
          laws.get_int-integer (lang_to_int s.language_id) (lang_fits s.language_id n e f),
          lang_of_int-to_int s.language_id n e,
        ))
