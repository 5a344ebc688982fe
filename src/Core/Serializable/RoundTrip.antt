-- ===== src/Core/Serializable/RoundTrip.antt =====
-- JsonSerializable (core/include/JsonSerializable.hpp): from an object to its text and back.
use oj_backend.Prelude.{String, true, ◌≡◌, refl, sym, none, some, Option, arith}
use oj_backend.Exceptions.Result.{Error, ok}
use oj_backend.Core.Enums.{lang_to_int}
use oj_backend.Core.Json.{JsonLib, JsonLaws, or_throw}
use oj_backend.Core.Serial.{
  user_to_json, problem_to_json, test_case_to_json, limits_to_json, problem_limits_to_json,
  submission_to_json,
}
use oj_backend.Core.Serial.RoundTrip.{
  user_round_trip, problem_no_round_trip, test_case_round_trip, limits_round_trip,
  problem_limits_round_trip, submission_round_trip,
}
use oj_backend.Core.Serializable.{
  Serializable, user_info, problem_info, test_case_info, limits_info, problem_limits_info,
  submission_info, to_json, from_json, to_json_string, from_json_string, IsInRange, read_back,
}

module _ {F : Type 0} (J : JsonLib F) (laws : JsonLaws J) where
  from_json-to_json :
      (i : Serializable F) → IsInRange J i → from_json J i (to_json J i) ≡ read_back i
  unfolding from_json to_json
  from_json-to_json (user_info u) h = rw (user_round_trip J laws u) refl
  from_json-to_json (problem_info p) h = rw (problem_no_round_trip J laws p) refl
  from_json-to_json (test_case_info t) h = rw (test_case_round_trip J laws t h) refl
  from_json-to_json (limits_info l) (_, h, k) = rw (limits_round_trip J laws l h k) refl
  from_json-to_json (problem_limits_info p) (_, h, k, (e, f)) =
      rw (problem_limits_round_trip J laws p (lang_to_int p.language_id) (sym e) f h k) refl
  from_json-to_json (submission_info s) (e, f) =
      rw (submission_round_trip J laws s (lang_to_int s.language_id) (sym e) f) refl

  is_plain-to_json : (i : Serializable F) → IsInRange J i → J.is_plain (to_json J i) ≡ true
  unfolding to_json user_to_json problem_to_json test_case_to_json limits_to_json
      problem_limits_to_json submission_to_json
  is_plain-to_json (user_info u) h = laws.is_plain-object _ (simp laws.is_plain-str)
  is_plain-to_json (problem_info p) h = laws.is_plain-object _ (simp laws.is_plain-str)
  is_plain-to_json (test_case_info t) h =
      laws.is_plain-object _ (simp (laws.is_plain-str, laws.is_plain-unsigned))
  is_plain-to_json (limits_info l) ((t, e, w), _, _) = laws.is_plain-object _ (
      simp laws.is_plain-unsigned
        (rw (laws.is_plain-real _ t, laws.is_plain-real _ e, laws.is_plain-real _ w) refl))
  is_plain-to_json (problem_limits_info p) ((t, e, w), _, _, _) = laws.is_plain-object _ (
      simp (laws.is_plain-unsigned, laws.is_plain-integer, laws.is_plain-str)
        (rw (laws.is_plain-real _ t, laws.is_plain-real _ e, laws.is_plain-real _ w) refl))
  is_plain-to_json (submission_info s) h =
      laws.is_plain-object _ (simp (laws.is_plain-str, laws.is_plain-integer))

  pub dump_text-eq :
      (o : Option String) {text : String} → or_throw (Error.json "dump") o ≡ ok text → o ≡ some text
  dump_text-eq none h = cc
  dump_text-eq (some t) h = ground arith

  -- With the JSON library as documented: the text that toJsonString writes for an object, whose
  -- language is a value of `LangID`, whose sizes and numbers fit `uint32_t`, and whose times are
  -- neither NaN nor infinite, is read by fromJsonString as the same object; only a problem is never read back: its author is written
  -- under "author_uuid" and looked up under "username", so that an exception is thrown.
  pub json_round_trip :
      (i : Serializable F) {text : String}
      → IsInRange J i
      → to_json_string J i ≡ ok text
      → from_json_string J i text ≡ read_back i
  unfolding to_json_string from_json_string
  json_round_trip i {text} h written =
      let dumped = dump_text-eq (J.dump (to_json J i)) written in
      rw (laws.parse-dump (to_json J i) text (is_plain-to_json i h) dumped) (from_json-to_json i h)
