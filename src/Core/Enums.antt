-- ===== src/Core/Enums.antt =====
-- core/include/Types.hpp and core/src/Types.cpp: the enumerations and their texts.
use Prim.Native.String.{◌++◌}
use text.Mathlib.Text.{◌==◌}
use oj_backend.Prelude.{zero, suc, String, ℤ, pos, if◌then◌else◌}
use oj_backend.Exceptions.Result.{Result, Error, ok, err}

pub data DifficultyLevel : Type 0 where
  beginner basic intermediate advanced expert : DifficultyLevel

-- `other` holds the values that `static_cast<LangID>` makes of an int that is no enumerator.
pub data LangId : Type 0 where
  unknown cpp python : LangId
  other : ℤ → LangId

-- static_cast<LangID>
unfoldable pub lang_of_int : ℤ → LangId
lang_of_int (pos zero) = unknown
lang_of_int (pos (suc zero)) = cpp
lang_of_int (pos (suc (suc zero))) = python
lang_of_int n = other n

-- static_cast<int>
unfoldable pub lang_to_int : LangId → ℤ
lang_to_int unknown = pos 0
lang_to_int cpp = pos 1
lang_to_int python = pos 2
lang_to_int (other n) = n

unfoldable pub difficulty_to_string : DifficultyLevel → String
difficulty_to_string beginner = "Beginner"
difficulty_to_string basic = "Basic"
difficulty_to_string intermediate = "Intermediate"
difficulty_to_string advanced = "Advanced"
difficulty_to_string expert = "Expert"

unfoldable pub string_to_difficulty : String → Result DifficultyLevel
string_to_difficulty s =
    if s == "Beginner"
    then ok beginner
    else if s == "Basic"
    then ok basic
    else if s == "Intermediate"
    then ok intermediate
    else if s == "Advanced"
    then ok advanced
    else if s == "Expert"
    then ok expert
    else err (Error.out_of_range ("unexpected difficulty level: " ++ s))

unfoldable pub language_id_to_string : LangId → String
language_id_to_string cpp = "C++"
language_id_to_string python = "Python"
language_id_to_string _ = "unknown"

unfoldable pub get_file_extension : LangId → String
get_file_extension cpp = ".cpp"
get_file_extension python = ".py"
get_file_extension _ = ""
