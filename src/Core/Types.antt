-- ===== src/Core/Types.antt =====
-- core/include/Types.hpp: the records that the services pass on. A `float` is a value of the
-- parameter `F`; a `uint32_t` is a number below 2 ^ 32, which is said where it matters.
use oj_backend.Prelude.{ℕ, String}
use oj_backend.Core.Enums.{DifficultyLevel, LangId}

pub record TestCaseInfo : Type 0 where
  pub problem_title : String
  pub stdin_data : String
  pub expected_output : String
  pub sequence : ℕ

pub record ProblemInfo : Type 0 where
  pub username : String
  pub title : String
  pub description : String
  pub difficulty : DifficultyLevel

pub record UserInfo : Type 0 where
  pub user_uuid : String
  pub username : String
  pub password_hash : String
  pub email : String

pub record LimitsInfo (F : Type 0) : Type 0 where
  pub time_limit_s : F
  pub extra_time_s : F
  pub wall_time_s : F
  pub memory_limit_kb : ℕ
  pub stack_limit_kb : ℕ

pub record ProblemLimitsInfo (F : Type 0) : Type 0 where
  pub limits : LimitsInfo F
  pub open limits use *
  pub language_id : LangId
  pub problem_title : String

pub record SubmissionInfo : Type 0 where
  pub username : String
  pub problem_title : String
  pub source_code : String
  pub submission_id : String
  pub language_id : LangId
