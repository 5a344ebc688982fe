-- ===== src/Exceptions/Result.antt =====
-- What a call returns or throws. The exceptions are told apart the way the handlers of the program
-- tell them apart.
use oj_backend.Prelude.{String, ℤ}

-- exceptions/include/ParameterException.hpp
pub data ParameterError : Type 0 where
  missing_param out_of_range empty_param value_error other_error : ParameterError

-- exceptions/include/FileException.hpp
pub data FileError : Type 0 where
  file_not_found permission_denied open_failed read_error write_error : FileError
  seek_error already_exists invalid_operation unknown_error : FileError

pub data Error : Type 0 where
  -- ParameterException(type, paramName, extraInfo)
  parameter : ParameterError → String → String → Error
  -- FileException(type, path, message, errorCode)
  file : FileError → String → String → ℤ → Error
  -- SystemException(errorCode, operation)
  system : ℤ → String → Error
  -- nlohmann::json::exception
  json : String → Error
  -- sql::SQLException, with its error code
  sql : ℤ → String → Error
  -- sw::redis::Error
  redis : String → Error
  -- std::out_of_range
  out_of_range : String → Error
  -- std::runtime_error and the other standard exceptions
  runtime : String → Error
  -- undefined behaviour, such as a call through a null pointer: no exception, so nothing catches it
  undefined : String → Error

pub data Result {ℓ} (A : Type ℓ) : Type ℓ where
  err : Error → Result A
  ok : A → Result A

module _ {ℓ κ} {A : Type ℓ} {B : Type κ} where
  -- An exception leaves the rest of the block undone.
  infixl 5 ◌>>=◌
  abbrev pub ◌>>=◌ : Result A → (A → Result B) → Result B
  ◌>>=◌ r rest = elim r [ err thrown ↦ err thrown | ok value ↦ rest value ]

module _ {ℓ} {B : Type ℓ} where
  abbrev pub ◌>>◌ : Result (Unit {0}) → Result B → Result B
  ◌>>◌ (err thrown) rest = err thrown
  ◌>>◌ (ok _) rest = rest
