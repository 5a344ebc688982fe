-- ===== src/Exceptions/Texts.antt =====
-- The texts of the exceptions: exceptions/src/ParameterException.cpp,
-- exceptions/src/FileException.cpp and exceptions/src/SystemException.cpp. strerror is an argument.
use Prim.Native.String.{◌++◌}
use text.Mathlib.Text.{◌==◌ as str_eq}
use oj_backend.Prelude.{ℤ, pos, negsuc, String, int_to_string, if◌then◌else◌, leb}
use oj_backend.Exceptions.Result.{
  ParameterError, missing_param, out_of_range, empty_param, value_error, other_error, FileError,
  file_not_found, permission_denied, open_failed, read_error, write_error, seek_error,
  already_exists, invalid_operation, unknown_error,
}

abbrev or_nothing : String → String → String
or_nothing s text = if str_eq s "" then "" else text

-- ParameterException::generateMessage
unfoldable pub generate_message : ParameterError → String → String → String
generate_message missing_param name info = "Missing required parameter: " ++ name
generate_message out_of_range name info =
    "Parameter out of range: " ++ name ++ or_nothing info (" (" ++ info ++ ")")
generate_message empty_param name info = "Parameter cannot be empty: " ++ name
generate_message other_error name info =
    "Parameter error: " ++ name ++ or_nothing info (" - " ++ info)
generate_message value_error name info = "Invalid parameter value: " ++ name

-- FileException::errorTypeToString
unfoldable pub error_type_to_string : FileError → String
error_type_to_string file_not_found = "File not found"
error_type_to_string permission_denied = "Permission denied"
error_type_to_string open_failed = "Open failed"
error_type_to_string read_error = "Read error"
error_type_to_string write_error = "Write error"
error_type_to_string seek_error = "Seek error"
error_type_to_string already_exists = "File already exists"
error_type_to_string invalid_operation = "Invalid operation"
error_type_to_string unknown_error = "Unknown error"

abbrev code_text : ℤ → String
code_text (pos n) = if leb n 0 then "" else "\nSystem error code: " ++ int_to_string (pos n)
code_text (negsuc n) = "\nSystem error code: " ++ int_to_string (negsuc n)

-- FileException::what
unfoldable pub file_what : FileError → String → String → ℤ → String
unfolding error_type_to_string
file_what type path message code =
    message ++ "\nError type: " ++ error_type_to_string type ++ "\nPath: " ++ path ++ code_text code

-- SystemException::SystemException
unfoldable pub system_what : (ℤ → String) → ℤ → String → String
system_what strerror code operation =
    "SystemException: ["
    ++ int_to_string code
    ++ "] "
    ++ strerror code
    ++ or_nothing operation (" - Operation: " ++ operation)
