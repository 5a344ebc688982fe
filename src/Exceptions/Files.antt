-- ===== src/Exceptions/Files.antt =====
-- The checks of exceptions/src/FileException.cpp. What the file system says of a path is an
-- argument.
pub mod Executable
use Prim.Native.String.{◌++◌, find}
use text.Mathlib.Text.{◌==◌ as str_eq}
use oj_backend.Prelude.{
  ℕ, ◌/◌, ◌%◌, ℤ, pos, negsuc, String, Bool, true, false, not, ◌&&◌, ◌||◌, Option, none, some, List,
  [], ◌∷◌, ◌==◌, if◌then◌else◌,
}
use oj_backend.Exceptions.Result.{
  Result, Error, ok, err, FileError, file_not_found, permission_denied, read_error, write_error,
  already_exists, unknown_error,
}

-- One path, as the checks see it: `status_error` is the code that fs::status reports, `header` the
-- first bytes, as far as they are there. No call throws an fs::filesystem_error.
pub record PathState : Type 0 where
  pub exists : Bool
  pub is_directory : Bool
  pub owner_read : Bool
  pub owner_write : Bool
  pub owner_exec : Bool
  pub status_error : Option ℤ
  pub opens : Bool
  pub header : List ℕ
  pub accessible : Bool
  pub errno : ℤ
  pub is_root : Bool

abbrev pub is_code : ℤ → ℕ → Bool
is_code (pos n) k = n == k
is_code (negsuc n) k = false

abbrev file_error : FileError → String → String → ℤ → Error
file_error type path message code = Error.file type path message code

-- The type and the text that makeFileException chooses; ENOENT, EACCES, EEXIST and EIO are 2, 13,
-- 17 and 5.
unfoldable pub make_file_exception : ℤ → String → String → Error
make_file_exception code path operation =
    if is_code code 2
    then file_error file_not_found path "File not found" code
    else if is_code code 13
    then file_error permission_denied path "Permission denied" code
    else if is_code code 17
    then file_error already_exists path "File already exists" code
    else if is_code code 5
    then file_error
        (if str_eq operation "read"
          then read_error
          else if str_eq operation "write"
          then write_error
          else unknown_error)
        path "I/O error occurred" code
    else file_error unknown_error path "Unknown file operation error" code

-- path.find(sp) == 0 for one of the two
unfoldable pub is_special_path : String → Bool
is_special_path path = find path "/proc" == 0 || find path "/sys" == 0

unfoldable pub check_file_exists : PathState → String → Result (Unit {0})
check_file_exists s path =
    if not s.exists
    then err (file_error file_not_found path "File or directory does not exist" (pos 0))
    else ok tt

abbrev pub is_exempt : PathState → String → Bool
is_exempt s path = s.is_root && is_special_path path

abbrev read_check : PathState → String → Option ℤ → Result (Unit {0})
read_check s path (some code) =
    err (file_error unknown_error path "Failed to check file status" code)
read_check s path none =
    if not s.owner_read
    then err (file_error permission_denied path "No read permission for file" (pos 0))
    else ok tt

-- checkFileReadable
unfoldable pub check_file_readable : PathState → String → Result (Unit {0})
unfolding check_file_exists
check_file_readable s path = elim (check_file_exists s path) [
  | err e ↦ err e
  | ok u ↦ if is_exempt s path then ok tt else read_check s path s.status_error
]

abbrev status_failed : Option ℤ → Option ℤ
status_failed none = none
status_failed (some code) = if is_code code 2 then none else some code

-- checkFileWritable
unfoldable pub check_file_writable : PathState → String → Result (Unit {0})
check_file_writable s path = elim (status_failed s.status_error) [
  | some code ↦ err (file_error file_not_found path "Failed to check file status" code)
  | none ↦
      if is_exempt s path
      then ok tt
      else if s.exists && not s.owner_write
      then err (
          file_error permission_denied path
            ("No write permission for " ++ (if s.is_directory then "directory" else "file"))
            (pos 0))
      else ok tt
]

-- Whether the first bytes are those of ELF, PE or a script; missing bytes are zero.
unfoldable pub has_signature : List ℕ → Bool
has_signature (a ∷ b ∷ c ∷ d ∷ rest) =
    (a == 0x7F && (b == 69 && (c == 76 && d == 70)))
    || ((a == 77 && b == 90) || (a == 35 && b == 33))
has_signature (a ∷ b ∷ rest) = (a == 77 && b == 90) || (a == 35 && b == 33)
has_signature _ = false

-- checkFileExecutable
unfoldable pub check_file_executable : PathState → String → Result (Unit {0})
unfolding check_file_exists has_signature make_file_exception
check_file_executable s path = elim (check_file_exists s path) [
  | err e ↦ err e
  | ok u ↦
      if is_exempt s path
      then ok tt
      else if s.is_directory
      then (if not s.owner_exec
          then err (
              file_error permission_denied path "Directory is not executable (cannot be accessed)"
                (pos 0))
          else ok tt)
      else if s.owner_exec
      then ok tt
      else if not s.opens
      then err (make_file_exception s.errno path "open for execution check")
      else if has_signature s.header
      then ok tt
      else err (
          file_error permission_denied path
            "File is not executable and lacks executable format signature" (pos 0))
]

-- A bit of the mode: R_OK is 4, W_OK is 2, X_OK is 1.
abbrev has_mode : ℕ → ℕ → Bool
has_mode mode bit = not (mode / bit % 2 == 0)

abbrev joined_with : String → String → String
joined_with operation word = operation ++ (if str_eq operation "" then "" else "/") ++ word

abbrev mode_text : ℕ → String
mode_text mode =
    let r = if has_mode mode 4 then "read" else "" in
    let w = if has_mode mode 2 then joined_with r "write" else r in
    if has_mode mode 1 then joined_with w "execute" else w

-- checkFileAccessible
unfoldable pub check_file_accessible : PathState → String → ℕ → Result (Unit {0})
unfolding check_file_exists make_file_exception
check_file_accessible s path mode = elim (check_file_exists s path) [
  | err e ↦ err e
  | ok u ↦
      if is_exempt s path
      then ok tt
      else if not s.accessible
      then err (make_file_exception s.errno path (mode_text mode ++ " access"))
      else ok tt
]
