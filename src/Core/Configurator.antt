-- ===== src/Core/Configurator.antt =====
-- core/include/Configurator.hpp and core/src/Configurator.cpp: the values of a configuration file,
-- read with the INI library, which is an argument.
use oj_backend.Prelude.{
  ℕ, ℤ, pos, negsuc, to_int32, u32_mod, ◌%◌, ◌^◌, ◌-◌, ◌≡◌, refl, String, Bool, true, false, not,
  leb, if◌then◌else◌,
}
use oj_backend.Exceptions.Result.{Result, ok, err, ◌>>=◌}
use oj_backend.Exceptions.Files.{
  PathState, check_file_exists, check_file_readable, make_file_exception,
}

-- INIReader of one file: the error of the parser, and the readers, each with a section, a key and
-- the value that it returns for a key that is not there or not of its kind.
pub record IniReader (F : Type 0) : Type 0 where
  pub parse_error : ℤ
  pub get_integer : String → String → ℤ → ℤ
  pub get_string : String → String → String → String
  pub get_real : String → String → F → F
  pub get_boolean : String → String → Bool → Bool

pub record Configurator (F : Type 0) : Type 0 where
  pub reader : IniReader F
  pub conf_file_path : String

-- A value of a type that `get` takes.
pub data IniValue (F : Type 0) : Type 0 where
  int_value : ℤ → IniValue F
  string_value : String → IniValue F
  real_value : F → IniValue F
  bool_value : Bool → IniValue F
  uint16_value size_value : ℕ → IniValue F

abbrev is_negative : ℤ → Bool
is_negative (pos n) = false
is_negative (negsuc n) = true

-- `long` to `int`, and to and from `bool`
abbrev pub narrow : ℤ → ℤ
narrow (pos n) = to_int32 n
narrow (negsuc n) = to_int32 (u32_mod - 1 - n % u32_mod)

-- `long` to an unsigned type of `modulus` values
abbrev pub to_unsigned : ℕ → ℤ → ℕ
to_unsigned modulus (pos n) = n % modulus
to_unsigned modulus (negsuc n) = modulus - 1 - n % modulus

abbrev pub of_bool : Bool → ℤ
of_bool true = pos 1
of_bool false = pos 0

abbrev pub to_bool : ℤ → Bool
to_bool (pos n) = not (leb n 0)
to_bool (negsuc n) = true

module _ {F : Type 0} where
  -- Configurator::Configurator; `read` is what the library makes of the file.
  unfoldable pub make_configurator : PathState → IniReader F → String → Result (Configurator F)
  unfolding check_file_exists check_file_readable make_file_exception
  make_configurator state read path = do
    _ ← check_file_exists state path
    _ ← check_file_readable state path
    if is_negative read.parse_error
        then err (
            make_file_exception state.errno path
              "Read config and construct Configurator instance failed")
        else ok (record { reader = read; conf_file_path = path })

  -- Configurator::get, by the type of the default value. `bool` is an integral type, so that it is
  -- read by the first branch.
  unfoldable pub get : Configurator F → String → String → IniValue F → IniValue F
  get c section key (int_value d) = int_value (narrow (c.reader.get_integer section key d))
  get c section key (bool_value d) =
      bool_value (to_bool (c.reader.get_integer section key (of_bool d)))
  get c section key (uint16_value d) =
      uint16_value (to_unsigned (2 ^ 16) (c.reader.get_integer section key (pos d)))
  get c section key (size_value d) =
      size_value (to_unsigned (2 ^ 64) (c.reader.get_integer section key (pos d)))
  get c section key (string_value d) = string_value (c.reader.get_string section key d)
  get c section key (real_value d) = real_value (c.reader.get_real section key d)

  -- No value depends on how the library reads Booleans: the branch for `bool` is never taken.
  pub get_no_boolean :
      (c : Configurator F) (other : String → String → Bool → Bool) (section key : String)
      (d : IniValue F)
      → get (record c { reader = record (c.reader) { get_boolean = other } }) section key d
        ≡ get c section key d
  unfolding get
  get_no_boolean c other section key (int_value d) = refl
  get_no_boolean c other section key (bool_value d) = refl
  get_no_boolean c other section key (string_value d) = refl
  get_no_boolean c other section key (real_value d) = refl
  get_no_boolean c other section key (uint16_value d) = refl
  get_no_boolean c other section key (size_value d) = refl
