-- ===== src/Judge/Commands.antt =====
-- judge/src/compilers/CppCompiler.cpp and judge/src/actuators/PythonActuator.cpp: the command lines
-- and the environment of the processes that the judge starts, and the result of a compilation.
use Prim.Native.String.{◌++◌ as join}
use text.Mathlib.Text.{◌==◌ as str_eq}
use oj_backend.Prelude.{
  ℤ, pos, negsuc, String, Bool, false, List, [], ◌∷◌, ◌++◌, leb, if◌then◌else◌,
}
use oj_backend.Exceptions.Result.{Result, ok, err}
use oj_backend.Exceptions.Files.{
  PathState, check_file_exists, check_file_readable, make_file_exception,
}

-- The arguments of g++.
unfoldable pub compile_args : String → String → String → List String → List String
compile_args gcc source_path output_path additional_flags =
    gcc ∷ "-Wall" ∷ "-Wextra" ∷ "-o" ∷ output_path ∷ source_path ∷ additional_flags

-- The lines that a process wrote, each with its newline.
unfoldable pub compile_message : List String → String
compile_message [] = ""
compile_message (line ∷ rest) = join (join line "\n") (compile_message rest)

-- What the system answers: the compiler that bp::search_path finds (empty if there is none), the
-- state of the source file, and for a command line the lines that are read and the exit code.
pub record CompilerAnswers : Type 0 where
  pub found : String
  pub source : PathState
  pub run : List String → List String × ℤ

abbrev is_exit_zero : ℤ → Bool
is_exit_zero (pos n) = leb n 0
is_exit_zero (negsuc n) = false

abbrev compiled : List String × ℤ → Bool × String
compiled (lines, code) = (is_exit_zero code, compile_message lines)

-- CppCompiler::compile and getCompileMessage. `known` is GCC_COMPILER_PATH, empty at first.
unfoldable pub compile :
    String → CompilerAnswers → String → String → List String → Result (Bool × String)
unfolding compile_args
compile known a source_path output_path additional_flags =
    elim (check_file_exists a.source source_path) [
      | err e ↦ err e
      | ok u ↦ elim (check_file_readable a.source source_path) [
        | err e ↦ err e
        | ok v ↦
            let gcc = if str_eq known "" then a.found else known in
            if str_eq gcc ""
            then err (
                make_file_exception a.source.errno "Failed to find a valid g++ compiler path"
                  "CppCompiler::compile")
            else ok (compiled (a.run (compile_args gcc source_path output_path additional_flags)))
      ]
    ]

-- The settings of section `python3`; the extra arguments are split at commas.
pub record PythonSettings : Type 0 where
  pub interpreter : String
  pub safe_path : String
  pub dont_write_bytecode : String
  pub io_encoding : String
  pub extra_args : List String

abbrev variable : String → String → List (String × String)
variable name value = if str_eq value "" then [] else (name, value) ∷ []

-- PythonActuator::setupLanguageEnv, as the variables that it sets
unfoldable pub setup_language_env : PythonSettings → List (String × String)
setup_language_env s =
    variable "PYTHONSAFEPATH" s.safe_path
    ++ variable "PYTHONDONTWRITEBYTECODE" s.dont_write_bytecode
    ++ variable "PYTHONIOENCODING" s.io_encoding

unfoldable pub without_empty : List String → List String
without_empty [] = []
without_empty (arg ∷ rest) =
    let more = without_empty rest in if str_eq arg "" then more else arg ∷ more

-- PythonActuator::runChildProcess, as the arguments of execv
unfoldable pub python_argv : PythonSettings → String → List String
unfolding without_empty
python_argv s exe_path = s.interpreter ∷ (without_empty s.extra_args ++ exe_path ∷ [])
