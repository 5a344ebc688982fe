-- ===== src/Judge/Judger.antt =====
-- judge/src/Judger.cpp. A path is the list of its components; the compiler and the actuator that a
-- judger calls are arguments.
use text.Mathlib.Text.{◌==◌ as str_eq}
use oj_backend.Prelude.{
  String, Bool, true, false, not, ◌&&◌, Option, none, some, List, [], ◌∷◌, ◌++◌, ◌==◌,
  if◌then◌else◌,
}
use oj_backend.Exceptions.Result.{Result, Error, ok, err, ◌>>=◌}
use oj_backend.Core.Enums.{LangId, cpp, python}
use oj_backend.Core.Types.{LimitsInfo}
use oj_backend.Judge.Status.{TestResult, unknown, accepted, wrong_answer, compilation_error}
use oj_backend.Judge.Monitor.{Bytes, ExecutionResult}
use oj_backend.Judge.Outcome.{fresh_result}

abbrev pub FilePath : Type 0
FilePath = List String

-- fs::path::parent_path
abbrev pub parent_path : FilePath → FilePath
parent_path [] = []
parent_path (x ∷ []) = []
parent_path (x ∷ y ∷ rest) = x ∷ parent_path (y ∷ rest)

pub data ActuatorKind : Type 0 where
  cpp_actuator python_actuator : ActuatorKind

-- The members; of m_CompilerPtr only whether it is set counts after the constructor.
pub record Judger (F : Type 0) : Type 0 where
  pub has_compiler : Bool
  pub actuator : ActuatorKind
  pub executable_path : FilePath
  pub compile_error : String
  pub limits : LimitsInfo F

-- CppCompiler::compile and getCompileMessage: the source, the output and the flags
abbrev pub Compile : Type 0
Compile = FilePath → FilePath → List String → Result (Bool × String)

-- Actuator::execute
abbrev pub Execute : Type 0 → Type 0
Execute F = ActuatorKind → FilePath → LimitsInfo F → Bytes → Result ExecutionResult

module _ {F : Type 0} where
  -- Judger::Judger
  unfoldable pub make_judger : Compile → LangId → FilePath → LimitsInfo F → Result (Judger F)
  make_judger compile cpp source limits = do
    let executable = parent_path source ++ "main" ∷ []
    (done, message) ← compile source executable ("-std=c++20" ∷ "-O2" ∷ [])
    ok (record {
      has_compiler = true;
      actuator = cpp_actuator;
      executable_path = executable;
      compile_error = if done then "" else message;
      limits = limits;
    })
  make_judger compile python source limits = ok (record {
    has_compiler = false;
    actuator = python_actuator;
    executable_path = source;
    compile_error = "";
    limits = limits;
  })
  make_judger compile _ source limits = err (Error.runtime "Unknown or unsupported Language.")

  -- Judger::getCompileError
  unfoldable pub get_compile_error : Judger F → Option String
  get_compile_error j = if not (str_eq j.compile_error "") then some j.compile_error else none

-- `back() == '\n'` and `pop_back()`; `none`: the text is empty, and `back()` is undefined.
unfoldable pub strip_newline : Bytes → Option Bytes
strip_newline [] = none
strip_newline (c ∷ []) = if c == 10 then some [] else some (c ∷ [])
strip_newline (c ∷ d ∷ rest) = elim (strip_newline (d ∷ rest)) [
  | none ↦ none
  | some l ↦ some (c ∷ l)
]

abbrev pub bytes_eq : Bytes → Bytes → Bool
bytes_eq [] [] = true
bytes_eq (a ∷ r) (b ∷ s) = a == b && bytes_eq r s
bytes_eq _ _ = false

-- The last part of Judger::judge: the output is compared if the execution left the status open.
unfoldable pub compare_output : TestResult → Option Bytes → Bytes → Option TestResult
compare_output result none expected = none
compare_output result (some out) expected =
    some (record result { status = if bytes_eq out expected then accepted else wrong_answer })

unfoldable pub decide : ExecutionResult → Bytes → Option TestResult
decide r expected = elim r.test_result.status [
  | unknown ↦ compare_output r.test_result (strip_newline r.stdout) expected
  | _ ↦ some r.test_result
]

-- `none` is undefined behaviour.
unfoldable pub after_execution : Result ExecutionResult → Bytes → Option (Result TestResult)
after_execution (err e) expected = some (err e)
after_execution (ok r) expected = elim (decide r expected) [ none ↦ none | some t ↦ some (ok t) ]

abbrev pub is_some {ℓ} : {A : Type ℓ} → Option A → Bool
is_some none = false
is_some (some a) = true

module _ {F : Type 0} where
  -- Judger::judge
  unfoldable pub judge : Execute F → Judger F → Bytes → Bytes → Option (Result TestResult)
  unfolding get_compile_error
  judge execute j stdin_data expected =
      if not j.has_compiler && is_some (get_compile_error j)
      then some (ok (record fresh_result { status = compilation_error }))
      else after_execution (execute j.actuator j.executable_path j.limits stdin_data) expected
