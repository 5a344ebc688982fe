-- ===== src/Judge/Comparison.antt =====
-- Judger::judge (judge/src/Judger.cpp): when a program is accepted, and what the constructor makes
-- of the guard for compile errors.
use oj_backend.Prelude.{
  ℕ, ◌≡◌, ◌≢◌, ◌↔◌, refl, sym, subst, ◌∙◌, ◌⊎◌, inl, inr, true, Option, none, some, [], ◌∷◌, ◌++◌,
  ◌==◌, arith, Option-cases, eq_iff, Bool-cases,
}
use oj_backend.Exceptions.Result.{ok}
use oj_backend.Core.Enums.{LangId, cpp, python}
use oj_backend.Core.Types.{LimitsInfo}
use oj_backend.Judge.Status.{TestResult, unknown, accepted}
use oj_backend.Judge.Monitor.{Bytes, ExecutionResult}
use oj_backend.Judge.Judger.{
  Judger, FilePath, Compile, Execute, make_judger, strip_newline, bytes_eq, compare_output, decide,
  after_execution, judge,
}

bytes_eq_iff : (a b : Bytes) → (bytes_eq a b ≡ true) ↔ (a ≡ b)
bytes_eq_iff [] [] = (λ _. refl, λ _. refl)
bytes_eq_iff [] (y ∷ b) = (λ h. cc, λ h. cc)
bytes_eq_iff (x ∷ a) [] = (λ h. cc, λ h. cc)
bytes_eq_iff (x ∷ a) (y ∷ b) =
    let (f, g) = bytes_eq_iff a b in (λ h. ground (arith, f), λ h. ground (arith, g))

-- The text does not end with a newline, and is not empty.
abbrev pub HasOpenEnd : Bytes → Type 0
HasOpenEnd [] = ⊥
HasOpenEnd (c ∷ []) = c ≢ 10
HasOpenEnd (c ∷ d ∷ rest) = HasOpenEnd (d ∷ rest)

-- The text is `e`, with one newline behind it or none.
abbrev pub IsLine : Bytes → Bytes → Type 0
IsLine text e = (text ≡ e ++ 10 ∷ []) ⊎ ((text ≡ e) × HasOpenEnd e)

HasOpenEnd-cons : (c d : ℕ) (rest l : Bytes) → d ∷ rest ≡ l → HasOpenEnd l → HasOpenEnd (c ∷ l)
HasOpenEnd-cons c d rest l q h = subst (λ z. HasOpenEnd (c ∷ z)) q (subst HasOpenEnd (sym q) h)

strip-IsLine : (text e : Bytes) → strip_newline text ≡ some e → IsLine text e
unfolding strip_newline
strip-IsLine [] e h = cc
strip-IsLine (c ∷ []) e h = elim (Bool-cases (c == 10)) [
  | inl q ↦ inl (ground arith)
  | inr q ↦ inr (let k : c ∷ [] ≡ e = ground arith in (k, subst HasOpenEnd k (ground arith)))
]
strip-IsLine (c ∷ d ∷ rest) e h = elim (Option-cases (strip_newline (d ∷ rest))) [
  | inl q ↦ absurd (ground arith)
  | inr (l, q) ↦
      let k : c ∷ l ≡ e = ground arith in
      elim (strip-IsLine (d ∷ rest) l q) [
        | inl w ↦ inl (ground arith)
        | inr (w, o) ↦ inr (ground arith, subst HasOpenEnd k (HasOpenEnd-cons c d rest l w o))
      ]
]

strip_with : (e : Bytes) → strip_newline (e ++ 10 ∷ []) ≡ some e
unfolding strip_newline
strip_with [] = refl
strip_with (c ∷ []) = refl
strip_with (c ∷ d ∷ rest) = ground (arith, strip_with (d ∷ rest))

strip_without : (e : Bytes) → HasOpenEnd e → strip_newline e ≡ some e
unfolding strip_newline
strip_without [] h = absurd h
strip_without (c ∷ []) h = ground arith
strip_without (c ∷ d ∷ rest) h = ground (arith, strip_without (d ∷ rest) h)

IsLine-strip : (text e : Bytes) → IsLine text e → strip_newline text ≡ some e
IsLine-strip text e (inl q) = rw q (strip_with e)
IsLine-strip text e (inr (q, h)) = rw q (strip_without e h)

strip-none : (text : Bytes) → strip_newline text ≡ none → text ≡ []
unfolding strip_newline
strip-none [] h = refl
strip-none (c ∷ []) h = ground arith
strip-none (c ∷ d ∷ rest) h = ground (arith, strip-none (d ∷ rest))

compare-accepted_iff :
    (t : TestResult) (o : Option Bytes) (expected : Bytes)
    → (compare_output t o expected ≡ some (record t { status = accepted })) ↔ (o ≡ some expected)
unfolding compare_output
compare-accepted_iff t none expected = (λ h. cc, λ h. cc)
compare-accepted_iff t (some out) expected =
    let (f, g) = bytes_eq_iff out expected in (λ h. ground (arith, f), λ h. ground (arith, g))

decide_open :
    (r : ExecutionResult) (expected : Bytes)
    → r.test_result.status ≡ unknown
    → decide r expected ≡ compare_output r.test_result (strip_newline r.stdout) expected
unfolding decide
decide_open r expected h = ground arith

-- When the execution left the verdict open, the program is accepted exactly when its output is the
-- expected text with one newline behind it, or the expected text itself where that is not empty
-- and ends with no newline.
pub decide-accepted_iff :
    (r : ExecutionResult) (expected : Bytes)
    → r.test_result.status ≡ unknown
    → (decide r expected ≡ some (record r.test_result { status = accepted }))
      ↔ IsLine r.stdout expected
decide-accepted_iff r expected h =
    let (f, g) = compare-accepted_iff r.test_result (strip_newline r.stdout) expected in
    (
      λ d. strip-IsLine r.stdout expected (f (sym (decide_open r expected h) ∙ d)),
      λ l. decide_open r expected h ∙ g (IsLine-strip r.stdout expected l),
    )

decide-none :
    (r : ExecutionResult) (expected : Bytes)
    → decide r expected ≡ none
    → (r.test_result.status ≡ unknown) × (r.stdout ≡ [])
unfolding decide compare_output
decide-none r expected h = ground (arith, strip-none r.stdout)

-- The comparison is undefined, at `back()` of an empty text, exactly when the execution left the
-- verdict open and the program wrote nothing.
pub decide-none_iff :
    (r : ExecutionResult) (expected : Bytes)
    → (decide r expected ≡ none) ↔ ((r.test_result.status ≡ unknown) × (r.stdout ≡ []))
unfolding decide compare_output strip_newline
decide-none_iff r expected = (decide-none r expected, λ h. ground arith)

guard_shut :
    {F : Type 0} (compile : Compile) (lang : LangId) (source : FilePath) (limits : LimitsInfo F)
    (j : Judger F)
    → make_judger compile lang source limits ≡ ok j
    → (j.has_compiler ≡ true) ⊎ (j.compile_error ≡ "")
unfolding make_judger
guard_shut compile cpp source limits j h = ground arith
guard_shut compile python source limits j h = ground arith
guard_shut compile _ source limits j h = cc

-- The judgers that the constructor makes run every program: the guard for compile errors wants a
-- judger with an error and no compiler, and there is none.
pub judge_runs :
    {F : Type 0} (compile : Compile) (execute : Execute F) (lang : LangId) (source : FilePath)
    (limits : LimitsInfo F) (j : Judger F) (stdin_data expected : Bytes)
    → make_judger compile lang source limits ≡ ok j
    → judge execute j stdin_data expected
      ≡ after_execution (execute j.actuator j.executable_path j.limits stdin_data) expected
unfolding judge
judge_runs compile execute lang source limits j stdin_data expected h =
    elim (guard_shut compile lang source limits j h) [
      | inl q ↦ rw q
      | inr q ↦ ground (arith, eq_iff j.compile_error "")
    ]
