-- ===== src/App/JudgeTask/Verdicts.antt =====
-- The loop of the judge task (app/src/Application.cpp) and the verdict that it leads to.
use oj_backend.Prelude.{
  ℕ, String, ◌≤◌, ◌≡◌, ◌≢◌, refl, ap, sym, ◌∙◌, suc, Bool, true, false, List, [], ◌∷◌, ◌++◌, subst,
  length, map, all, arith, inl, inr, Bool-cases, if◌then◌else◌,
}
use oj_backend.Exceptions.Result.{ok}
use oj_backend.Core.Json.{JsonLib, at_string}
use oj_backend.Judge.Status.{TestStatus, TestResult, accepted, ac, mask, set_status}
use oj_backend.Judge.Verdict.{same, worst, set_status-worst}
use oj_backend.App.World.{Server}
use oj_backend.App.Monad.{Act, pure, lift, ◌>>=◌}
use oj_backend.App.Messages.Sent.{ok-eq}
use oj_backend.App.Monad.Inversion.{>>=-eq-ok, allowed, not_refused}
use oj_backend.App.Services.{Config}
use oj_backend.App.JudgeTask.{Workshop, is_accepted, judge_case, judge_cases}

abbrev pub all_accepted : List TestResult → Bool
all_accepted results = all (λ r. is_accepted r.status) results

-- The results of a run over `n` test cases: all of them, and all accepted; or accepted ones and
-- then one that is not.
pub data IsCut (n : ℕ) (results : List TestResult) : Type 0 where
  complete : length results ≡ n → all_accepted results ≡ true → IsCut n results
  stopped :
      (good : List TestResult) (bad : TestResult)
      → results ≡ good ++ bad ∷ []
      → all_accepted good ≡ true
      → is_accepted bad.status ≡ false
      → length results ≤ n
      → IsCut n results

IsCut-cons :
    (n : ℕ) (r : TestResult) (more : List TestResult)
    → is_accepted r.status ≡ true
    → IsCut n more
    → IsCut (suc n) (r ∷ more)
IsCut-cons n r more a (complete l g) = complete (ap suc l) (ground (arith, a, g))
IsCut-cons n r more a (stopped good bad e g b l) =
    stopped (r ∷ good) bad (ap (λ x. r ∷ x) e) (ground (arith, a, g)) b (omega arith)

not_all :
    (good : List TestResult) (bad : TestResult)
    → is_accepted bad.status ≡ false
    → all_accepted (good ++ bad ∷ []) ≡ false
not_all [] bad b = ground (arith, b)
not_all (r ∷ good) bad b = ground (arith, not_all good bad b)

same_accepted : (s : TestStatus) → same accepted s ≡ is_accepted s
unfolding mask
same_accepted accepted = refl
same_accepted _ = refl

all-same :
    (results : List TestResult)
    → all (same accepted) (map (λ r. r.status) results) ≡ all_accepted results
all-same [] = refl
all-same (r ∷ rest) = ground (arith, same_accepted r.status, all-same rest)

worst-ac : (l : List TestStatus) → worst l ≡ ac → all (same accepted) l ≡ true
worst-ac [] h = cc
worst-ac (s ∷ rest) h = ground arith

no_tests :
    (results : List TestResult) → worst (map (λ r. r.status) results) ≡ ac → length results ≢ 0
no_tests [] v l = absurd (ground (arith, v))
no_tests (r ∷ rest) v l = absurd (omega arith)

module _ {F : Type 0} (J : JsonLib F) (S : Server F) (cfg : Config) (W : Workshop F S.World) where
  loop-IsCut :
      (judger : W.Judger) (tcs : List J.Json) (w : S.World) {results : List TestResult}
      → (judge_cases J S cfg W judger tcs w).0 ≡ ok results
      → IsCut (length tcs) results
  unfolding judge_cases
  loop-IsCut judger [] w h = complete (ground arith) (ground arith)
  loop-IsCut judger (tc ∷ rest) w {results} h =
      let next : TestResult → Act S.World (List TestResult) = λ r.
        if is_accepted r.status
        then (judge_cases J S cfg W judger rest >>= λ more. pure (r ∷ more))
        else pure (r ∷ []) in
      let (r, a, h1) = >>=-eq-ok (judge_case J S cfg W judger tc) next w h in
      let w1 = (judge_case J S cfg W judger tc w).1 in
      elim (Bool-cases (is_accepted r.status)) [
        | inl e ↦
            let h2 : ((judge_cases J S cfg W judger rest >>= λ more. pure (r ∷ more)) w1).0
                ≡ ok results =
              ap (λ r. r.0) (sym (allowed (is_accepted r.status) _ (pure (r ∷ [])) w1 e)) ∙ h1 in
            let (more, b, k) =
              >>=-eq-ok (judge_cases J S cfg W judger rest) (λ more. pure (r ∷ more)) w1 h2 in
            let q : r ∷ more ≡ results = ground (arith, k) in
            subst (IsCut (length (tc ∷ rest))) q
              (IsCut-cons (length rest) r more e (loop-IsCut judger rest w1 b))
        | inr e ↦
            let q : r ∷ [] ≡ results = ground (
              arith,
              ap (λ r. r.0)
                    (sym (
                      not_refused (is_accepted r.status)
                        (judge_cases J S cfg W judger rest >>= λ more. pure (r ∷ more))
                        (pure (r ∷ [])) w1 e))
                  ∙ h1,
            ) in
            subst (IsCut (length (tc ∷ rest))) q (stopped [] r refl refl e (omega arith))
      ]

  -- A result that the judger gave for the input and the expected output of a row.
  abbrev pub CaseResult : W.Judger → J.Json → TestResult → Type 0
  CaseResult judger tc r =
      (stdin_data : String) × (expected : String) × (at_string J tc "stdin_data" ≡ ok stdin_data)
      × (at_string J tc "expected_output" ≡ ok expected)
      × (w : S.World) × ((W.judge judger stdin_data expected w).0 ≡ ok r)

  -- The results are those of the first test cases, one by one.
  abbrev pub FirstResults : W.Judger → List J.Json → List TestResult → Type 0
  FirstResults judger tcs [] = Unit {0}
  FirstResults judger [] (r ∷ results) = ⊥
  FirstResults judger (tc ∷ tcs) (r ∷ results) =
      CaseResult judger tc r × FirstResults judger tcs results

  judge_case-CaseResult :
      (judger : W.Judger) (tc : J.Json) (w : S.World) {r : TestResult}
      → (judge_case J S cfg W judger tc w).0 ≡ ok r
      → CaseResult judger tc r
  unfolding judge_case
  judge_case-CaseResult judger tc w h =
      let (stdin_data, a, h1) = >>=-eq-ok (lift (at_string J tc "stdin_data")) _ w h in
      let (expected, b, h2) = >>=-eq-ok (lift (at_string J tc "expected_output")) _ w h1 in
      (stdin_data, expected, a, b, w, h2)

  loop-FirstResults :
      (judger : W.Judger) (tcs : List J.Json) (w : S.World) {results : List TestResult}
      → (judge_cases J S cfg W judger tcs w).0 ≡ ok results
      → FirstResults judger tcs results
  unfolding judge_cases
  loop-FirstResults judger [] w {results} h = subst (FirstResults judger []) (ok-eq h) tt
  loop-FirstResults judger (tc ∷ rest) w {results} h =
      let more_of = judge_cases J S cfg W judger rest in
      let next : TestResult → Act S.World (List TestResult) = λ r.
        if is_accepted r.status then (more_of >>= λ more. pure (r ∷ more)) else pure (r ∷ []) in
      let (r, a, h1) = >>=-eq-ok (judge_case J S cfg W judger tc) next w h in
      let w1 = (judge_case J S cfg W judger tc w).1 in
      let first = judge_case-CaseResult judger tc w a in
      elim (Bool-cases (is_accepted r.status)) [
        | inl e ↦
            let h2 =
              ap (λ r. r.0) (sym (allowed (is_accepted r.status) _ (pure (r ∷ [])) w1 e)) ∙ h1 in
            let (more, b, k) = >>=-eq-ok more_of (λ more. pure (r ∷ more)) w1 h2 in
            subst (FirstResults judger (tc ∷ rest)) (ok-eq k)
              (first, loop-FirstResults judger rest w1 b)
        | inr e ↦
            let h2 =
              ap (λ r. r.0)
                (sym (
                  not_refused (is_accepted r.status) (more_of >>= λ more. pure (r ∷ more))
                    (pure (r ∷ [])) w1 e))
              ∙ h1 in
            subst (FirstResults judger (tc ∷ rest)) (ok-eq h2) (first, tt)
      ]

  -- The loop judges the test cases in their order until one is not accepted: each result is what the
  -- judger gave for the input and the expected output of the test case at its place, and the results
  -- are those of all test cases, and all accepted, or some accepted ones and one last result that is
  -- not.
  pub judge_cases-IsCut :
      (judger : W.Judger) (tcs : List J.Json) (w : S.World) {results : List TestResult}
      → (judge_cases J S cfg W judger tcs w).0 ≡ ok results
      → IsCut (length tcs) results × FirstResults judger tcs results
  judge_cases-IsCut judger tcs w h = (loop-IsCut judger tcs w h, loop-FirstResults judger tcs w h)

  IsCut-accepted :
      (n : ℕ) (results : List TestResult)
      → IsCut n results
      → all_accepted results ≡ true
      → length results ≡ n
  IsCut-accepted n results (complete l g) a = l
  IsCut-accepted n results (stopped good bad e g b l) a =
      absurd (ground (arith, ap all_accepted e, not_all good bad b, a))

  -- A submission whose stored status becomes ACCEPT has test cases, and every one of them was
  -- judged and accepted.
  pub accepted_submission :
      (judger : W.Judger) (tcs : List J.Json) (w : S.World) {results : List TestResult}
      → (judge_cases J S cfg W judger tcs w).0 ≡ ok results
      → set_status (map (λ r. r.status) results) ≡ ac
      → (tcs ≢ []) × (length results ≡ length tcs) × (all_accepted results ≡ true)
  accepted_submission judger tcs w {results} h s =
      let v = sym (set_status-worst (map (λ r. r.status) results)) ∙ s in
      let g = sym (all-same results) ∙ worst-ac (map (λ r. r.status) results) v in
      let l = IsCut-accepted (length tcs) results (loop-IsCut judger tcs w h) g in
      (λ e. no_tests results v (l ∙ ap length e), l, g)
