-- ===== src/App/DbManager.antt =====
-- app/src/DbManager.cpp: the calls of the pool that one `execute` makes. Other threads may run
-- between any two of them.
pub mod Threads
use oj_backend.Prelude.{
  ℕ, ◌+◌, ◌≡◌, ◌≢◌, inl, inr, Bool, true, false, ◌||◌, not, Option, none, some, List, [], ◌∷◌, ◌++◌,
  ◌==◌, if◌then◌else◌, arith, any, Option-cases,
}

-- How running the operation on a worker ends: normally (a null operation included), or by an
-- exception; an SQLException has its error code.
pub data Outcome : Type 0 where
  finished parameter_exception other_exception : Outcome
  sql_exception : ℕ → Outcome

-- The worker that `acquire` yields in the end, and how the operation ends on it.
pub record Attempt : Type 0 where
  pub worker : ℕ
  pub outcome : Outcome

pub data PoolCall : Type 0 where
  takes gives : ℕ → PoolCall

-- e.getErrorCode() == 1205 || e.getErrorCode() == 1213
abbrev pub is_lock_error : ℕ → Bool
is_lock_error code = code == 1205 || code == 1213

-- DbManager::execute, over the attempts that it will make. `none`: it still retries.
unfoldable pub execute : List Attempt → Option (List PoolCall)
execute [] = none
execute (a ∷ rest) =
    let retry = execute rest in
    elim a.outcome [
      | finished ↦ some (takes a.worker ∷ gives a.worker ∷ [])
      | parameter_exception ↦ some (takes a.worker ∷ gives a.worker ∷ gives a.worker ∷ [])
      | other_exception ↦ some (takes a.worker ∷ gives a.worker ∷ [])
      | sql_exception code ↦
          if is_lock_error code
          then elim retry [
            | none ↦ none
            | some calls ↦ some (takes a.worker ∷ gives a.worker ∷ (calls ++ gives a.worker ∷ []))
          ]
          else some (takes a.worker ∷ gives a.worker ∷ [])
    ]

-- How often the calls acquire and return a worker.
abbrev pub taken : ℕ → List PoolCall → ℕ
taken w [] = 0
taken w (takes v ∷ rest) = (if v == w then 1 else 0) + taken w rest
taken w (gives v ∷ rest) = taken w rest

abbrev pub given : ℕ → List PoolCall → ℕ
given w [] = 0
given w (takes v ∷ rest) = given w rest
given w (gives v ∷ rest) = (if v == w then 1 else 0) + given w rest

-- The attempts that `execute` makes and after which it returns the worker twice.
abbrev pub returns_twice : Outcome → Bool
returns_twice parameter_exception = true
returns_twice (sql_exception code) = is_lock_error code
returns_twice _ = false

abbrev pub retries : Outcome → Bool
retries (sql_exception code) = is_lock_error code
retries _ = false

-- How many of the attempts that are made return worker `w` twice.
abbrev pub surplus : ℕ → List Attempt → ℕ
surplus w [] = 0
surplus w (a ∷ rest) =
    let more = surplus w rest in
    (if a.worker == w then (if returns_twice a.outcome then 1 else 0) else 0)
    + (if retries a.outcome then more else 0)

taken-append : (w : ℕ) (xs ys : List PoolCall) → taken w (xs ++ ys) ≡ taken w xs + taken w ys
taken-append w [] ys = omega arith
taken-append w (takes v ∷ xs) ys = omega (arith, taken-append w xs ys)
taken-append w (gives v ∷ xs) ys = taken-append w xs ys

given-append : (w : ℕ) (xs ys : List PoolCall) → given w (xs ++ ys) ≡ given w xs + given w ys
given-append w [] ys = omega arith
given-append w (takes v ∷ xs) ys = given-append w xs ys
given-append w (gives v ∷ xs) ys = omega (arith, given-append w xs ys)

-- What `execute` returns beyond what it acquired, worker by worker: one return for each attempt
-- that ended in a parameter exception or in a lock error, and no other.
pub execute-surplus :
    (w : ℕ) (attempts : List Attempt) (calls : List PoolCall)
    → execute attempts ≡ some calls
    → given w calls ≡ taken w calls + surplus w attempts
unfolding execute
execute-surplus w [] calls h = cc
execute-surplus w (a ∷ rest) calls h = elim (Option-cases (execute rest)) [
  | inl e ↦ ground arith
  | inr (more, e) ↦
      let last : List PoolCall = gives a.worker ∷ [] in
      ground
        (arith, execute-surplus w rest more e, taken-append w more last, given-append w more last)
]

-- `execute` ends once an attempt ends in no lock error.
pub execute_ends :
    (attempts : List Attempt)
    → any (λ a. not (retries a.outcome)) attempts ≡ true
    → execute attempts ≢ none
unfolding execute
execute_ends [] h = cc
execute_ends (a ∷ rest) h = ground (arith, execute_ends rest)
