-- ===== src/App/DbManager/Threads/Holders.antt =====
-- How the calls of DbManager::execute (app/src/DbManager.cpp) change who holds the workers.
use oj_backend.Prelude.{
  ℕ, ◌+◌, ◌-◌, ◌≤◌, ◌<◌, ◌≡◌, false, Option, some, List, [], ◌∷◌, ◌++◌, arith, subst,
  some-injective,
}
use oj_backend.Database.Leases.{change}
use oj_backend.App.DbManager.{
  Outcome, finished, parameter_exception, other_exception, sql_exception, Attempt, PoolCall,
  execute, taken, given, surplus, returns_twice, execute-surplus,
}
use oj_backend.App.DbManager.Threads.{holders}

-- At any point of the calls, every worker that is still to be taken is also still to be returned.
abbrev Covered : List PoolCall → Type 0
Covered [] = Unit {0}
Covered (call ∷ rest) = ((w : ℕ) → taken w (call ∷ rest) ≤ given w (call ∷ rest)) × Covered rest

abbrev pub AllCovered : List (List PoolCall) → Type 0
AllCovered [] = Unit {0}
AllCovered (calls ∷ rest) = Covered calls × AllCovered rest

one_attempt-Covered : (w : ℕ) → Covered (PoolCall.takes w ∷ PoolCall.gives w ∷ [])
one_attempt-Covered w = (λ v. ground arith, (λ v. ground arith, tt))

Covered-le : (calls : List PoolCall) → Covered calls → (w : ℕ) → taken w calls ≤ given w calls
Covered-le [] h w = omega arith
Covered-le (call ∷ rest) h w = h.0 w

pub no_surplus :
    (w : ℕ) (worker : ℕ) (outcome : Outcome) (rest : List Attempt)
    → returns_twice outcome ≡ false
    → surplus w (record { worker = worker; outcome = outcome } ∷ rest) ≡ 0
no_surplus w v finished rest h = ground arith
no_surplus w v parameter_exception rest h = cc
no_surplus w v other_exception rest h = ground arith
no_surplus w v (sql_exception code) rest h = ground (arith, h)

pub execute-Covered :
    (worker : ℕ) (outcome : Outcome) (rest : List Attempt) (calls : List PoolCall)
    → returns_twice outcome ≡ false
    → execute (record { worker = worker; outcome = outcome } ∷ rest) ≡ some calls
    → Covered calls
unfolding execute
execute-Covered w finished rest calls h e = subst Covered (some-injective e) (one_attempt-Covered w)
execute-Covered w parameter_exception rest calls h e = cc
execute-Covered w other_exception rest calls h e =
    subst Covered (some-injective e) (one_attempt-Covered w)
execute-Covered w (sql_exception code) rest calls h e =
    let one : ◌≡◌ {A = Option (List PoolCall)} (some (PoolCall.takes w ∷ PoolCall.gives w ∷ []))
        (some calls) =
      ground (arith, h, e) in
    subst Covered (some-injective one) (one_attempt-Covered w)

pub Covered-at :
    (before : List (List PoolCall)) (calls : List PoolCall) (after : List (List PoolCall))
    → AllCovered (before ++ calls ∷ after)
    → Covered calls
Covered-at [] calls after h = h.0
Covered-at (c ∷ before) calls after h = Covered-at before calls after h.1

pub replace-AllCovered :
    (before : List (List PoolCall)) (calls other : List PoolCall) (after : List (List PoolCall))
    → AllCovered (before ++ calls ∷ after)
    → Covered other
    → AllCovered (before ++ other ∷ after)
replace-AllCovered [] calls other after h s = (s, h.1)
replace-AllCovered (c ∷ before) calls other after h s =
    (h.0, replace-AllCovered before calls other after h.1 s)

holders-append :
    (w : ℕ) (before : List (List PoolCall)) (calls : List PoolCall) (after : List (List PoolCall))
    → holders w (before ++ calls ∷ after)
      ≡ holders w before + (given w calls - taken w calls) + holders w after
holders-append w [] calls after = omega arith
holders-append w (c ∷ before) calls after = omega (arith, holders-append w before calls after)

pub acquired_holders :
    (before after : List (List PoolCall)) (v : ℕ) (rest : List PoolCall)
    → Covered (PoolCall.takes v ∷ rest)
    → (w : ℕ)
    → change
        (λ w. holders w (before ++ (PoolCall.takes v ∷ rest) ∷ after))
        v
        (holders v (before ++ (PoolCall.takes v ∷ rest) ∷ after) + 1)
        w
      ≡ holders w (before ++ rest ∷ after)
acquired_holders before after v rest s w =
    let old = PoolCall.takes v ∷ rest in
    ground (
      arith,
      holders-append w before old after,
      holders-append v before old after,
      holders-append w before rest after,
      s.0 v,
      s.0 w,
    )

pub returning_holders :
    (before after : List (List PoolCall)) (v : ℕ) (rest : List PoolCall)
    → Covered (PoolCall.gives v ∷ rest)
    → 0 < holders v (before ++ (PoolCall.gives v ∷ rest) ∷ after)
returning_holders before after v rest s =
    ground (arith, holders-append v before (PoolCall.gives v ∷ rest) after, Covered-le rest s.1 v)

pub returned_holders :
    (before after : List (List PoolCall)) (v : ℕ) (rest : List PoolCall)
    → Covered (PoolCall.gives v ∷ rest)
    → (w : ℕ)
    → change
        (λ w. holders w (before ++ (PoolCall.gives v ∷ rest) ∷ after))
        v
        (holders v (before ++ (PoolCall.gives v ∷ rest) ∷ after) - 1)
        w
      ≡ holders w (before ++ rest ∷ after)
returned_holders before after v rest s w =
    let old = PoolCall.gives v ∷ rest in
    ground (
      arith,
      holders-append w before old after,
      holders-append v before old after,
      holders-append w before rest after,
      Covered-le rest s.1 v,
      Covered-le rest s.1 w,
    )

pub started_holders :
    (before after : List (List PoolCall)) (attempts : List Attempt) (calls : List PoolCall)
    → execute attempts ≡ some calls
    → ((w : ℕ) → surplus w attempts ≡ 0)
    → (w : ℕ) → holders w (before ++ [] ∷ after) ≡ holders w (before ++ calls ∷ after)
started_holders before after attempts calls e h w = ground (
  arith,
  holders-append w before [] after,
  holders-append w before calls after,
  execute-surplus w attempts calls e,
  h w,
)
