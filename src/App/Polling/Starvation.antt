-- ===== src/App/Polling/Starvation.antt =====
-- The loop of Application::run (app/src/Application.cpp) as a task of core/src/ThreadPool.cpp: it
-- keeps its worker until it ends.
use oj_backend.Prelude.{
  zero, suc, ◌≡◌, refl, Bool, true, false, none, some, List, [], ◌∷◌, any, arith, ap, get_elem?,
}
use oj_backend.Core.ThreadPool.{busy, make_pool, enqueue, wake, destroy}
use oj_backend.Core.ThreadPool.Joined.{
  Event, submits, wakes, ends, destroys, History, step, run, opened,
}

-- The tasks of the server: the loop, a message to run, a submission to judge.
pub data ServerTask {ℓ} (M S : Type ℓ) : Type ℓ where
  polling : ServerTask M S
  db_event : M → ServerTask M S
  judge_task : S → ServerTask M S

abbrev pub is_end {ℓ} : {T : Type ℓ} → Event T → Bool
is_end (ends i) = true
is_end _ = false

-- The only worker is at work.
abbrev Taken {ℓ} : {T : Type ℓ} → T → History T → Type ℓ
Taken t h = (h.pool.workers ≡ busy t ∷ []) × (h.started ≡ t ∷ [])

step-Taken {ℓ} :
    {T : Type ℓ} (t : T) (h : History T) (e : Event T)
    → is_end e ≡ false
    → Taken t h
    → Taken t (step h e)
unfolding step enqueue destroy
step-Taken t h (submits u) q taken = ground arith
step-Taken t h (wakes zero) q taken =
    let g : get_elem? h.pool.workers 0 ≡ some (busy t) = ap (λ ws. get_elem? ws 0) taken.0 in
    rw g taken
step-Taken t h (wakes (suc i)) q taken =
    let g : get_elem? h.pool.workers (suc i) ≡ none = ap (λ ws. get_elem? ws (suc i)) taken.0 in
    rw g taken
step-Taken t h (ends i) q taken = cc
step-Taken t h destroys q taken = taken

run-Taken {ℓ} :
    {T : Type ℓ} (t : T) (h : History T) (events : List (Event T))
    → any is_end events ≡ false
    → Taken t h
    → Taken t (run h events)
unfolding run
run-Taken t h [] q taken = taken
run-Taken t h (e ∷ rest) q taken =
    run-Taken t (step h e) rest (ground arith) (step-Taken t h e (ground arith) taken)

-- With JUDGER_NUMBER = 1 the server does nothing but poll: as long as the loop does not end, no
-- message is run and no submission judged, whatever is submitted to the pool.
pub one_worker_starves {ℓ} :
    {M S : Type ℓ} (events : List (Event (ServerTask M S)))
    → any is_end events ≡ false
    → (run (opened 1) (submits polling ∷ wakes 0 ∷ events)).started ≡ polling ∷ []
unfolding run step enqueue wake make_pool
one_worker_starves events q =
    (run-Taken polling (step (step (opened 1) (submits polling)) (wakes 0)) events q (refl, refl)).1
