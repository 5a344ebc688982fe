-- ===== src/Core/ThreadPool/Joined.antt =====
-- Every interleaving of the threads of a pool: what has been run when the destructor returns.
use mathlib.Core.List.{append-nil, append_assoc}
use oj_backend.Prelude.{
  ℕ, zero, suc, ◌+◌, ◌≡◌, ◌≢◌, refl, sym, ◌∙◌, ap, true, false, Option, none, some, List, [], ◌∷◌,
  ◌++◌, length, length-append, get_elem?, set, replicate, all, any, arith, ◌⊎◌,
}
use oj_backend.Exceptions.Result.{Result, ok, err}
use oj_backend.Core.ThreadPool.{
  WorkerState, idle, exited, busy, ThreadPool, make_pool, enqueue, wake, destroy, is_exited,
}

-- A thread submits a task, an idle worker goes through its loop, a busy one ends its task, the
-- pool's owner destroys it.
pub data Event {ℓ} (T : Type ℓ) : Type ℓ where
  submits : T → Event T
  wakes ends : ℕ → Event T
  destroys : Event T

-- The pool, the tasks that `enqueue` accepted and those that were started, oldest first, and the
-- number of those that have ended.
pub record History {ℓ} (T : Type ℓ) : Type ℓ where
  pub pool : ThreadPool T
  pub enqueued : List T
  pub started : List T
  pub ended : ℕ

module _ {ℓ} {T : Type ℓ} where
  abbrev submitted : T → History T → Result (ThreadPool T) → History T
  submitted t h (ok p) = record h { pool = p; enqueued = h.enqueued ++ t ∷ [] }
  submitted t h (err e) = h

  abbrev started_with : WorkerState T → List T → List T
  started_with (busy t) l = l ++ t ∷ []
  started_with _ l = l

  abbrev woken : History T → ℕ → Option (WorkerState T) → History T
  woken h i (some idle) =
      let (w, p) = wake h.pool in
      record h {
        pool = record p { workers = set p.workers i w };
        started = started_with w h.started;
      }
  woken h i _ = h

  abbrev task_ended : History T → ℕ → Option (WorkerState T) → History T
  task_ended h i (some (busy t)) = record h {
    pool = record (h.pool) { workers = set h.pool.workers i idle };
    ended = h.ended + 1;
  }
  task_ended h i _ = h

  unfoldable pub step : History T → Event T → History T
  step h (submits t) = submitted t h (enqueue t h.pool)
  step h (wakes i) = woken h i (get_elem? h.pool.workers i)
  step h (ends i) = task_ended h i (get_elem? h.pool.workers i)
  step h destroys = record h { pool = destroy h.pool }

  unfoldable pub run : History T → List (Event T) → History T
  run h [] = h
  run h (e ∷ es) = run (step h e) es

  abbrev pub opened : ℕ → History T
  opened threads = record { pool = make_pool threads; enqueued = []; started = []; ended = 0 }

  abbrev weight : WorkerState T → ℕ
  weight (busy t) = 1
  weight _ = 0

  abbrev busy_count : List (WorkerState T) → ℕ
  busy_count [] = 0
  busy_count (w ∷ ws) = weight w + busy_count ws

  busy_count-set :
      (ws : List (WorkerState T)) (i : ℕ) (v w : WorkerState T)
      → get_elem? ws i ≡ some v
      → busy_count (set ws i w) + weight v ≡ busy_count ws + weight w
  busy_count-set [] i v w h = cc
  busy_count-set (x ∷ ws) zero v w h = ground arith
  busy_count-set (x ∷ ws) (suc i) v w h = ground (arith, busy_count-set ws i v w h)

  any-set :
      (ws : List (WorkerState T)) (i : ℕ) (w : WorkerState T)
      → any is_exited (set ws i w) ≡ true
      → (any is_exited ws ≡ true) ⊎ (is_exited w ≡ true)
  any-set [] i w h = cc
  any-set (x ∷ ws) zero w h = ground arith
  any-set (x ∷ ws) (suc i) w h = ground (arith, any-set ws i w)

  record Inv (h : History T) : Type ℓ where
    order : h.enqueued ≡ h.started ++ h.pool.tasks
    counted : length h.started ≡ h.ended + busy_count h.pool.workers
    over : any is_exited h.pool.workers ≡ true → (h.pool.stop ≡ true) × (h.pool.tasks ≡ [])

  submit-Inv : (h : History T) (t : T) → Inv h → Inv (step h (submits t))
  unfolding step enqueue
  submit-Inv h t v = record {
    order = ground (arith, append_assoc h.started h.pool.tasks (t ∷ []));
    counted = ground arith;
    over = ground arith;
  }

  -- An idle worker that finds no task: it waits on, or exits if the pool is stopped.
  wake-Inv_empty :
      (h : History T) (i : ℕ)
      → get_elem? h.pool.workers i ≡ some idle
      → h.pool.tasks ≡ []
      → Inv h
      → Inv (step h (wakes i))
  unfolding step wake
  wake-Inv_empty h i g e v = record {
    order = ground arith;
    counted = ground (
      arith,
      busy_count-set h.pool.workers i idle idle g,
      busy_count-set h.pool.workers i idle exited g,
    );
    over = ground (arith, any-set h.pool.workers i idle, any-set h.pool.workers i exited);
  }

  wake-Inv_task :
      (h : History T) (i : ℕ) (t : T) (rest : List T)
      → get_elem? h.pool.workers i ≡ some idle
      → h.pool.tasks ≡ t ∷ rest
      → Inv h
      → Inv (step h (wakes i))
  unfolding step wake
  wake-Inv_task h i t rest g e v = record {
    order = ground (arith, append_assoc h.started (t ∷ []) rest);
    counted =
        ground (
          arith,
          busy_count-set h.pool.workers i idle (busy t) g,
          length-append h.started (t ∷ []),
        );
    over = ground (arith, any-set h.pool.workers i (busy t));
  }

  end-Inv :
      (h : History T) (i : ℕ) (t : T)
      → get_elem? h.pool.workers i ≡ some (busy t)
      → Inv h
      → Inv (step h (ends i))
  unfolding step
  end-Inv h i t g v = record {
    order = ground arith;
    counted = ground (arith, busy_count-set h.pool.workers i (busy t) idle g);
    over = ground (arith, any-set h.pool.workers i idle);
  }

  wake_cases :
      (h : History T) (i : ℕ) (xs : List T) (o : Option (WorkerState T))
      → get_elem? h.pool.workers i ≡ o
      → h.pool.tasks ≡ xs
      → Inv h
      → Inv (step h (wakes i))
  wake_cases h i xs none g e v = unfold step in rw g v
  wake_cases h i xs (some exited) g e v = unfold step in rw g v
  wake_cases h i xs (some (busy t)) g e v = unfold step in rw g v
  wake_cases h i [] (some idle) g e v = wake-Inv_empty h i g e v
  wake_cases h i (t ∷ rest) (some idle) g e v = wake-Inv_task h i t rest g e v

  end_cases :
      (h : History T) (i : ℕ) (o : Option (WorkerState T))
      → get_elem? h.pool.workers i ≡ o
      → Inv h
      → Inv (step h (ends i))
  end_cases h i none g v = unfold step in rw g v
  end_cases h i (some exited) g v = unfold step in rw g v
  end_cases h i (some idle) g v = unfold step in rw g v
  end_cases h i (some (busy t)) g v = end-Inv h i t g v

  step-Inv : (h : History T) (e : Event T) → Inv h → Inv (step h e)
  step-Inv h (submits t) v = submit-Inv h t v
  step-Inv h (wakes i) v = wake_cases h i h.pool.tasks (get_elem? h.pool.workers i) refl refl v
  step-Inv h (ends i) v = end_cases h i (get_elem? h.pool.workers i) refl v
  step-Inv h destroys v =
      unfold step destroy in
      record { order = v.order; counted = v.counted; over = λ e. (refl, (v.over e).1) }

  run-Inv : (h : History T) (es : List (Event T)) → Inv h → Inv (run h es)
  unfolding run
  run-Inv h [] v = v
  run-Inv h (e ∷ es) v = run-Inv (step h e) es (step-Inv h e v)

idle_pool {ℓ} :
    (T : Type ℓ) (n : ℕ)
    → (busy_count (replicate {A = WorkerState T} n idle) ≡ 0)
      × (any is_exited (replicate {A = WorkerState T} n idle) ≡ false)
idle_pool T zero = (refl, refl)
idle_pool T (suc n) = let (a, b) = idle_pool T n in (omega arith, b)

module _ {ℓ} {T : Type ℓ} where
  opened-Inv : (n : ℕ) → Inv (opened {T = T} n)
  unfolding make_pool
  opened-Inv n =
      let (b, x) = idle_pool T n in
      record { order = refl; counted = ground (arith, b); over = λ e. ground (arith, x) }

  none_busy : (ws : List (WorkerState T)) → all is_exited ws ≡ true → busy_count ws ≡ 0
  none_busy [] h = refl
  none_busy (w ∷ ws) h = ground (arith, none_busy ws)

  some_exited :
      (ws : List (WorkerState T)) → ws ≢ [] → all is_exited ws ≡ true → any is_exited ws ≡ true
  some_exited [] n h = absurd (n refl)
  some_exited (w ∷ ws) n h = ground arith

  -- However the threads interleave, tasks are started in the order in which they were accepted.
  pub started_in_order :
      (threads : ℕ) (es : List (Event T))
      → let h = run (opened threads) es in h.enqueued ≡ h.started ++ h.pool.tasks
  started_in_order threads es = (run-Inv (opened threads) es (opened-Inv threads)).order

  -- When every worker of a pool that has some has exited, as the destructor waits for, the pool
  -- was stopped and every accepted task was started, in order, and has ended.
  pub joined :
      (threads : ℕ) (es : List (Event T))
      → (run (opened threads) es).pool.workers ≢ []
      → all is_exited (run (opened threads) es).pool.workers ≡ true
      → let h = run (opened threads) es in
        (h.pool.stop ≡ true) × (h.started ≡ h.enqueued) × (h.ended ≡ length h.enqueued)
  joined threads es some_worker all_exited =
      let h = run (opened threads) es in
      let v = run-Inv (opened threads) es (opened-Inv threads) in
      let (s, t) = v.over (some_exited h.pool.workers some_worker all_exited) in
      let o : h.started ≡ h.enqueued =
        sym (v.order ∙ ap (λ l. h.started ++ l) t ∙ append-nil h.started) in
      (s, o, ground (arith, v.counted, none_busy h.pool.workers all_exited, ap length o))
