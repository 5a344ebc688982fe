-- ===== src/App/DbManager/Threads/Exclusive.antt =====
-- That the threads which call DbManager::execute (app/src/DbManager.cpp) do not share a worker.
use oj_backend.Prelude.{
  ℕ, zero, suc, ◌≤◌, ◌<◌, ◌≡◌, refl, sym, ◌∙◌, true, false, List, [], ◌∷◌, ◌++◌, length, replicate,
  arith, max, subst,
}
use oj_backend.Database.Worker.{Driver}
use oj_backend.Database.Pool.{DbPool, make_pool, acquire, return_worker, is_free}
use oj_backend.Database.Slots.{make_pool_lem, length-acquire, return_worker_lem}
use oj_backend.Database.Leases.{takes, misses, gives, IsOwned, initial-IsOwned, Step-IsOwned}
use oj_backend.App.DbManager.{PoolCall}
use oj_backend.App.DbManager.Threads.{
  Threads, holders, Move, starts, acquires, waits, returns, Moves, still, more, idle_threads,
}
use oj_backend.App.DbManager.Threads.Holders.{
  AllCovered, no_surplus, execute-Covered, Covered-at, replace-AllCovered, acquired_holders,
  returning_holders, returned_holders, started_holders,
}

-- What is kept: the pool is owned by the threads that hold its workers, and keeps its size.
record IsServed (size : ℕ) (s : Threads) : Type 0 where
  owned : IsOwned (record { pool = s.pool; held = λ w. holders w s.left })
  covered : AllCovered s.left
  sized : length s.pool ≡ size

same-IsOwned :
    (pool : DbPool) (held held' : ℕ → ℕ)
    → ((w : ℕ) → held w ≡ held' w)
    → IsOwned (record { pool = pool; held = held })
    → IsOwned (record { pool = pool; held = held' })
same-IsOwned pool held held' e h = record {
  numbered = h.numbered;
  owned = λ w. omega (arith, e w, h.owned w);
}

at_left :
    {size : ℕ} (s : Threads) {left : List (List PoolCall)}
    → s.left ≡ left
    → IsServed size s
    → IsServed size (record s { left = left })
at_left {size} s l h = subst (λ left. IsServed size (record s { left = left })) l h

-- A move keeps this.
Move-IsServed : {size : ℕ} {s t : Threads} → Move s t → IsServed size s → IsServed size t
Move-IsServed {size} {s} (starts before after a rest calls l n e q) h =
    let k = at_left s l h in
    subst (IsServed size) (sym q) (record {
      owned =
          same-IsOwned s.pool _ (λ w. holders w (before ++ calls ∷ after))
            (started_holders before after (a ∷ rest) calls e
              (λ w. no_surplus w a.worker a.outcome rest n))
            k.owned;
      covered =
          replace-AllCovered before [] calls after k.covered
            (execute-Covered a.worker a.outcome rest calls n e);
      sized = k.sized;
    })
Move-IsServed {size} {s} (acquires before after d w rest l e q) h =
    let k = at_left s l h in
    let c = Covered-at before (PoolCall.takes w.id ∷ rest) after k.covered in
    let pool = (acquire d s.pool).1 in
    subst (IsServed size) (sym q) (record {
      owned =
          same-IsOwned pool _ (λ w. holders w (before ++ rest ∷ after))
            (acquired_holders before after w.id rest c) (Step-IsOwned (takes d w e refl) k.owned);
      covered = replace-AllCovered before (PoolCall.takes w.id ∷ rest) rest after k.covered c.1;
      sized = length-acquire d s.pool ∙ k.sized;
    })
Move-IsServed {size} {s} (waits d e q) h = subst (IsServed size) (sym q) (record {
  owned = Step-IsOwned (misses d e refl) h.owned;
  covered = h.covered;
  sized = length-acquire d s.pool ∙ h.sized;
})
Move-IsServed {size} {s} (returns before after id rest l q) h =
    let k = at_left s l h in
    let c = Covered-at before (PoolCall.gives id ∷ rest) after k.covered in
    let pool = return_worker s.pool id in
    subst (IsServed size) (sym q) (record {
      owned =
          same-IsOwned pool _ (λ w. holders w (before ++ rest ∷ after))
            (returned_holders before after id rest c)
            (Step-IsOwned (gives id (returning_holders before after id rest c) refl) k.owned);
      covered = replace-AllCovered before (PoolCall.gives id ∷ rest) rest after k.covered c.1;
      sized = (return_worker_lem s.pool id).0 ∙ k.sized;
    })

Moves-IsServed : {size : ℕ} {s t : Threads} → Moves s t → IsServed size s → IsServed size t
Moves-IsServed still h = h
Moves-IsServed (more r m) h = Move-IsServed m (Moves-IsServed r h)

idle_covered : (threads : ℕ) → AllCovered (replicate threads [])
idle_covered zero = tt
idle_covered (suc n) = (tt, idle_covered n)

idle_holders : (w threads : ℕ) → holders w (replicate threads []) ≡ 0
idle_holders w zero = refl
idle_holders w (suc n) = omega (arith, idle_holders w n)

idle_threads-IsServed :
    (drivers : ℕ → Driver) (size threads : ℕ)
    → IsServed (max size 1) (idle_threads drivers size threads)
idle_threads-IsServed drivers size threads = record {
  owned =
      same-IsOwned (make_pool drivers size) _ (λ w. holders w (replicate threads []))
        (λ w. sym (idle_holders w threads)) (initial-IsOwned drivers size);
  covered = idle_covered threads;
  sized = (make_pool_lem drivers size).1;
}

-- However threads interleave their calls of `execute` on a new pool, as long as no
-- attempt of theirs ends in a parameter exception or a lock error: no worker is held by two of them at once, a worker
-- that one holds is not free, and a worker that none holds is free.
pub execute_exclusive :
    (drivers : ℕ → Driver) (size threads : ℕ) {s : Threads}
    → Moves (idle_threads drivers size threads) s
    → (w : ℕ)
    → (holders w s.left ≤ 1)
      × ((holders w s.left ≡ 1) → is_free s.pool w ≡ false)
      × ((holders w s.left ≡ 0) → w < max size 1 → is_free s.pool w ≡ true)
execute_exclusive drivers size threads {s} r w =
    let k = Moves-IsServed r (idle_threads-IsServed drivers size threads) in
    (
      ground (arith, k.owned.owned w),
      λ one. ground (arith, k.owned.owned w, one),
      λ free small. ground (arith, k.owned.owned w, k.sized, free, small),
    )
