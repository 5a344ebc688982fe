-- ===== src/Database/Leases.antt =====
-- The pool and the threads that hold its workers, as a step relation: any thread may acquire, and
-- a thread returns what it holds.
use oj_backend.Prelude.{
  ℕ, ◌+◌, ◌-◌, ◌≤◌, ◌<◌, ◌≡◌, ◌⊎◌, Bool, true, false, Option, none, some, ltb, ◌==◌, length,
  if◌then◌else◌, arith,
}
use oj_backend.Database.Worker.{DbWorker, Driver}
use oj_backend.Database.Pool.{DbPool, make_pool, acquire, return_worker, is_free}
use oj_backend.Database.Slots.{
  NumberedFrom, make_pool_lem, Acquired, acquire-Acquired, length-acquire, acquire-NumberedFrom,
  return_worker-NumberedFrom, return_worker_lem,
}

-- The pool, and how many threads hold each worker.
pub record System : Type 0 where
  pub pool : DbPool
  pub held : ℕ → ℕ

abbrev pub change : (ℕ → ℕ) → ℕ → ℕ → ℕ → ℕ
change f k v j = if j == k then v else f j

pub data Step (s t : System) : Type 0 where
  takes :
      (d : Driver) (w : DbWorker)
      → (acquire d s.pool).0 ≡ some w
      → t ≡ record { pool = (acquire d s.pool).1; held = change s.held w.id (s.held w.id + 1) }
      → Step s t
  misses :
      (d : Driver)
      → (acquire d s.pool).0 ≡ none
      → t ≡ record s { pool = (acquire d s.pool).1 }
      → Step s t
  gives :
      (id : ℕ)
      → 0 < s.held id
      → t ≡ record { pool = return_worker s.pool id; held = change s.held id (s.held id - 1) }
      → Step s t

pub data Reach (s : System) : System → Type 0 where
  here : Reach s s
  next : {t u : System} → Reach s t → Step t u → Reach s u

abbrev bit : Bool → ℕ
bit true = 1
bit false = 0

-- Every worker is either free or held by one thread, and nothing else is held.
pub record IsOwned (s : System) : Type 0 where
  pub numbered : NumberedFrom 0 s.pool
  pub owned : (i : ℕ) → s.held i + bit (is_free s.pool i) ≡ bit (ltb i (length s.pool))

abbrev pub initial : (ℕ → Driver) → ℕ → System
initial drivers size = record { pool = make_pool drivers size; held = λ i. 0 }

pub initial-IsOwned : (drivers : ℕ → Driver) (size : ℕ) → IsOwned (initial drivers size)
initial-IsOwned drivers size =
    let (a, b, c) = make_pool_lem drivers size in
    record { numbered = a; owned = λ i. ground (arith, b, c i) }

take_owned :
    (p q : DbPool) (r : Option DbWorker) (held : ℕ → ℕ) (w : DbWorker)
    → Acquired p 0 (r, q)
    → r ≡ some w
    → length q ≡ length p
    → ((i : ℕ) → held i + bit (is_free p i) ≡ bit (ltb i (length p)))
    → (i : ℕ) → change held w.id (held w.id + 1) i + bit (is_free q i) ≡ bit (ltb i (length q))
take_owned p q none held w a e l o i = cc
take_owned p q (some v) held w (k, f, b, g, h) e l o i = ground (arith, h i, o i)

miss_owned : (p q : DbPool) (r : Option DbWorker) → Acquired p 0 (r, q) → r ≡ none → q ≡ p
miss_owned p q none a e = a.0
miss_owned p q (some v) a e = cc

give_owned :
    (s : System) (id : ℕ)
    → IsOwned s
    → 0 < s.held id
    → (i : ℕ)
    → change s.held id (s.held id - 1) i + bit (is_free (return_worker s.pool id) i)
      ≡ bit (ltb i (length (return_worker s.pool id)))
give_owned s id h g i =
    let (a, b) = return_worker_lem s.pool id in ground (arith, b i, h.owned i, h.owned id)

-- Every step of a thread keeps each worker either free or held by one thread.
pub Step-IsOwned : {s t : System} → Step s t → IsOwned s → IsOwned t
Step-IsOwned {s} (takes d w e q) h = rw q (record {
  numbered = acquire-NumberedFrom d s.pool 0 h.numbered;
  owned =
      take_owned s.pool (acquire d s.pool).1 (acquire d s.pool).0 s.held w
        (acquire-Acquired d s.pool 0 h.numbered) e (length-acquire d s.pool) h.owned;
})
Step-IsOwned {s} (misses d e q) h =
    rw
      (
        q,
        miss_owned s.pool (acquire d s.pool).1 (acquire d s.pool).0
            (acquire-Acquired d s.pool 0 h.numbered) e,
      )
      h
Step-IsOwned {s} (gives id g q) h = rw q (record {
  numbered = return_worker-NumberedFrom s.pool id 0 h.numbered;
  owned = give_owned s id h g;
})

Reach-IsOwned : {s t : System} → IsOwned s → Reach s t → IsOwned t
Reach-IsOwned h here = h
Reach-IsOwned h (next r st) = Step-IsOwned st (Reach-IsOwned h r)

-- If every thread returns only a worker that it holds, then, however their calls interleave, from
-- the start of the pool no worker is ever held twice, and a held worker is not free.
pub held_once :
    (drivers : ℕ → Driver) (size : ℕ) {s : System}
    → Reach (initial drivers size) s
    → (i : ℕ) → (s.held i ≤ 1) × ((s.held i ≡ 0) ⊎ (is_free s.pool i ≡ false))
held_once drivers size {s} r i =
    let o = (Reach-IsOwned (initial-IsOwned drivers size) r).owned i in ground (arith, o)

-- Where each worker is either free or held once, a thread that returns a worker which it no longer
-- holds, while another thread does, sets it free under that thread.
pub surplus_return :
    (s : System) (id : ℕ)
    → IsOwned s
    → 0 < s.held id
    → (is_free s.pool id ≡ false)
      × (is_free (return_worker s.pool id) id ≡ true)
      × (¬ IsOwned (record s { pool = return_worker s.pool id }))
surplus_return s id h g =
    let (a, b) = return_worker_lem s.pool id in
    (
      ground (arith, h.owned id),
      ground (arith, b id, h.owned id),
      λ k. ground (arith, b id, h.owned id, k.owned id),
    )
