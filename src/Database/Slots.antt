-- ===== src/Database/Slots.antt =====
-- The operations of the pool (database/src/DbPool.cpp), slot by slot.
use oj_backend.Prelude.{
  ℕ, zero, suc, ◌+◌, ◌≤◌, ◌<◌, ◌≡◌, refl, sym, ap, subst, ◌∙◌, inl, inr, true, false, Option, none,
  some, [], ◌∷◌, ltb, leb, ◌==◌, length, if◌then◌else◌, arith, Bool-cases, max,
}
use oj_backend.Database.Worker.{DbWorker, Driver, check_connection, check_connection_lem}
use oj_backend.Database.Pool.{
  WorkerSlot, DbPool, make_slots, make_pool, acquire, set_available, return_worker, is_free,
}

-- The workers are numbered by their positions, from `i` on.
abbrev pub NumberedFrom : ℕ → DbPool → Type 0
NumberedFrom i [] = Unit {0}
NumberedFrom i (s ∷ rest) = (s.worker.id ≡ i) × NumberedFrom (i + 1) rest

make_slots-NumberedFrom : (drivers : ℕ → Driver) (n i : ℕ) → NumberedFrom i (make_slots drivers n i)
unfolding make_slots
make_slots-NumberedFrom drivers zero i = tt
make_slots-NumberedFrom drivers (suc n) i = (
  (check_connection_lem (drivers i) (record { id = i; has_connection = false })).0,
  make_slots-NumberedFrom drivers n (i + 1),
)

length-make_slots : (drivers : ℕ → Driver) (n i : ℕ) → length (make_slots drivers n i) ≡ n
unfolding make_slots
length-make_slots drivers zero i = refl
length-make_slots drivers (suc n) i = ap suc (length-make_slots drivers n (i + 1))

is_free-make_slots :
    (drivers : ℕ → Driver) (n i j : ℕ) → is_free (make_slots drivers n i) j ≡ ltb j n
unfolding make_slots
is_free-make_slots drivers zero i j = ground arith
is_free-make_slots drivers (suc n) i zero = ground arith
is_free-make_slots drivers (suc n) i (suc j) =
    ground (arith, is_free-make_slots drivers n (i + 1) j)

-- The pool starts with at least one worker, its workers numbered by position and all free.
pub make_pool_lem :
    (drivers : ℕ → Driver) (size : ℕ)
    → NumberedFrom 0 (make_pool drivers size)
      × (length (make_pool drivers size) ≡ max size 1)
      × ((j : ℕ) → is_free (make_pool drivers size) j ≡ ltb j (max size 1))
unfolding make_pool
make_pool_lem drivers size =
    let n = if ltb size 1 then 1 else size in
    let e : n ≡ max size 1 = ground arith in
    (
      make_slots-NumberedFrom drivers n 0,
      length-make_slots drivers n 0 ∙ e,
      λ j. is_free-make_slots drivers n 0 j ∙ ap (ltb j) e,
    )

pub length-acquire : (d : Driver) (p : DbPool) → length (acquire d p).1 ≡ length p
unfolding acquire
length-acquire d [] = refl
length-acquire d (s ∷ rest) = ground (arith, length-acquire d rest)

pub acquire-NumberedFrom :
    (d : Driver) (p : DbPool) (i : ℕ) → NumberedFrom i p → NumberedFrom i (acquire d p).1
unfolding acquire
acquire-NumberedFrom d [] i h = tt
acquire-NumberedFrom d (s ∷ rest) i h =
    ground (arith, acquire-NumberedFrom d rest (i + 1) h.1, (check_connection_lem d s.worker).0)

-- What one `acquire` does.
abbrev pub Acquired : DbPool → ℕ → Option DbWorker × DbPool → Type 0
Acquired p i (none, q) = (q ≡ p) × ((j : ℕ) → is_free p j ≡ false)
Acquired p i (some w, q) =
    (k : ℕ) × (w.id ≡ i + k)
    × (is_free p k ≡ true)
    × ((j : ℕ) → j < k → is_free p j ≡ false)
    × ((j : ℕ) → is_free q j ≡ (if j == k then false else is_free p j))

skip-Acquired :
    (s : WorkerSlot) (p : DbPool) (i : ℕ) (r : Option DbWorker × DbPool)
    → s.is_available ≡ false
    → Acquired p (i + 1) r
    → Acquired (s ∷ p) i (r.0, s ∷ r.1)
skip-Acquired s p i (none, q) busy (e, f) =
    (ap (◌∷◌ s) e, λ j. elim j as (λ j. is_free (s ∷ p) j ≡ false) [ zero ↦ busy | suc j ↦ f j ])
skip-Acquired s p i (some w, q) busy (k, e, f, g, h) = (
  suc k,
  omega arith,
  f,
  λ j. elim j as (λ j. j < suc k → is_free (s ∷ p) j ≡ false) [
    | zero ↦ λ _. busy
    | suc j ↦ λ l. g j (omega arith)
  ],
  λ j. elim j as (λ j. is_free (s ∷ q) j ≡ (if j == suc k then false else is_free (s ∷ p) j)) [
    | zero ↦ ground arith
    | suc j ↦ ground (arith, h j)
  ],
)

take-Acquired :
    (w : DbWorker) (s : WorkerSlot) (p : DbPool) (i : ℕ)
    → w.id ≡ i
    → s.is_available ≡ true
    → Acquired (s ∷ p) i (some w, record { worker = w; is_available = false } ∷ p)
take-Acquired w s p i e free = (
  0,
  omega arith,
  free,
  λ j l. absurd (omega arith),
  λ j.
      elim j
        as (λ j.
          is_free (record { worker = w; is_available = false } ∷ p) j
          ≡ (if j == 0 then false else is_free (s ∷ p) j)) [ zero ↦ refl | suc j ↦ ground arith ],
)

acquire_free :
    (d : Driver) (s : WorkerSlot) (p : DbPool)
    → s.is_available ≡ true
    → acquire d (s ∷ p) ≡ (
      some (check_connection d s.worker).0,
      record { worker = (check_connection d s.worker).0; is_available = false } ∷ p,
    )
unfolding acquire
acquire_free d s p e = ground arith

acquire_busy :
    (d : Driver) (s : WorkerSlot) (p : DbPool)
    → s.is_available ≡ false
    → acquire d (s ∷ p) ≡ ((acquire d p).0, s ∷ (acquire d p).1)
unfolding acquire
acquire_busy d s p e = ground arith

-- What `acquire` does to a pool that is numbered from `i`: it hands out the first free worker and
-- marks that one busy, and no other; it hands out none and changes nothing exactly if none is
-- free.
pub acquire-Acquired :
    (d : Driver) (p : DbPool) (i : ℕ) → NumberedFrom i p → Acquired p i (acquire d p)
acquire-Acquired d [] i h = unfold acquire in (refl, λ j. refl)
acquire-Acquired d (s ∷ rest) i h = elim (Bool-cases s.is_available) [
  | inl e ↦ subst (Acquired (s ∷ rest) i) (sym (acquire_free d s rest e)) (
      take-Acquired (check_connection d s.worker).0 s rest i
        ((check_connection_lem d s.worker).0 ∙ h.0) e)
  | inr e ↦
      subst (Acquired (s ∷ rest) i) (sym (acquire_busy d s rest e))
        (skip-Acquired s rest i (acquire d rest) e (acquire-Acquired d rest (i + 1) h.1))
]

is_free_beyond : (p : DbPool) (i : ℕ) → length p ≤ i → is_free p i ≡ false
is_free_beyond [] i h = refl
is_free_beyond (s ∷ rest) zero h = absurd (omega arith)
is_free_beyond (s ∷ rest) (suc i) h = is_free_beyond rest i (omega arith)

set_available-NumberedFrom :
    (p : DbPool) (id i : ℕ) → NumberedFrom i p → NumberedFrom i (set_available p id)
unfolding set_available
set_available-NumberedFrom [] id i h = h
set_available-NumberedFrom (s ∷ rest) zero i h = h
set_available-NumberedFrom (s ∷ rest) (suc id) i h =
    (h.0, set_available-NumberedFrom rest id (i + 1) h.1)

pub return_worker-NumberedFrom :
    (p : DbPool) (id i : ℕ) → NumberedFrom i p → NumberedFrom i (return_worker p id)
unfolding return_worker
return_worker-NumberedFrom p id i h = elim (Bool-cases (leb (length p) id)) [
  | inl e ↦ rw e h
  | inr e ↦ rw e (set_available-NumberedFrom p id i h)
]

set_available_lem :
    (p : DbPool) (id : ℕ)
    → id < length p
    → (length (set_available p id) ≡ length p)
      × ((j : ℕ) → is_free (set_available p id) j ≡ (if j == id then true else is_free p j))
unfolding set_available
set_available_lem [] id h = absurd (omega arith)
set_available_lem (s ∷ rest) zero h = (
  refl,
  λ j.
      elim j
        as (λ j.
          is_free (set_available (s ∷ rest) zero) j
          ≡ (if j == 0 then true else is_free (s ∷ rest) j)) [ zero ↦ refl | suc j ↦ ground arith ],
)
set_available_lem (s ∷ rest) (suc id) h =
    let (a, b) = set_available_lem rest id (omega arith) in
    (
      ap suc a,
      λ j.
          elim j
            as (λ j.
              is_free (set_available (s ∷ rest) (suc id)) j
              ≡ (if j == suc id then true else is_free (s ∷ rest) j)) [
                | zero ↦ ground arith
                | suc j ↦ ground (arith, b j)
              ],
    )

return_inside :
    (p : DbPool) (id : ℕ) → leb (length p) id ≡ false → return_worker p id ≡ set_available p id
unfolding return_worker
return_inside p id h = ground arith

return_outside : (p : DbPool) (id : ℕ) → leb (length p) id ≡ true → return_worker p id ≡ p
unfolding return_worker
return_outside p id h = ground arith

-- Returning a worker sets its slot free and leaves the others and the size alone; a number that
-- is no worker's changes nothing.
pub return_worker_lem :
    (p : DbPool) (id : ℕ)
    → (length (return_worker p id) ≡ length p)
      × ((j : ℕ)
          → is_free (return_worker p id) j ≡ (if j == id then ltb id (length p) else is_free p j))
return_worker_lem p id = elim (Bool-cases (leb (length p) id)) [
  | inl e ↦ rw (return_outside p id e) (refl, λ j. ground (arith, is_free_beyond p id))
  | inr e ↦
      let (a, b) = set_available_lem p id (ground arith) in
      rw (return_inside p id e) (a, λ j. ground (arith, b j))
]
