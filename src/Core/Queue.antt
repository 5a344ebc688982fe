-- ===== src/Core/Queue.antt =====
-- core/include/Queue.hpp and core/include/Queue.inl: the bounded queue between threads. A call is
-- one step under the mutex, taken when its wait is over.
pub mod Fifo
use oj_backend.Prelude.{
  ℕ, Bool, true, false, ◌&&◌, ◌||◌, not, Option, none, some, List, [], ◌∷◌, ◌++◌, ltb, length,
  if◌then◌else◌,
}

pub record Queue {ℓ} (A : Type ℓ) : Type ℓ where
  pub items : List A
  pub max_size : ℕ
  pub is_shut : Bool

abbrev pub is_empty {ℓ} : {A : Type ℓ} → List A → Bool
is_empty [] = true
is_empty (x ∷ xs) = false

module _ {ℓ} {A : Type ℓ} where
  -- Queue(size_t maxItems)
  unfoldable pub make_queue : ℕ → Queue A
  make_queue max_items = record { items = []; max_size = max_items; is_shut = false }

  -- Queue::push. `none`: the call still waits for room.
  unfoldable pub push : A → Queue A → Option (Bool × Queue A)
  push a q =
      if ltb (length q.items) q.max_size || q.is_shut
      then (if q.is_shut
          then some (false, q)
          else some (true, record q { items = q.items ++ a ∷ [] }))
      else none

  -- Queue::pop, where the wait ends by its condition or by the timeout. `none` is the result false.
  unfoldable pub pop : Queue A → Option A × Queue A
  pop q = elim q.items [ [] ↦ (none, q) | a ∷ rest ↦ (some a, record q { items = rest }) ]

  -- Queue::shutdown
  unfoldable pub shutdown : Queue A → Queue A
  shutdown q = record q { is_shut = true }
