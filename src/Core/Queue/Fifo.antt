-- ===== src/Core/Queue/Fifo.antt =====
-- The queue as a channel: order, bound and shutdown, over every sequence of calls.
use mathlib.Core.List.{append-nil, append_assoc}
use oj_backend.Prelude.{
  ℕ, ◌≤◌, ◌≡◌, refl, sym, ◌∙◌, ap, Bool, true, false, Option, none, some, List, [], ◌∷◌, ◌++◌,
  length, length-append, arith, replicate,
}
use oj_backend.Core.Queue.{Queue, make_queue, push, pop, shutdown}

pub data Call {ℓ} (A : Type ℓ) : Type ℓ where
  pushes : A → Call A
  pops : Call A
  shuts : Call A

-- The queue, what `push` has accepted, and what `pop` has delivered, oldest first.
pub record Channel {ℓ} (A : Type ℓ) : Type ℓ where
  pub queue : Queue A
  pub accepted : List A
  pub delivered : List A

module _ {ℓ} {A : Type ℓ} where
  abbrev pushed : A → Channel A → Option (Bool × Queue A) → Channel A
  pushed a c none = c
  pushed a c (some (true, q)) = record c { queue = q; accepted = c.accepted ++ a ∷ [] }
  pushed a c (some (false, q)) = record c { queue = q }

  abbrev popped : Channel A → Option A × Queue A → Channel A
  popped c (none, q) = record c { queue = q }
  popped c (some a, q) = record c { queue = q; delivered = c.delivered ++ a ∷ [] }

  -- A push that has to wait changes nothing yet.
  unfoldable pub step : Channel A → Call A → Channel A
  step c (pushes a) = pushed a c (push a c.queue)
  step c pops = popped c (pop c.queue)
  step c shuts = record c { queue = shutdown c.queue }

  unfoldable pub run : Channel A → List (Call A) → Channel A
  run c [] = c
  run c (k ∷ ks) = run (step c k) ks

  abbrev pub opened : ℕ → Channel A
  opened max_items = record { queue = make_queue max_items; accepted = []; delivered = [] }

  -- What was accepted has been delivered in that order, or still waits in that order; and the
  -- queue is within its bound.
  pub record IsFifo (max_items : ℕ) (c : Channel A) : Type ℓ where
    pub order : c.accepted ≡ c.delivered ++ c.queue.items
    pub bound : length c.queue.items ≤ max_items
    pub size : c.queue.max_size ≡ max_items

  push-IsFifo : (n : ℕ) (a : A) (c : Channel A) → IsFifo n c → IsFifo n (step c (pushes a))
  unfolding step push
  push-IsFifo n a c h = record {
    order = ground (arith, append_assoc c.delivered c.queue.items (a ∷ []));
    bound = ground (arith, length-append c.queue.items (a ∷ []));
    size = ground arith;
  }

  pop_order :
      (c : Channel A) (xs : List A)
      → c.queue.items ≡ xs
      → c.accepted ≡ c.delivered ++ c.queue.items
      → (step c pops).accepted ≡ (step c pops).delivered ++ (step c pops).queue.items
  unfolding step pop
  pop_order c [] e h = ground arith
  pop_order c (x ∷ xs) e h = ground (arith, append_assoc c.delivered (x ∷ []) xs)

  pop-IsFifo : (n : ℕ) (c : Channel A) → IsFifo n c → IsFifo n (step c pops)
  unfolding step pop
  pop-IsFifo n c h = record {
    order = pop_order c c.queue.items refl h.order;
    bound = ground arith;
    size = ground arith;
  }

  step-IsFifo : (n : ℕ) (c : Channel A) (k : Call A) → IsFifo n c → IsFifo n (step c k)
  step-IsFifo n c (pushes a) h = push-IsFifo n a c h
  step-IsFifo n c pops h = pop-IsFifo n c h
  step-IsFifo n c shuts h =
      unfold step shutdown in record { order = h.order; bound = h.bound; size = h.size }

  run-IsFifo : (n : ℕ) (c : Channel A) (ks : List (Call A)) → IsFifo n c → IsFifo n (run c ks)
  unfolding run
  run-IsFifo n c [] h = h
  run-IsFifo n c (k ∷ ks) h = run-IsFifo n (step c k) ks (step-IsFifo n c k h)

  -- Whatever the threads call, items leave the queue in the order in which they were accepted,
  -- none is lost or made up, and the queue never holds more than its bound.
  pub run_fifo :
      (n : ℕ) (ks : List (Call A))
      → let c = run (opened n) ks in
        (c.accepted ≡ c.delivered ++ c.queue.items) × (length c.queue.items ≤ n)
  run_fifo n ks =
      let h =
        run-IsFifo n (opened n) ks
          (unfold make_queue in record { order = refl; bound = omega arith; size = refl }) in
      (h.order, h.bound)

  pop_first :
      (c : Channel A) (x : A) (xs : List A)
      → c.queue.items ≡ x ∷ xs
      → ((step c pops).queue.items ≡ xs)
        × ((step c pops).delivered ≡ c.delivered ++ x ∷ [])
        × ((step c pops).queue.is_shut ≡ c.queue.is_shut)
  unfolding step pop
  pop_first c x xs e = ground arith

  shut_refuses : (c : Channel A) (a : A) → c.queue.is_shut ≡ true → step c (pushes a) ≡ c
  unfolding step push
  shut_refuses c a h = ground arith

  drains :
      (xs : List A) (c : Channel A)
      → c.queue.items ≡ xs
      → c.queue.is_shut ≡ true
      → let d = run c (replicate (length xs) pops) in
        (d.delivered ≡ c.delivered ++ xs) × (d.queue.items ≡ []) × ((a : A) → step d (pushes a) ≡ d)
  unfolding run
  drains [] c e h = (sym (append-nil c.delivered), e, λ a. shut_refuses c a h)
  drains (x ∷ xs) c e h =
      let (i, d, s) = pop_first c x xs e in
      let (p, q, r) = drains xs (step c pops) i (s ∙ h) in
      (p ∙ ap (λ l. l ++ xs) d ∙ append_assoc c.delivered (x ∷ []) xs, q, r)

  -- Once the queue is shut, pushes are refused and nothing that was accepted is lost: as many pops
  -- as there are items deliver all of them, in order.
  pub shutdown_drains :
      (xs : List A) (c : Channel A)
      → c.queue.items ≡ xs
      → let d = run (step c shuts) (replicate (length xs) pops) in
        (d.delivered ≡ c.delivered ++ xs) × (d.queue.items ≡ []) × ((a : A) → step d (pushes a) ≡ d)
  unfolding step shutdown
  shutdown_drains xs c e = drains xs (step c shuts) e refl
