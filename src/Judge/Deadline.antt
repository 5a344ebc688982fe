-- ===== src/Judge/Deadline.antt =====
-- The polling loop of Actuator::monitorChild: when it ends, and what a timeout means.
use oj_backend.Prelude.{
  ℕ, ◌≤◌, ◌≡◌, ◌≢◌, refl, sym, ◌∙◌, ◌⊎◌, inl, inr, Bool, true, false, none, some, List, [], ◌∷◌,
  leb, arith, any,
}
use oj_backend.Judge.Monitor.{
  Monitor, Round, poll_timeout, watch, Control, leave, again_with, round,
}

-- Whether a round starts at or after the deadline.
abbrev pub is_late : ℕ → Round → Bool
is_late deadline r = leb deadline r.now

Control-cases :
    (c : Control) → ((m : Monitor) × (c ≡ leave m)) ⊎ ((m : Monitor) × (c ≡ again_with m))
Control-cases (leave m) = inl (m, refl)
Control-cases (again_with m) = inr (m, refl)

pub watch_step :
    (deadline : ℕ) (m : Monitor) (r : Round) (rest : List Round)
    → ((n : Monitor) × (round deadline m r ≡ leave n) × (watch deadline m (r ∷ rest) ≡ some n))
      ⊎ ((n : Monitor) × (round deadline m r ≡ again_with n)
          × (watch deadline m (r ∷ rest) ≡ watch deadline n rest))
unfolding watch
watch_step deadline m r rest = elim (Control-cases (round deadline m r)) [
  | inl (n, e) ↦ inl (n, e, rw (e, watch))
  | inr (n, e) ↦ inr (n, e, rw (e, watch))
]

round_late :
    (deadline : ℕ) (m n : Monitor) (r : Round)
    → round deadline m r ≡ again_with n
    → is_late deadline r ≡ false
unfolding round
round_late deadline m n r h = ground arith

-- If some round starts at or after the deadline, the polling loop ends within the rounds.
pub watch_ends :
    (deadline : ℕ) (m : Monitor) (rounds : List Round)
    → any (is_late deadline) rounds ≡ true
    → watch deadline m rounds ≢ none
watch_ends deadline m [] h = cc
watch_ends deadline m (r ∷ rest) h = elim (watch_step deadline m r rest) [
  | inl (n, e, w) ↦ rw w (λ q. cc)
  | inr (n, e, w) ↦ rw w (watch_ends deadline n rest (ground (arith, round_late deadline m n r e)))
]

round_timeout :
    (deadline : ℕ) (m n : Monitor) (r : Round)
    → m.process_exited ≡ false
    → round deadline m r ≡ again_with n
    → (n.timeout ≡ m.timeout) × (n.process_exited ≡ false)
unfolding round
round_timeout deadline m n r k h = ground arith

leave_timeout :
    (deadline : ℕ) (m n : Monitor) (r : Round)
    → m.timeout ≡ false
    → m.process_exited ≡ false
    → round deadline m r ≡ leave n
    → n.timeout ≡ true
    → (is_late deadline r ≡ true) × (n.process_exited ≡ false)
unfolding round
leave_timeout deadline m n r h k e t = ground arith

-- A timeout is only recorded when a round started at or after the deadline, and then the process
-- has not been reaped yet.
pub watch_timeout :
    (deadline : ℕ) (m n : Monitor) (rounds : List Round)
    → m.timeout ≡ false
    → m.process_exited ≡ false
    → watch deadline m rounds ≡ some n
    → n.timeout ≡ true
    → (any (is_late deadline) rounds ≡ true) × (n.process_exited ≡ false)
watch_timeout deadline m n [] h k e t = unfold watch in cc
watch_timeout deadline m n (r ∷ rest) h k e t = elim (watch_step deadline m r rest) [
  | inl (l, s, w) ↦
      let (a, b) = leave_timeout deadline m l r h k s (ground arith) in (ground arith, ground arith)
  | inr (l, s, w) ↦
      let step = round_timeout deadline m l r k s in
      let (a, b) = watch_timeout deadline l n rest (ground arith) (ground arith) (sym w ∙ e) t in
      (ground arith, ground arith)
]

-- poll never waits less than 10 or more than 100 milliseconds.
pub poll_timeout_bounds :
    (deadline now : ℕ) → (10 ≤ poll_timeout deadline now) × (poll_timeout deadline now ≤ 100)
unfolding poll_timeout
poll_timeout_bounds deadline now = ground arith
