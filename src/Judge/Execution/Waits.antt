-- ===== src/Judge/Execution/Waits.antt =====
-- What the waits of Actuator::monitorChild (judge/src/actuators/Actuator.cpp) report of the child.
use oj_backend.Prelude.{
  ℕ, ◌≡◌, inl, inr, ◌⊎◌, Bool, true, none, zero, suc, [], ◌∷◌, refl, sym, ◌∙◌, ap, false, Option,
  some, List, arith, Bool-cases, some-injective, subst, leb, if◌then◌else◌,
}
use oj_backend.Judge.Monitor.{
  Monitor, watch, reap, exited_with, WaitStatus, WaitResult, reaped, still_running, no_child,
  wait_failed, ReadResult, PollResult, interrupted, poll_failed, polled, Round, LastWait, reaps,
  wait_fails, hangs, after_poll, serve, leaves, check_process, leave, again_with, round,
  read_stdout, read_stderr,
}
use oj_backend.Judge.Output.{served, served-round, round_late, round_early, round_again}
use oj_backend.Judge.Deadline.{watch_step}

-- What a round adds to the statuses reported later.
abbrev pub reported_by : PollResult → WaitResult → Option WaitStatus → Option WaitStatus
reported_by (polled out errors) (reaped s) later = some s
reported_by _ _ later = later

-- The status that the waits of the first rounds reported; a round whose poll fails makes none.
abbrev pub reports : ℕ → List Round → Option WaitStatus
reports zero rounds = none
reports (suc k) [] = none
reports (suc k) (r ∷ rest) = reported_by r.poll r.wait (reports k rest)

-- How the exit code 0 came about: a wait of the loop or the one after it reported it, or no wait
-- reported a status, and the 0 is the one that the variable is initialised with.
pub data CodeZero (seen : Option WaitStatus) (exited : Bool) (last : LastWait) : Type 0 where
  in_loop : seen ≡ some (exited_with 0) → CodeZero seen exited last
  after_loop :
      seen ≡ none → exited ≡ false → last ≡ reaps (exited_with 0) → CodeZero seen exited last
  unreported : seen ≡ none → (exited ≡ true) ⊎ (last ≡ wait_fails) → CodeZero seen exited last

-- What the loop knows of the status.
abbrev Knows : Monitor → Option WaitStatus → Type 0
Knows n none = n.status ≡ exited_with 0
Knows n (some s) = (n.status ≡ s) × (n.process_exited ≡ true)

-- A loop that goes on has seen no status.
abbrev IsWaiting : Monitor → Type 0
IsWaiting m = (m.process_exited ≡ false) × (m.status ≡ exited_with 0)

read-IsWaiting :
    (m : Monitor) (out errors : Option ReadResult)
    → IsWaiting m
    → IsWaiting (read_stderr (read_stdout m out) errors)
unfolding read_stdout read_stderr
read-IsWaiting m out errors h = ground (arith, h.0, h.1)

abbrev read_pipes : Monitor → Option ReadResult → Option ReadResult → Monitor
read_pipes m out errors =
    let m1 = read_stdout m (if m.stdout_open then out else none) in
    read_stderr m1 (if m.stderr_open then errors else none)

checked-Knows :
    (m : Monitor) (w : WaitResult)
    → IsWaiting m
    → Knows (check_process m w) (reported_by (polled none none) w none)
unfolding check_process
checked-Knows m (reaped s) h = (refl, refl)
checked-Knows m still_running h = h.1
checked-Knows m no_child h = h.1
checked-Knows m wait_failed h = h.1

checked-IsWaiting :
    (m : Monitor) (w : WaitResult)
    → IsWaiting m
    → (check_process m w).process_exited ≡ false
    → IsWaiting (check_process m w) × (reported_by (polled none none) w none ≡ none)
unfolding check_process
checked-IsWaiting m (reaped s) h q = cc
checked-IsWaiting m still_running h q = (h, refl)
checked-IsWaiting m no_child h q = cc
checked-IsWaiting m wait_failed h q = (h, refl)

left_if : (b : Bool) (x n : Monitor) → (if b then leave x else again_with x) ≡ leave n → x ≡ n
left_if b x n h = ground (arith, h)

again_if :
    (b : Bool) (x n : Monitor)
    → (if b then leave x else again_with x) ≡ again_with n
    → (b ≡ false) × (x ≡ n)
again_if b x n h = ground (arith, h)

same_report :
    (out errors : Option ReadResult) (w : WaitResult) (later : Option WaitStatus)
    → reported_by (polled none none) w none ≡ none
    → reported_by (polled out errors) w later ≡ later
same_report out errors (reaped s) later h = cc
same_report out errors still_running later h = refl
same_report out errors no_child later h = refl
same_report out errors wait_failed later h = refl

first_report :
    (out errors : Option ReadResult) (w : WaitResult)
    → reported_by (polled none none) w none ≡ reported_by (polled out errors) w none
first_report out errors (reaped s) = refl
first_report out errors still_running = refl
first_report out errors no_child = refl
first_report out errors wait_failed = refl

left-Knows :
    (m n : Monitor) (p : PollResult) (w : WaitResult)
    → IsWaiting m
    → after_poll m p w ≡ leave n
    → Knows n (reported_by p w none)
unfolding after_poll serve
left-Knows m n interrupted w x h = cc
left-Knows m n poll_failed w x h =
    let same : m ≡ n = ground (arith, h) in subst (λ k. Knows k none) same x.1
left-Knows m n (polled out errors) w x h =
    let pipes = read_pipes m out errors in
    let done = check_process pipes w in
    subst (λ k. Knows k (reported_by (polled out errors) w none)) (left_if (leaves done) done n h)
      (subst (Knows done) (first_report out errors w)
        (checked-Knows pipes w (read-IsWaiting m _ _ x)))

open_loop : (m : Monitor) → leaves m ≡ false → m.process_exited ≡ false
unfolding leaves
open_loop m h = ground (arith, h)

again-IsWaiting :
    (m n : Monitor) (p : PollResult) (w : WaitResult) (later : Option WaitStatus)
    → IsWaiting m
    → after_poll m p w ≡ again_with n
    → IsWaiting n × (reported_by p w later ≡ later)
unfolding after_poll serve
again-IsWaiting m n interrupted w later x h =
    let same : m ≡ n = ground (arith, h) in (subst IsWaiting same x, refl)
again-IsWaiting m n poll_failed w later x h = cc
again-IsWaiting m n (polled out errors) w later x h =
    let pipes = read_pipes m out errors in
    let done = check_process pipes w in
    let (b, e) = again_if (leaves done) done n h in
    let (k, q) = checked-IsWaiting pipes w (read-IsWaiting m _ _ x) (open_loop done b) in
    (subst IsWaiting e k, same_report out errors w later q)

round-Knows :
    (deadline : ℕ) (m n : Monitor) (r : Round) (rest : List Round)
    → IsWaiting m
    → round deadline m r ≡ leave n
    → Knows n (reports (if leb deadline r.now then 0 else 1) (r ∷ rest))
round-Knows deadline m n r rest x h = elim (Bool-cases (leb deadline r.now)) [
  | inl l ↦ rw l (subst (λ k. Knows k none) (round_late deadline m n r l h) x.1)
  | inr l ↦ rw l (left-Knows m n r.poll r.wait x (round_early deadline m n r l h))
]

pub watch-Knows :
    (deadline : ℕ) (m n : Monitor) (rounds : List Round)
    → IsWaiting m
    → watch deadline m rounds ≡ some n
    → Knows n (reports (served deadline m rounds) rounds)
watch-Knows deadline m n [] x h = unfold watch in cc
watch-Knows deadline m n (r ∷ rest) x h = elim (watch_step deadline m r rest) [
  | inl (l, s, w) ↦
      subst (λ k. Knows n (reports k (r ∷ rest))) (sym (served-round deadline m r rest s))
        (round-Knows deadline m n r rest x (s ∙ ap leave (some-injective (sym w ∙ h))))
  | inr (l, s, w) ↦
      let later = reports (served deadline l rest) rest in
      let (y, q) = again-IsWaiting m l r.poll r.wait later x (round_again deadline m l r s) in
      subst (λ k. Knows n (reports k (r ∷ rest))) (sym (served-round deadline m r rest s))
        (subst (Knows n) (sym q) (watch-Knows deadline l n rest y (sym w ∙ h)))
]

pub reaped-CodeZero :
    (n : Monitor) (seen : Option WaitStatus) (last : LastWait) {m : Monitor}
    → Knows n seen
    → reap n last ≡ some m
    → m.status ≡ exited_with 0
    → CodeZero seen n.process_exited last
unfolding reap
reaped-CodeZero n (some s) last (k, e) h c = in_loop (ground (arith, h, c, k, e))
reaped-CodeZero n none (reaps s) k h c = elim (Bool-cases n.process_exited) [
  | inl e ↦ unreported refl (inl e)
  | inr e ↦
      let code : s ≡ exited_with 0 = ground (arith, e, h, c) in after_loop refl e (ap reaps code)
]
reaped-CodeZero n none wait_fails k h c = unreported refl (inr refl)
reaped-CodeZero n none hangs k h c = elim (Bool-cases n.process_exited) [
  | inl e ↦ unreported refl (inl e)
  | inr e ↦ absurd (ground (arith, e, h))
]

pub CodeZero-reaped :
    (n : Monitor) (seen : Option WaitStatus) (last : LastWait) {m : Monitor}
    → Knows n seen
    → reap n last ≡ some m
    → CodeZero seen n.process_exited last
    → m.status ≡ exited_with 0
unfolding reap
CodeZero-reaped n (some s) last k h (in_loop e) = ground (arith, h, k.0, k.1, e)
CodeZero-reaped n none last k h (after_loop e x l) = ground (arith, h, x, l)
CodeZero-reaped n none last k h (unreported e (inl x)) = ground (arith, h, x, k)
CodeZero-reaped n none last k h (unreported e (inr l)) = ground (arith, h, l, k)
CodeZero-reaped n none last k h (in_loop e) = cc
CodeZero-reaped n (some s) last k h (after_loop e x l) = cc
CodeZero-reaped n (some s) last k h (unreported e x) = cc
