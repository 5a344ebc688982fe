-- ===== src/Judge/Output.antt =====
-- The output that Actuator::monitorChild (judge/src/actuators/Actuator.cpp) collects, against what
-- the reads of the two pipes gave.
use mathlib.Core.List.{append-nil, append_assoc}
use oj_backend.Judge.Streams.{
  stream, outs, errs, nothing_more, OutFrom, ErrFrom, again-streams, left-streams,
}
use oj_backend.Prelude.{
  ℕ, suc, ◌≡◌, ◌≢◌, refl, sym, subst, ◌∙◌, ap, inl, inr, Bool, true, none, some, List, [], ◌∷◌,
  ◌++◌, map, arith, Option-cases, Bool-cases, leb, if◌then◌else◌, false,
}
use oj_backend.Exceptions.Result.{ok}
use oj_backend.Judge.Monitor.{
  Bytes, ExecutionResult, ReadResult, chunk, eof, again, failed, Round, Control, Monitor, initial,
  watch, leave, again_with, round, after_poll, drain, reap,
}
use oj_backend.Judge.Deadline.{watch_step}
use oj_backend.Judge.Outcome.{Run, drain_both, monitor_child, finish}

-- The rounds that the loop takes, as far as the pipes go.
abbrev pub Taken : Monitor → Monitor → List Round → ℕ → Type 0
Taken m n rounds k =
    (OutFrom n [] ≡ OutFrom m (outs k rounds)) × (ErrFrom n [] ≡ ErrFrom m (errs k rounds))

pub round_again :
    (deadline : ℕ) (m n : Monitor) (r : Round)
    → round deadline m r ≡ again_with n
    → after_poll m r.poll r.wait ≡ again_with n
unfolding round
round_again deadline m n r h = ground arith

pub round_late :
    (deadline : ℕ) (m n : Monitor) (r : Round)
    → leb deadline r.now ≡ true
    → round deadline m r ≡ leave n
    → record m { timeout = true } ≡ n
unfolding round
round_late deadline m n r l h = ground (arith, l, h)

pub round_early :
    (deadline : ℕ) (m n : Monitor) (r : Round)
    → leb deadline r.now ≡ false
    → round deadline m r ≡ leave n
    → after_poll m r.poll r.wait ≡ leave n
unfolding round
round_early deadline m n r l h = ground (arith, l, h)

-- The number of rounds whose poll the loop gets to: all that it takes, less one that finds the
-- deadline passed.
abbrev pub served : ℕ → Monitor → List Round → ℕ
served deadline m [] = 0
served deadline m (r ∷ rest) = elim (round deadline m r) [
  | leave n ↦ if leb deadline r.now then 0 else 1
  | again_with n ↦ suc (served deadline n rest)
]

pub served-round :
    (deadline : ℕ) (m : Monitor) (r : Round) (rest : List Round) {c : Control}
    → round deadline m r ≡ c
    → served deadline m (r ∷ rest) ≡ elim c as (λ _. ℕ) [
      | leave n ↦ if leb deadline r.now then 0 else 1
      | again_with n ↦ suc (served deadline n rest)
    ]
served-round deadline m r rest h =
    ap
      (λ (c : Control). elim c as (λ _. ℕ) [
        | leave n ↦ if leb deadline r.now then 0 else 1
        | again_with n ↦ suc (served deadline n rest)
      ])
      h

left-Taken :
    (deadline : ℕ) (m n : Monitor) (r : Round) (rest : List Round)
    → round deadline m r ≡ leave n
    → Taken m n (r ∷ rest) (if leb deadline r.now then 0 else 1)
left-Taken deadline m n r rest h = elim (Bool-cases (leb deadline r.now)) [
  | inl l ↦ rw l (rw⁻¹ (round_late deadline m n r l h) (refl, refl))
  | inr l ↦ rw l (left-streams m n r.poll r.wait (round_early deadline m n r l h))
]

same_state : {a b : Monitor} → some a ≡ some b → a ≡ b
same_state h = cc

same_bytes : {a b : Bytes} → some a ≡ some b → a ≡ b
same_bytes h = cc

watch-Taken :
    (deadline : ℕ) (m n : Monitor) (rounds : List Round)
    → watch deadline m rounds ≡ some n
    → Taken m n rounds (served deadline m rounds)
watch-Taken deadline m n [] h = unfold watch in cc
watch-Taken deadline m n (r ∷ rest) h = elim (watch_step deadline m r rest) [
  | inl (l, s, w) ↦
      subst (Taken m n (r ∷ rest)) (sym (served-round deadline m r rest s))
        (left-Taken deadline m n r rest (s ∙ ap leave (same_state (sym w ∙ h))))
  | inr (l, s, w) ↦
      let taken = watch-Taken deadline l n rest (sym w ∙ h) in
      let k = served deadline l rest in
      let (o, e) =
        again-streams m l r.poll r.wait (outs k rest) (errs k rest)
          (round_again deadline m l r s) in
      subst (Taken m n (r ∷ rest)) (sym (served-round deadline m r rest s))
        (taken.0 ∙ o, taken.1 ∙ e)
]

drain-stream :
    (got out : Bytes) (reads : List ReadResult)
    → drain got reads ≡ some out
    → out ≡ got ++ stream true (map (λ r. some r) reads)
unfolding drain
drain-stream got out [] h = cc
drain-stream got out (chunk bytes ∷ rest) h =
    drain-stream (got ++ bytes) out rest h
    ∙ append_assoc got bytes (stream true (map (λ r. some r) rest))
drain-stream got out (eof ∷ rest) h = sym (same_bytes h) ∙ sym (append-nil got)
drain-stream got out (again ∷ rest) h = drain-stream got out rest h
drain-stream got out (failed ∷ rest) h = sym (same_bytes h) ∙ sym (append-nil got)

gathered : {got all : Bytes} (is_open : Bool) → got ++ stream is_open [] ≡ all → got ≡ all
gathered {got} is_open h = sym (nothing_more got is_open) ∙ h

after_loop : {a b : Bytes} (rest : Bytes) → a ≡ b → a ++ rest ≡ b ++ rest
after_loop rest h = ap (λ x. x ++ rest) h

drains :
    (deadline limit : ℕ) (run : Run) (m : Monitor) {r : ExecutionResult}
    → watch deadline initial run.rounds ≡ some m
    → monitor_child deadline limit run ≡ some (ok r)
    → (drain m.stdout_data run.stdout_rest ≡ some r.stdout)
      × (drain m.stderr_data run.stderr_rest ≡ some r.stderr)
unfolding monitor_child drain_both reap finish
drains deadline limit run m e h = ground arith

pub watches :
    (deadline limit : ℕ) (run : Run) {r : ExecutionResult}
    → monitor_child deadline limit run ≡ some (ok r)
    → watch deadline initial run.rounds ≢ none
unfolding monitor_child
watches deadline limit run h e = ground arith

-- Nothing that the two pipes give is lost or reordered: when monitorChild returns, stdout is what
-- the reads of the first pipe gave in the rounds that the loop took, up to the end of the pipe, and
-- then what the last reads of it gave up to its end, and so for stderr.
pub monitor_child_output :
    (deadline limit : ℕ) (run : Run) {r : ExecutionResult}
    → monitor_child deadline limit run ≡ some (ok r)
    → (r.stdout
        ≡ stream true (outs (served deadline initial run.rounds) run.rounds)
          ++ stream true (map (λ x. some x) run.stdout_rest))
      × (r.stderr
          ≡ stream true (errs (served deadline initial run.rounds) run.rounds)
            ++ stream true (map (λ x. some x) run.stderr_rest))
monitor_child_output deadline limit run h =
    elim (Option-cases (watch deadline initial run.rounds)) [
      | inl e ↦ absurd (watches deadline limit run h e)
      | inr (m, e) ↦
          let (out, errors) = drains deadline limit run m e h in
          let (o, q) = watch-Taken deadline initial m run.rounds e in
          (
            drain-stream m.stdout_data _ run.stdout_rest out
                ∙ after_loop _ (gathered m.stdout_open o),
            drain-stream m.stderr_data _ run.stderr_rest errors
                ∙ after_loop _ (gathered m.stderr_open q),
          )
    ]
