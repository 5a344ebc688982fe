-- ===== src/Judge/Reasons.antt =====
-- The verdict of Actuator::monitorChild on how a process ended, against its meaning.
use oj_backend.Prelude.{
  refl, ℕ, ◌/◌, ◌^◌, ◌≤◌, ◌<◌, ◌≡◌, ◌≢◌, ◌↔◌, inl, inr, Bool, true, false, Option, none, some, List,
  [], ◌∷◌, ◌++◌, any, arith, to_uint32, Option-cases, u32_mod,
}
use oj_backend.Exceptions.Result.{ok}
use oj_backend.Judge.Status.{unknown, memory_limit_exceeded, time_limit_exceeded}
use oj_backend.Judge.Monitor.{
  ExecutionResult, Monitor, exited_with, chunk, eof, again, failed, Bytes, watch, initial, reap,
  LastWait, reaps, wait_fails, hangs, ReadResult, drain,
}
use oj_backend.Judge.Deadline.{is_late, watch_ends}
use oj_backend.Judge.Outcome.{StatLine, figures, finish, memory_of, Run, drain_both, monitor_child}

module _ (m : Monitor) (peak : Option ℕ) (lines : List StatLine) (limit : ℕ) {r : ExecutionResult}
    (done : finish m (figures peak lines) limit ≡ ok r) where
  open_verdict :
      m.timeout ≡ false
      → to_uint32 (memory_of peak) < limit
      → m.status ≡ exited_with 0
      → r.test_result.status ≡ unknown
  unfolding finish
  open_verdict t l c = ground arith

  open_verdict_only :
      r.test_result.status ≡ unknown
      → (m.timeout ≡ false) × (to_uint32 (memory_of peak) < limit) × (m.status ≡ exited_with 0)
  unfolding finish
  open_verdict_only h = ground arith

  -- A run whose figures could be read is left to the comparison of its output exactly when it did
  -- not time out, stayed below the memory limit (as `uint32_t`), and its status is exit code 0.
  pub finish-unknown_iff :
      (r.test_result.status ≡ unknown)
      ↔ ((m.timeout ≡ false) × (to_uint32 (memory_of peak) < limit) × (m.status ≡ exited_with 0))
  finish-unknown_iff = (open_verdict_only, λ (t, l, c). open_verdict t l c)

-- With a recorded peak below 2 TiB, a run that did not time out exceeds its memory limit exactly
-- when the peak, in whole kilobytes, reaches the limit.
pub finish-memory_iff :
    (m : Monitor) (peak : ℕ) (lines : List StatLine) (limit : ℕ) {r : ExecutionResult}
    → peak < 2 ^ 41
    → m.timeout ≡ false
    → finish m (figures (some peak) lines) limit ≡ ok r
    → (r.test_result.status ≡ memory_limit_exceeded) ↔ (limit ≤ peak / 1024)
unfolding finish
finish-memory_iff m peak lines limit b t done = (λ e. ground arith, λ l. ground arith)

-- Where the control group has no memory.peak, the memory of -1 KB is compared as 4294967295: every
-- run that did not time out is judged to exceed its memory limit, however it ended.
pub finish_no_peak :
    (m : Monitor) (lines : List StatLine) (limit : ℕ) {r : ExecutionResult}
    → limit < u32_mod
    → m.timeout ≡ false
    → finish m (figures none lines) limit ≡ ok r
    → r.test_result.status ≡ memory_limit_exceeded
unfolding finish
finish_no_peak m lines limit b t done = ground arith

-- A run that left the polling loop by its deadline is judged to exceed the time limit, whatever it
-- had written, used and returned.
pub monitor_child_timeout :
    (deadline limit : ℕ) (run : Run) (m : Monitor) {r : ExecutionResult}
    → watch deadline initial run.rounds ≡ some m
    → m.timeout ≡ true
    → monitor_child deadline limit run ≡ some (ok r)
    → r.test_result.status ≡ time_limit_exceeded
unfolding monitor_child drain_both reap finish
monitor_child_timeout deadline limit run m w t done = ground arith

-- A read that ends a drain loop: end of file, or an error other than EAGAIN.
abbrev pub is_end : ReadResult → Bool
is_end eof = true
is_end failed = true
is_end _ = false

drain_ends :
    (got : Bytes) (reads : List ReadResult) → any is_end reads ≡ true → drain got reads ≢ none
unfolding drain
drain_ends got [] h = cc
drain_ends got (chunk b ∷ rest) h = drain_ends (got ++ b) rest h
drain_ends got (eof ∷ rest) h = λ q. cc
drain_ends got (again ∷ rest) h = drain_ends got rest h
drain_ends got (failed ∷ rest) h = λ q. cc

reap-none :
    (m : Monitor) (last : LastWait)
    → reap m last ≡ none
    → (m.process_exited ≡ false) × (last ≡ hangs)
unfolding reap
reap-none m (reaps s) h = absurd (ground (arith, h))
reap-none m wait_fails h = absurd (ground (arith, h))
reap-none m hangs h = (ground (arith, h), refl)

-- The loop is left, the child has not been reaped in it, and the wait after it never returns.
abbrev pub WaitsForever : ℕ → Run → Type 0
WaitsForever deadline run =
    (m : Monitor) × (watch deadline initial run.rounds ≡ some m)
    × (m.process_exited ≡ false)
    × (run.last_wait ≡ hangs)

WaitsForever-none :
    (deadline limit : ℕ) (run : Run)
    → WaitsForever deadline run
    → monitor_child deadline limit run ≡ none
unfolding monitor_child reap
WaitsForever-none deadline limit run (m, w, e, h) = ground (arith, w, e, h)

drained :
    (deadline limit : ℕ) (run : Run) (m n : Monitor)
    → watch deadline initial run.rounds ≡ some m
    → reap m run.last_wait ≡ some n
    → any is_end run.stdout_rest ≡ true
    → any is_end run.stderr_rest ≡ true
    → monitor_child deadline limit run ≢ none
unfolding monitor_child drain_both
drained deadline limit run m n e q out errors h = ground (
  arith,
  h,
  e,
  q,
  drain_ends n.stdout_data run.stdout_rest out,
  drain_ends n.stderr_data run.stderr_rest errors,
)

loop_ends :
    (deadline : ℕ) (run : Run)
    → any (is_late deadline) run.rounds ≡ true
    → (m : Monitor) × (watch deadline initial run.rounds ≡ some m)
loop_ends deadline run late = elim (Option-cases (watch deadline initial run.rounds)) [
  | inl e ↦ absurd (watch_ends deadline initial run.rounds late e)
  | inr found ↦ found
]

-- If some round starts at or after the deadline, or would if the loop got to it, and both pipes
-- reach their end, then monitorChild ends, except in one case, in which it never does: the child was
-- not reaped in the loop, and the wait after the loop, which has no limit of time, never returns.
pub monitor_child_ends :
    (deadline limit : ℕ) (run : Run)
    → any (is_late deadline) run.rounds ≡ true
    → any is_end run.stdout_rest ≡ true
    → any is_end run.stderr_rest ≡ true
    → (monitor_child deadline limit run ≡ none) ↔ WaitsForever deadline run
monitor_child_ends deadline limit run late out errors =
    let (m, e) = loop_ends deadline run late in
    (
      λ h. elim (Option-cases (reap m run.last_wait)) [
        | inl q ↦ let (x, l) = reap-none m run.last_wait q in (m, e, x, l)
        | inr (n, q) ↦ absurd (drained deadline limit run m n e q out errors h)
      ],
      WaitsForever-none deadline limit run,
    )
