-- ===== src/Judge/Execution/Ended.antt =====
-- How a child has ended whose verdict Actuator::monitorChild (judge/src/actuators/Actuator.cpp) leaves
-- open, and the status that Judger::judge (judge/src/Judger.cpp) then gives.
use oj_backend.Prelude.{
  ℕ, ◌<◌, ◌≡◌, ◌≢◌, inl, inr, none, refl, sym, ◌∙◌, ap, false, Option, some, List, arith,
  Option-cases, to_uint32,
}
use oj_backend.Exceptions.Result.{ok}
use oj_backend.Judge.Monitor.{
  Bytes, ExecutionResult, Monitor, watch, initial, reap, exited_with, LastWait,
}
use oj_backend.Judge.Status.{TestResult, unknown, accepted}
use oj_backend.Judge.Outcome.{
  Run, StatLine, CgroupStats, unreadable, figures, monitor_child, memory_of, drain_both, finish,
  classify,
}
use oj_backend.Judge.Output.{watches, served}
use oj_backend.Judge.Reasons.{finish-unknown_iff}
use oj_backend.Judge.Judger.{decide, compare_output}
use oj_backend.Judge.Execution.Waits.{
  reports, CodeZero, watch-Knows, reaped-CodeZero, CodeZero-reaped,
}

-- The loop was left before a round found the deadline passed, the exit code is 0, and the recorded
-- peak is below the limit. The wait after the loop has no deadline.
abbrev pub EndedWell : ℕ → ℕ → Run → Type 0
EndedWell deadline limit run =
    (n : Monitor) × (watch deadline initial run.rounds ≡ some n)
    × (n.timeout ≡ false)
    × CodeZero (reports (served deadline initial run.rounds) run.rounds) n.process_exited
        run.last_wait
    × (peak : Option ℕ) × (lines : List StatLine) × (run.stats ≡ figures peak lines)
    × (to_uint32 (memory_of peak) < limit)

finish-open :
    (m : Monitor) (stats : CgroupStats) (limit : ℕ) {r : ExecutionResult}
    → finish m stats limit ≡ ok r
    → r.test_result.status ≡ unknown
    → (peak : Option ℕ) × (lines : List StatLine) × (stats ≡ figures peak lines)
      × (m.timeout ≡ false)
      × (to_uint32 (memory_of peak) < limit)
      × (m.status ≡ exited_with 0)
finish-open m (unreadable code) limit h u = unfold finish in cc
finish-open m (figures peak lines) limit h u =
    let (t, b, c) = (finish-unknown_iff m peak lines limit h).0 u in (peak, lines, refl, t, b, c)

finishes :
    (deadline limit : ℕ) (run : Run) (n m : Monitor) {r : ExecutionResult}
    → watch deadline initial run.rounds ≡ some n
    → reap n run.last_wait ≡ some m
    → monitor_child deadline limit run ≡ some (ok r)
    → finish (record m { stdout_data = r.stdout; stderr_data = r.stderr }) run.stats limit ≡ ok r
unfolding monitor_child drain_both finish
finishes deadline limit run n m e q h = ground arith

reaps_some :
    (deadline limit : ℕ) (run : Run) (n : Monitor) {r : ExecutionResult}
    → watch deadline initial run.rounds ≡ some n
    → monitor_child deadline limit run ≡ some (ok r)
    → reap n run.last_wait ≢ none
unfolding monitor_child
reaps_some deadline limit run n e h q = ground (arith, e, h, q)

reap-timeout : (n m : Monitor) (last : LastWait) → reap n last ≡ some m → n.timeout ≡ m.timeout
unfolding reap
reap-timeout n m last h = ground (arith, h)

-- The states after the loop and after the last wait.
ends_of :
    (deadline limit : ℕ) (run : Run) {r : ExecutionResult}
    → monitor_child deadline limit run ≡ some (ok r)
    → (n : Monitor) × (m : Monitor) × (watch deadline initial run.rounds ≡ some n)
      × (reap n run.last_wait ≡ some m)
ends_of deadline limit run h = elim (Option-cases (watch deadline initial run.rounds)) [
  | inl e ↦ absurd (watches deadline limit run h e)
  | inr (n, e) ↦ elim (Option-cases (reap n run.last_wait)) [
    | inl q ↦ absurd (reaps_some deadline limit run n e h q)
    | inr (m, q) ↦ (n, m, e, q)
  ]
]

pub open-EndedWell :
    (deadline limit : ℕ) (run : Run) {r : ExecutionResult}
    → monitor_child deadline limit run ≡ some (ok r)
    → r.test_result.status ≡ unknown
    → EndedWell deadline limit run
open-EndedWell deadline limit run {r} h u =
    let (n, m, e, q) = ends_of deadline limit run h in
    let last : Monitor = record m { stdout_data = r.stdout; stderr_data = r.stderr } in
    let (peak, lines, same, late, below, code) =
      finish-open last run.stats limit (finishes deadline limit run n m e q h) u in
    let seen = reports (served deadline initial run.rounds) run.rounds in
    let knows = watch-Knows deadline initial n run.rounds (refl, refl) e in
    (
      n,
      e,
      reap-timeout n m run.last_wait q ∙ late,
      reaped-CodeZero n seen run.last_wait knows q code,
      peak,
      lines,
      same,
      below,
    )

pub EndedWell-open :
    (deadline limit : ℕ) (run : Run) {r : ExecutionResult}
    → monitor_child deadline limit run ≡ some (ok r)
    → EndedWell deadline limit run
    → r.test_result.status ≡ unknown
EndedWell-open deadline limit run {r} h (n, e, late, zero_code, peak, lines, same, below) =
    elim (Option-cases (reap n run.last_wait)) [
      | inl q ↦ absurd (reaps_some deadline limit run n e h q)
      | inr (m, q) ↦
          let last : Monitor = record m { stdout_data = r.stdout; stderr_data = r.stderr } in
          let done : finish last (figures peak lines) limit ≡ ok r =
            ap (λ s. finish last s limit) (sym same) ∙ finishes deadline limit run n m e q h in
          let seen = reports (served deadline initial run.rounds) run.rounds in
          let knows = watch-Knows deadline initial n run.rounds (refl, refl) e in
          let code = CodeZero-reaped n seen run.last_wait knows q zero_code in
          (finish-unknown_iff last peak lines limit done).1
            (sym (reap-timeout n m run.last_wait q) ∙ late, below, code)
    ]

pub closed_verdict :
    (deadline limit : ℕ) (run : Run) (expected : Bytes) {r : ExecutionResult} {t : TestResult}
    → monitor_child deadline limit run ≡ some (ok r)
    → decide r expected ≡ some t
    → t.status ≡ accepted
    → r.test_result.status ≡ unknown
unfolding monitor_child drain_both finish classify decide
closed_verdict deadline limit run expected h d a = ground arith

pub accepted_result :
    (r : ExecutionResult) (expected : Bytes) {t : TestResult}
    → decide r expected ≡ some t
    → t.status ≡ accepted
    → r.test_result.status ≡ unknown
    → t ≡ record r.test_result { status = accepted }
unfolding decide compare_output
accepted_result r expected d a u = ground arith
