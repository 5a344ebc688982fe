-- ===== src/Judge/Streams.antt =====
-- One round of Actuator::monitorChild (judge/src/actuators/Actuator.cpp) as seen from the two pipes:
-- the bytes that they give over a sequence of polls.
use mathlib.Core.List.{append-nil, append_assoc}
use oj_backend.Prelude.{
  ℕ, zero, suc, ◌≡◌, refl, inl, inr, Bool, true, false, Option, none, some, List, [], ◌∷◌, ◌++◌,
  arith, Bool-cases, if◌then◌else◌,
}
use oj_backend.Judge.Monitor.{
  Bytes, ReadResult, chunk, eof, again, failed, PollResult, interrupted, poll_failed, polled,
  WaitResult, Round, Monitor, leave, again_with, after_poll, serve, read_stdout, read_stderr,
  check_process,
}

-- The bytes that a pipe gives over a sequence of polls, up to its end.
abbrev pub stream : Bool → List (Option ReadResult) → Bytes
stream false reads = []
stream true [] = []
stream true (none ∷ rest) = stream true rest
stream true (some (chunk bytes) ∷ rest) = bytes ++ stream true rest
stream true (some eof ∷ rest) = []
stream true (some again ∷ rest) = stream true rest
stream true (some failed ∷ rest) = []

-- What a poll makes of each pipe.
abbrev pub out_of : PollResult → Option ReadResult
out_of (polled out errors) = out
out_of _ = none

abbrev pub err_of : PollResult → Option ReadResult
err_of (polled out errors) = errors
err_of _ = none

abbrev pub outs : ℕ → List Round → List (Option ReadResult)
outs zero rounds = []
outs (suc k) [] = []
outs (suc k) (r ∷ rest) = out_of r.poll ∷ outs k rest

abbrev pub errs : ℕ → List Round → List (Option ReadResult)
errs zero rounds = []
errs (suc k) [] = []
errs (suc k) (r ∷ rest) = err_of r.poll ∷ errs k rest

-- One pipe in one round: `reads` are the polls to come.
chunk_first :
    (got bytes : Bytes) (reads : List (Option ReadResult))
    → (got ++ bytes) ++ stream true reads ≡ got ++ stream true (some (chunk bytes) ∷ reads)
chunk_first got bytes reads = append_assoc got bytes (stream true reads)

stdout_open-stream :
    (m : Monitor) (out : Option ReadResult) (reads : List (Option ReadResult))
    → m.stdout_open ≡ true
    → (read_stdout m out).stdout_data ++ stream (read_stdout m out).stdout_open reads
      ≡ m.stdout_data ++ stream true (out ∷ reads)
unfolding read_stdout
stdout_open-stream m none reads e = rw e refl
stdout_open-stream m (some (chunk bytes)) reads e = rw e (chunk_first m.stdout_data bytes reads)
stdout_open-stream m (some eof) reads e = refl
stdout_open-stream m (some again) reads e = rw e refl
stdout_open-stream m (some failed) reads e = refl

read_stdout-stream :
    (m : Monitor) (out : Option ReadResult) (reads : List (Option ReadResult))
    → (read_stdout m (if m.stdout_open then out else none)).stdout_data
        ++ stream (read_stdout m (if m.stdout_open then out else none)).stdout_open reads
      ≡ m.stdout_data ++ stream m.stdout_open (out ∷ reads)
unfolding read_stdout
read_stdout-stream m out reads = elim (Bool-cases m.stdout_open) [
  | inr e ↦ simp e
  | inl e ↦ simp (e, stdout_open-stream m out reads e)
]

serve-out :
    (m : Monitor) (out errors : Option ReadResult) (wait : WaitResult)
    (reads : List (Option ReadResult))
    → (serve m out errors wait).stdout_data ++ stream (serve m out errors wait).stdout_open reads
      ≡ m.stdout_data ++ stream m.stdout_open (out ∷ reads)
unfolding serve read_stderr check_process
serve-out m out errors wait reads = ground (arith, read_stdout-stream m out reads)

stderr_open-stream :
    (m : Monitor) (errors : Option ReadResult) (reads : List (Option ReadResult))
    → m.stderr_open ≡ true
    → (read_stderr m errors).stderr_data ++ stream (read_stderr m errors).stderr_open reads
      ≡ m.stderr_data ++ stream true (errors ∷ reads)
unfolding read_stderr
stderr_open-stream m none reads e = rw e refl
stderr_open-stream m (some (chunk bytes)) reads e = rw e (chunk_first m.stderr_data bytes reads)
stderr_open-stream m (some eof) reads e = refl
stderr_open-stream m (some again) reads e = rw e refl
stderr_open-stream m (some failed) reads e = refl

read_stderr-stream :
    (m : Monitor) (errors : Option ReadResult) (reads : List (Option ReadResult))
    → (read_stderr m (if m.stderr_open then errors else none)).stderr_data
        ++ stream (read_stderr m (if m.stderr_open then errors else none)).stderr_open reads
      ≡ m.stderr_data ++ stream m.stderr_open (errors ∷ reads)
unfolding read_stderr
read_stderr-stream m errors reads = elim (Bool-cases m.stderr_open) [
  | inr e ↦ simp e
  | inl e ↦ simp (e, stderr_open-stream m errors reads e)
]

read_stdout-keeps :
    (m : Monitor) (out : Option ReadResult)
    → ((read_stdout m out).stderr_data ≡ m.stderr_data)
      × ((read_stdout m out).stderr_open ≡ m.stderr_open)
unfolding read_stdout
read_stdout-keeps m none = (refl, refl)
read_stdout-keeps m (some (chunk bytes)) = (refl, refl)
read_stdout-keeps m (some eof) = (refl, refl)
read_stdout-keeps m (some again) = (refl, refl)
read_stdout-keeps m (some failed) = (refl, refl)

serve-err :
    (m : Monitor) (out errors : Option ReadResult) (wait : WaitResult)
    (reads : List (Option ReadResult))
    → (serve m out errors wait).stderr_data ++ stream (serve m out errors wait).stderr_open reads
      ≡ m.stderr_data ++ stream m.stderr_open (errors ∷ reads)
unfolding serve check_process
serve-err m out errors wait reads =
    let seen : Option ReadResult = if m.stdout_open then out else none in
    let (same_data, same_open) = read_stdout-keeps m seen in
    ground (arith, same_data, same_open, read_stderr-stream (read_stdout m seen) errors reads)

stream_nil : (is_open : Bool) → stream is_open [] ≡ []
stream_nil true = refl
stream_nil false = refl

pub nothing_more : (got : Bytes) (is_open : Bool) → got ++ stream is_open [] ≡ got
nothing_more got is_open = rw (stream_nil is_open) (append-nil got)

-- A round after which the loop goes on has taken one answer of each pipe.
again_polled :
    (m n : Monitor) (out errors : Option ReadResult) (wait : WaitResult)
    → after_poll m (polled out errors) wait ≡ again_with n
    → serve m out errors wait ≡ n
unfolding after_poll
again_polled m n out errors wait h = ground arith

left_polled :
    (m n : Monitor) (out errors : Option ReadResult) (wait : WaitResult)
    → after_poll m (polled out errors) wait ≡ leave n
    → serve m out errors wait ≡ n
unfolding after_poll
left_polled m n out errors wait h = ground arith

again_interrupted :
    (m n : Monitor) (wait : WaitResult) → after_poll m interrupted wait ≡ again_with n → m ≡ n
unfolding after_poll
again_interrupted m n wait h = ground arith

left_failed : (m n : Monitor) (wait : WaitResult) → after_poll m poll_failed wait ≡ leave n → m ≡ n
unfolding after_poll
left_failed m n wait h = ground arith

abbrev pub OutFrom : Monitor → List (Option ReadResult) → Bytes
OutFrom m reads = m.stdout_data ++ stream m.stdout_open reads

abbrev pub ErrFrom : Monitor → List (Option ReadResult) → Bytes
ErrFrom m reads = m.stderr_data ++ stream m.stderr_open reads

none_first :
    (is_open : Bool) (reads : List (Option ReadResult))
    → stream is_open (none ∷ reads) ≡ stream is_open reads
none_first true reads = refl
none_first false reads = refl

pub again-streams :
    (m n : Monitor) (poll : PollResult) (wait : WaitResult)
    (outs_left errs_left : List (Option ReadResult))
    → after_poll m poll wait ≡ again_with n
    → (OutFrom n outs_left ≡ OutFrom m (out_of poll ∷ outs_left))
      × (ErrFrom n errs_left ≡ ErrFrom m (err_of poll ∷ errs_left))
again-streams m n interrupted wait outs_left errs_left h =
    rw⁻¹ (again_interrupted m n wait h)
      (rw (none_first m.stdout_open outs_left) refl, rw (none_first m.stderr_open errs_left) refl)
again-streams m n poll_failed wait outs_left errs_left h = unfold after_poll in cc
again-streams m n (polled out errors) wait outs_left errs_left h =
    rw⁻¹ (again_polled m n out errors wait h)
      (serve-out m out errors wait outs_left, serve-err m out errors wait errs_left)

pub left-streams :
    (m n : Monitor) (poll : PollResult) (wait : WaitResult)
    → after_poll m poll wait ≡ leave n
    → (OutFrom n [] ≡ OutFrom m (out_of poll ∷ [])) × (ErrFrom n [] ≡ ErrFrom m (err_of poll ∷ []))
left-streams m n interrupted wait h = unfold after_poll in cc
left-streams m n poll_failed wait h =
    rw⁻¹ (left_failed m n wait h)
      (rw (none_first m.stdout_open []) refl, rw (none_first m.stderr_open []) refl)
left-streams m n (polled out errors) wait h =
    rw⁻¹ (left_polled m n out errors wait h)
      (serve-out m out errors wait [], serve-err m out errors wait [])
