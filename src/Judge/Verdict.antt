-- ===== src/Judge/Verdict.antt =====
-- The verdict of a submission against a specification with no bit masks: the first of the listed
-- statuses that some test has.
pub mod Unordered
use oj_backend.Prelude.{
  ℕ, zero, suc, ◌%◌, ◌^◌, ◌<◌, ◌≡◌, refl, Bool, true, false, not, ◌&&◌, ◌||◌, List, [], ◌∷◌, ◌==◌,
  if◌then◌else◌, arith, any, all,
}
use oj_backend.Judge.Status.{
  TestStatus, accepted, wrong_answer, memory_limit_exceeded, time_limit_exceeded, internal_error,
  SubmissionStatus, ac, wa, re, mle, tle, ie, ce, mask, add_status, fold_statuses, has_bit,
  decode_statuses, set_status,
}

abbrev beq : Bool → Bool → Bool
beq true b = b
beq false b = not b

abbrev pub same : TestStatus → TestStatus → Bool
same s t = mask s == mask t

-- The verdict by its meaning.
abbrev pub worst : List TestStatus → SubmissionStatus
worst [] = ce
worst (s ∷ rest) =
    let l = s ∷ rest in
    if all (same accepted) l
    then ac
    else if any (same wrong_answer) l
    then wa
    else if any (same memory_limit_exceeded) l
    then mle
    else if any (same time_limit_exceeded) l
    then tle
    else if any (same internal_error) l
    then ie
    else re

-- A test that the numbers under a bound pass, and what that says of one of them.
passes_under : (ℕ → Bool) → ℕ → Bool
passes_under test zero = true
passes_under test (suc top) = passes_under test top && test top

passes_at :
    (test : ℕ → Bool) (top code : ℕ) → code < top → passes_under test top ≡ true → test code ≡ true
unfolding passes_under
passes_at test zero code below passed = absurd (omega arith)
passes_at test (suc top) code below passed = ground (arith, passes_at test top code)

-- What one more status does to a byte: to one bit, and to the test for "only accepted".
abbrev bit_step : TestStatus → TestStatus → ℕ → Bool
bit_step t s x = beq (has_bit (add_status x s) t) (has_bit x t || same t s)

abbrev only_step : TestStatus → ℕ → Bool
only_step s x = beq (add_status x s == 2) (same accepted s && (x == 0 || x == 2))

abbrev filled_step : TestStatus → ℕ → Bool
filled_step s x = not (add_status x s == 0)

abbrev bits_step : TestStatus → ℕ → Bool
bits_step s x =
    bit_step wrong_answer s x
    && bit_step memory_limit_exceeded s x
    && bit_step time_limit_exceeded s x
    && bit_step internal_error s x

bits_table : (s : TestStatus) → passes_under (bits_step s) 256 ≡ true
unfolding passes_under add_status mask
bits_table accepted = refl
bits_table _ = refl

only_table : (s : TestStatus) → passes_under (only_step s) 256 ≡ true
unfolding passes_under add_status mask
only_table accepted = refl
only_table _ = refl

filled_table : (s : TestStatus) → passes_under (filled_step s) 256 ≡ true
unfolding passes_under add_status mask
filled_table accepted = refl
filled_table _ = refl

beq-eq : (a b : Bool) → beq a b ≡ true → a ≡ b
beq-eq true b h = ground arith
beq-eq false b h = ground arith

&&-split : (a b : Bool) → (a && b) ≡ true → (a ≡ true) × (b ≡ true)
&&-split true b h = (refl, h)
&&-split false b h = cc

byte : (s : TestStatus) (x : ℕ) → add_status x s < 256
unfolding add_status
byte s x = omega arith

module _ (t : TestStatus) (bit : (s : TestStatus) (x : ℕ) → x < 256 → bit_step t s x ≡ true) where
  bit_eq :
      (s : TestStatus) (x : ℕ) → x < 256 → has_bit (add_status x s) t ≡ (has_bit x t || same t s)
  bit_eq s x h = beq-eq (has_bit (add_status x s) t) (has_bit x t || same t s) (bit s x h)

  fold_bit :
      (code : ℕ) (l : List TestStatus)
      → code < 256
      → has_bit (fold_statuses code l) t ≡ (has_bit code t || any (same t) l)
  unfolding fold_statuses
  fold_bit code [] h = ground arith
  fold_bit code (s ∷ rest) h =
      ground (arith, bit_eq s code h, fold_bit (add_status code s) rest (byte s code))

only :
    (s : TestStatus) (x : ℕ)
    → x < 256
    → (add_status x s == 2) ≡ (same accepted s && (x == 0 || x == 2))
only s x h = beq-eq _ _ (passes_at (only_step s) 256 x h (only_table s))

filled : (s : TestStatus) (x : ℕ) → x < 256 → not (add_status x s == 0) ≡ true
filled s x h = passes_at (filled_step s) 256 x h (filled_table s)

fold_only :
    (code : ℕ) (l : List TestStatus)
    → code < 256
    → (code == 0) ≡ false
    → (fold_statuses code l == 2) ≡ (all (same accepted) l && code == 2)
unfolding fold_statuses
fold_only code [] h p = refl
fold_only code (s ∷ rest) h p =
    ground (arith, only s code h, filled s code h, fold_only (add_status code s) rest (byte s code))

first_only :
    (s : TestStatus) (rest : List TestStatus)
    → (fold_statuses 0 (s ∷ rest) == 2) ≡ all (same accepted) (s ∷ rest)
unfolding fold_statuses
first_only s rest = ground (
  arith,
  only s 0 (omega arith),
  filled s 0 (omega arith),
  fold_only (add_status 0 s) rest (byte s 0),
)

bits : (s : TestStatus) (x : ℕ) → x < 256 → bits_step s x ≡ true
bits s x h = passes_at (bits_step s) 256 x h (bits_table s)

module _ (l : List TestStatus) where
  wrong_answer_bit : has_bit (fold_statuses 0 l) wrong_answer ≡ any (same wrong_answer) l
  unfolding mask
  wrong_answer_bit = fold_bit wrong_answer (λ s x h. ground (arith, bits s x h)) 0 l (omega arith)

  memory_bit :
      has_bit (fold_statuses 0 l) memory_limit_exceeded ≡ any (same memory_limit_exceeded) l
  unfolding mask
  memory_bit =
      fold_bit memory_limit_exceeded (λ s x h. ground (arith, bits s x h)) 0 l (omega arith)

  time_bit : has_bit (fold_statuses 0 l) time_limit_exceeded ≡ any (same time_limit_exceeded) l
  unfolding mask
  time_bit = fold_bit time_limit_exceeded (λ s x h. ground (arith, bits s x h)) 0 l (omega arith)

  internal_bit : has_bit (fold_statuses 0 l) internal_error ≡ any (same internal_error) l
  unfolding mask
  internal_bit = fold_bit internal_error (λ s x h. ground (arith, bits s x h)) 0 l (omega arith)

accepted_mask : mask accepted % 2 ^ 8 ≡ 2
unfolding mask
accepted_mask = refl

-- What setStatus stores is the verdict by meaning, for every list of test statuses: a submission
-- is accepted exactly when it has tests and all are accepted; otherwise the first of wrong answer,
-- memory, time and internal error that occurs is its verdict, a runtime error if none does, and a
-- compilation error if there are no tests.
pub set_status-worst : (l : List TestStatus) → set_status l ≡ worst l
unfolding set_status decode_statuses
set_status-worst [] = refl
set_status-worst (s ∷ rest) = rw (
  accepted_mask,
  first_only s rest,
  wrong_answer_bit (s ∷ rest),
  memory_bit (s ∷ rest),
  time_bit (s ∷ rest),
  internal_bit (s ∷ rest),
)
