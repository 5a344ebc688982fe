-- ===== src/Judge/Verdict/Unordered.antt =====
-- The verdict of a submission (judge/src/utilities/JudgeResult.cpp) as a function of the set of
-- statuses that its tests have, in which neither their order nor their number counts.
use mathlib.Core.HLevel.{hedberg}
use mathlib.Core.Quot
use mathlib.Core.Quot.{Quot, Quot-set}
use oj_backend.Prelude.{
  ℕ, ◌≡◌, refl, sym, ◌∙◌, ap, Bool, true, false, ◌||◌, List, [], ◌∷◌, ◌++◌, ◌==◌, ltb, inl, inr,
  Bool-cases, if◌then◌else◌, arith, any, all,
}
use oj_backend.Judge.Status.{
  TestStatus, accepted, wrong_answer, memory_limit_exceeded, time_limit_exceeded, internal_error,
  SubmissionStatus, pending, ac, wa, re, mle, tle, ie, ce, mask, set_status,
}
use oj_backend.Judge.Verdict.{same, worst, set_status-worst}

abbrev rank : SubmissionStatus → ℕ
rank ce = 0
rank ac = 1
rank re = 2
rank ie = 3
rank tle = 4
rank mle = 5
rank wa = 6
rank pending = 7
rank _ = 8

rank_eq : (a b : SubmissionStatus) → rank a ≡ rank b → a ≡ b
rank_eq a b h = ground (arith, h)

-- The graver of two verdicts.
abbrev pub worse : SubmissionStatus → SubmissionStatus → SubmissionStatus
worse a b = if ltb (rank a) (rank b) then b else a

worse_comm : (a b : SubmissionStatus) → worse a b ≡ worse b a
worse_comm a b = rank_eq (worse a b) (worse b a) (ground arith)

worse_assoc : (a b c : SubmissionStatus) → worse (worse a b) c ≡ worse a (worse b c)
worse_assoc a b c = rank_eq (worse (worse a b) c) (worse a (worse b c)) (ground arith)

worse_idem : (a : SubmissionStatus) → worse a a ≡ a
worse_idem a = ground arith

worse_ce : (a : SubmissionStatus) → worse a ce ≡ a
worse_ce a = ground arith

-- The verdict on one test.
abbrev single : TestStatus → SubmissionStatus
single s = worst (s ∷ [])

single-same : (s t : TestStatus) → same s t ≡ true → single s ≡ single t
unfolding mask
single-same s t h = ground (arith, h)

accepted_only :
    (t : TestStatus) (l : List TestStatus)
    → same t accepted ≡ false
    → all (same accepted) l ≡ true
    → any (same t) l ≡ false
accepted_only t [] other h = refl
accepted_only t (s ∷ rest) other h = ground (arith, accepted_only t rest other)

worst-cons : (s : TestStatus) (l : List TestStatus) → worst (s ∷ l) ≡ worse (single s) (worst l)
unfolding mask
worst-cons s [] = ground arith
worst-cons s (t ∷ rest) =
    let l = t ∷ rest in
    ground (
      arith,
      accepted_only wrong_answer l refl,
      accepted_only memory_limit_exceeded l refl,
      accepted_only time_limit_exceeded l refl,
      accepted_only internal_error l refl,
    )

worst-++ : (l m : List TestStatus) → worst (l ++ m) ≡ worse (worst l) (worst m)
worst-++ [] m = sym (worse_comm ce (worst m) ∙ worse_ce (worst m))
worst-++ (s ∷ rest) m =
    worst-cons s (rest ++ m)
    ∙ ap (worse (single s)) (worst-++ rest m)
    ∙ sym (worse_assoc (single s) (worst rest) (worst m))
    ∙ ap (λ a. worse a (worst m)) (sym (worst-cons s rest))

absorbed :
    (s : TestStatus) (l : List TestStatus)
    → any (same s) l ≡ true
    → worse (single s) (worst l) ≡ worst l
absorbed s [] h = absurd (ground arith)
absorbed s (t ∷ rest) h =
    let e = worst-cons t rest in
    elim (Bool-cases (same s t)) [
      | inl q ↦
          ap (λ a. worse a (worst (t ∷ rest))) (single-same s t q)
          ∙ ap (worse (single t)) e
          ∙ sym (worse_assoc (single t) (single t) (worst rest))
          ∙ ap (λ a. worse a (worst rest)) (worse_idem (single t))
          ∙ sym e
      | inr q ↦
          let r = absorbed s rest (ground (arith, q, h)) in
          ap (worse (single s)) e
          ∙ sym (worse_assoc (single s) (single t) (worst rest))
          ∙ ap (λ a. worse a (worst rest)) (worse_comm (single s) (single t))
          ∙ worse_assoc (single t) (single s) (worst rest)
          ∙ ap (worse (single t)) r
          ∙ sym e
    ]

-- The same statuses occur in two lists.
abbrev pub SameStatuses : List TestStatus → List TestStatus → Type 0
SameStatuses l m = (s : TestStatus) → any (same s) l ≡ any (same s) m

included :
    (l m : List TestStatus)
    → ((s : TestStatus) → any (same s) l ≡ true → any (same s) m ≡ true)
    → worse (worst l) (worst m) ≡ worst m
included [] m h = worse_comm ce (worst m) ∙ worse_ce (worst m)
included (s ∷ rest) m h =
    ap (λ a. worse a (worst m)) (worst-cons s rest)
    ∙ worse_assoc (single s) (worst rest) (worst m)
    ∙ ap (worse (single s)) (included rest m (λ t q. h t (ground (arith, q))))
    ∙ absorbed s m (h s (ground arith))

worst-SameStatuses : (l m : List TestStatus) → SameStatuses l m → worst l ≡ worst m
worst-SameStatuses l m h =
    sym (included m l (λ s q. h s ∙ q))
    ∙ worse_comm (worst m) (worst l)
    ∙ included l m (λ s q. sym (h s) ∙ q)

-- A set of statuses, and its verdict.
abbrev pub StatusSet : Type 0
StatusSet = Quot SameStatuses

pub SubmissionStatus-set : IsSet SubmissionStatus
SubmissionStatus-set = hedberg (λ a b. elim (Bool-cases (rank a == rank b)) [
  | inl e ↦ yes (rank_eq a b (ground (arith, e)))
  | inr e ↦ no (λ h. let k = ap rank h in absurd (ground arith))
])

set_status-++ : (l m : List TestStatus) → set_status (l ++ m) ≡ worse (set_status l) (set_status m)
set_status-++ l m =
    rw (set_status-worst (l ++ m), set_status-worst l, set_status-worst m) (worst-++ l m)

pub set_status-SameStatuses :
    (l m : List TestStatus) → SameStatuses l m → set_status l ≡ set_status m
set_status-SameStatuses l m h =
    set_status-worst l ∙ worst-SameStatuses l m h ∙ sym (set_status-worst m)

any-++ : (p : TestStatus → Bool) (l m : List TestStatus) → any p (l ++ m) ≡ (any p l || any p m)
any-++ p [] m = refl
any-++ p (s ∷ rest) m = ground (arith, any-++ p rest m)

pub SameStatuses-++ :
    (l l' m m' : List TestStatus)
    → SameStatuses l l'
    → SameStatuses m m'
    → SameStatuses (l ++ m) (l' ++ m')
SameStatuses-++ l l' m m' h k s = rw (any-++ (same s) l m, any-++ (same s) l' m', h s, k s) refl

-- The verdict on a set of statuses: setStatus of any list of them.
unfoldable pub verdict : StatusSet → SubmissionStatus
verdict = Quot.lift SubmissionStatus-set set_status set_status-SameStatuses

pub StatusSet-set : IsSet StatusSet
StatusSet-set = Quot-set

-- The statuses of a set and of a list.
unfoldable pub add_list : List TestStatus → StatusSet → StatusSet
add_list m =
    Quot.lift StatusSet-set (λ l. Quot.mk (l ++ m))
      (λ l l' h. Quot.sound (SameStatuses-++ l l' m m h (λ s. refl)))

pub add_list-SameStatuses :
    (a : StatusSet) (m m' : List TestStatus) → SameStatuses m m' → add_list m a ≡ add_list m' a
unfolding add_list
add_list-SameStatuses a m m' h =
    Quot.ind (λ q. StatusSet-set (add_list m q) (add_list m' q))
      (λ l. Quot.sound (SameStatuses-++ l l m m' (λ s. refl) h)) a

-- The statuses of two sets.
unfoldable pub union : StatusSet → StatusSet → StatusSet
unfolding add_list
union a = Quot.lift StatusSet-set (λ m. add_list m a) (add_list-SameStatuses a)

-- The verdict is a function of the set of statuses that the tests have, whatever their order and
-- number, and of the tests of two parts it is the graver one of the verdicts on the parts.
pub verdict-union : (a b : StatusSet) → verdict (union a b) ≡ worse (verdict a) (verdict b)
unfolding verdict union
verdict-union a b =
    Quot.ind (λ q. SubmissionStatus-set (verdict (union q b)) (worse (verdict q) (verdict b)))
      (λ l.
        Quot.ind
          (λ q.
            SubmissionStatus-set (verdict (union (Quot.mk l) q))
              (worse (verdict (Quot.mk l)) (verdict q)))
          (λ m. set_status-++ l m) b)
      a
