-- ===== src/Judge/Cleanup/Walk.antt =====
-- What Actuator::cleanupCgroup (judge/src/actuators/Actuator.cpp) removes, and in how many calls.
use oj_backend.Prelude.{
  ℕ, suc, ◌+◌, ◌*◌, ◌≤◌, ℤ, ◌≡◌, refl, ◌⊎◌, inl, inr, Option, none, some, String, Bool, true, false,
  ◌&&◌, List, [], ◌∷◌, ◌++◌, arith,
}
use oj_backend.Exceptions.Result.{Result, Error, ok, err}
use oj_backend.Exceptions.Files.{PathState, check_file_exists}
use oj_backend.Judge.Cleanup.{
  RmdirAnswer, removed, not_empty, rmdir_failed, Cgroup, cgroup, Cgroups, no_group, group_and,
  CleanupCall, tries_rmdir, sleeps_ms, Cleaned, and_then, try_rmdir, rethrown, checked, listed,
  cleanup_cgroup, cleanup_groups,
}

-- What three attempts come to.
abbrev pub outcome : (ℕ → RmdirAnswer) → RmdirAnswer
outcome rmdir = elim (rmdir 0) [
  | removed ↦ removed
  | rmdir_failed ↦ rmdir_failed
  | not_empty ↦ elim (rmdir 1) [
    | removed ↦ removed
    | rmdir_failed ↦ rmdir_failed
    | not_empty ↦ rmdir 2
  ]
]

abbrev pub gives_way : RmdirAnswer → Bool
gives_way not_empty = false
gives_way _ = true

abbrev pub is_none : Option String → Bool
is_none none = true
is_none (some failure) = false

abbrev pub if_removed : RmdirAnswer → String → List String
if_removed removed path = path ∷ []
if_removed _ path = []

-- The reference: whether every directory is there, can be listed and is given up within three
-- attempts, the
-- directories that go away, children first, and the number of directories.
unfoldable mutual
  pub is_cleanable : Cgroup → Bool
  is_cleanable (cgroup path state failure subdirs rmdir) =
      state.exists && (is_none failure && (are_cleanable subdirs && gives_way (outcome rmdir)))

  pub are_cleanable : Cgroups → Bool
  are_cleanable no_group = true
  are_cleanable (group_and g rest) = is_cleanable g && are_cleanable rest

unfoldable mutual
  pub leaving : Cgroup → List String
  leaving (cgroup path state failure subdirs rmdir) =
      leaving_groups subdirs ++ if_removed (outcome rmdir) path

  pub leaving_groups : Cgroups → List String
  leaving_groups no_group = []
  leaving_groups (group_and g rest) = leaving g ++ leaving_groups rest

unfoldable mutual
  pub size : Cgroup → ℕ
  size (cgroup path state failure subdirs rmdir) = suc (size_groups subdirs)

  pub size_groups : Cgroups → ℕ
  size_groups no_group = 0
  size_groups (group_and g rest) = size g + size_groups rest

-- What the calls say.
abbrev pub removals : List CleanupCall → List String
removals [] = []
removals (tries_rmdir path answer ∷ rest) = if_removed answer path ++ removals rest
removals (sleeps_ms n ∷ rest) = removals rest

abbrev pub tries : List CleanupCall → ℕ
tries [] = 0
tries (tries_rmdir path answer ∷ rest) = suc (tries rest)
tries (sleeps_ms n ∷ rest) = tries rest

removals-append : (l m : List CleanupCall) → removals (l ++ m) ≡ removals l ++ removals m
removals-append [] m = refl
removals-append (tries_rmdir path removed ∷ rest) m = rw (removals-append rest m) refl
removals-append (tries_rmdir path not_empty ∷ rest) m = removals-append rest m
removals-append (tries_rmdir path rmdir_failed ∷ rest) m = removals-append rest m
removals-append (sleeps_ms n ∷ rest) m = removals-append rest m

tries-append : (l m : List CleanupCall) → tries (l ++ m) ≡ tries l + tries m
tries-append [] m = omega arith
tries-append (tries_rmdir path answer ∷ rest) m = omega (arith, tries-append rest m)
tries-append (sleeps_ms n ∷ rest) m = tries-append rest m

abbrev pub throws : Result (Unit {0}) → Bool
throws (err e) = true
throws (ok u) = false

-- A piece of work that does what the reference says, or that throws.
abbrev pub Does : Bool → List String → Cleaned → Type 0
Does fine paths c =
    ((fine ≡ true) × (c.0 ≡ ok tt) × (removals c.1 ≡ paths))
    ⊎ ((fine ≡ false) × (throws c.0 ≡ true))

and_then-Does :
    {a b : Bool} {l m : List String} (c d : Cleaned)
    → Does a l c
    → Does b m d
    → Does (a && b) (l ++ m) (and_then c d)
unfolding and_then
and_then-Does {a} {b} {l} {m} (ok u, c) (r, d) hc hd = ground (arith, removals-append c d)
and_then-Does {a} {b} {l} {m} (err e, c) d hc hd = ground arith

tries-and_then : (c d : Cleaned) → tries (and_then c d).1 ≤ tries c.1 + tries d.1
unfolding and_then
tries-and_then (err e, l) d = omega arith
tries-and_then (ok u, l) (r, m) = omega (arith, tries-append l m)

module _ (what : Error → String) (errno : ℤ) where
  rethrown-Does :
      {a : Bool} {l : List String} (c : Cleaned) → Does a l c → Does a l (rethrown what errno c)
  unfolding rethrown
  rethrown-Does (ok u, l) h = h
  rethrown-Does (err e, l) h = ground arith

  try_rmdir-Does :
      (path : String) (rmdir : ℕ → RmdirAnswer)
      → Does
          (gives_way (outcome rmdir))
          (if_removed (outcome rmdir) path)
          (try_rmdir what errno path rmdir 0 3)
  unfolding try_rmdir
  try_rmdir-Does path rmdir = ground arith

  checked-Does :
      (state : PathState) (path : String) → Does state.exists [] (checked what errno state path)
  unfolding checked check_file_exists
  checked-Does state path = ground arith

  listed-Does : (failure : Option String) → Does (is_none failure) [] (listed what errno failure)
  unfolding listed
  listed-Does none = inl (refl, refl, refl)
  listed-Does (some text) = inr (refl, refl)

  listed-tries : (failure : Option String) → tries (listed what errno failure).1 ≡ 0
  unfolding listed
  listed-tries none = refl
  listed-tries (some text) = refl

  try_rmdir-tries :
      (path : String) (rmdir : ℕ → RmdirAnswer) → tries (try_rmdir what errno path rmdir 0 3).1 ≤ 3
  unfolding try_rmdir
  try_rmdir-tries path rmdir = ground arith

  mutual
    unfolding cleanup_cgroup is_cleanable leaving

    cleanup_cgroup-Does :
        (g : Cgroup) → Does (is_cleanable g) (leaving g) (cleanup_cgroup what errno g)
    cleanup_cgroup-Does (cgroup path state failure subdirs rmdir) = rethrown-Does _ (
        and_then-Does _ _ (checked-Does state path) (
          and_then-Does _ _ (listed-Does failure)
            (and_then-Does _ _ (cleanup_groups-Does subdirs) (try_rmdir-Does path rmdir))))

    cleanup_groups-Does :
        (g : Cgroups) → Does (are_cleanable g) (leaving_groups g) (cleanup_groups what errno g)
    cleanup_groups-Does no_group = inl (refl, refl, refl)
    cleanup_groups-Does (group_and g rest) =
        and_then-Does _ _ (cleanup_cgroup-Does g) (cleanup_groups-Does rest)

  -- If every directory of the tree exists, can be listed and is given up within three attempts,
  -- cleanupCgroup returns and has removed, children before their parent, the
  -- directories at which rmdir succeeded; otherwise it throws.
  pub cleanup_cgroup_lem :
      (g : Cgroup)
      → ((is_cleanable g ≡ true)
          × ((cleanup_cgroup what errno g).0 ≡ ok tt)
          × (removals (cleanup_cgroup what errno g).1 ≡ leaving g))
        ⊎ ((is_cleanable g ≡ false) × (throws (cleanup_cgroup what errno g).0 ≡ true))
  cleanup_cgroup_lem g = cleanup_cgroup-Does g

  rethrown-tries : (c : Cleaned) → tries (rethrown what errno c).1 ≡ tries c.1
  unfolding rethrown
  rethrown-tries (ok u, l) = refl
  rethrown-tries (err e, l) = refl

  mutual
    unfolding cleanup_cgroup size

    cleanup_cgroup-le : (g : Cgroup) → tries (cleanup_cgroup what errno g).1 ≤ 3 * size g
    cleanup_cgroup-le (cgroup path state failure subdirs rmdir) =
        let last : Cleaned = try_rmdir what errno path rmdir 0 3 in
        let walk : Cleaned = and_then (cleanup_groups what errno subdirs) last in
        let listing : Cleaned = and_then (listed what errno failure) walk in
        let whole : Cleaned = and_then (checked what errno state path) listing in
        omega (
          arith,
          rethrown-tries whole,
          tries-and_then (checked what errno state path) listing,
          tries-and_then (listed what errno failure) walk,
          listed-tries failure,
          tries-and_then (cleanup_groups what errno subdirs) last,
          try_rmdir-tries path rmdir,
          cleanup_groups-le subdirs,
        )

    cleanup_groups-le : (g : Cgroups) → tries (cleanup_groups what errno g).1 ≤ 3 * size_groups g
    cleanup_groups-le no_group = omega arith
    cleanup_groups-le (group_and g rest) = omega (
      arith,
      tries-and_then (cleanup_cgroup what errno g) (cleanup_groups what errno rest),
      cleanup_cgroup-le g,
      cleanup_groups-le rest,
    )

  -- The walk through a tree of control groups is over after three calls of rmdir for each of its
  -- directories at most, whatever they answer.
  pub cleanup_cgroup_ends : (g : Cgroup) → tries (cleanup_cgroup what errno g).1 ≤ 3 * size g
  cleanup_cgroup_ends g = cleanup_cgroup-le g
