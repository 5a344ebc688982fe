-- ===== src/App/Redis/Reads.antt =====
-- The methods of RedisManager (app/src/RedisManager.cpp) as reads and writes of the keys.
use text.Mathlib.Text.{◌==◌}
use oj_backend.Prelude.{ℕ, String, ◌≡◌, refl, Bool, true, Option, none, some, arith, if◌then◌else◌}
use oj_backend.Exceptions.Result.{ok}
use oj_backend.App.World.{Server, RedisLaws, is_some}
use oj_backend.App.Redis.{answer, positive, set, get, del, exists}

module _ {F : Type 0} (S : Server F) where
  answer-eq-ok :
      {A : Type 0} (operation : String) (r : Option A × S.World) {a : A}
      → (answer S operation r).0 ≡ ok a
      → r.0 ≡ some a
  answer-eq-ok operation (some b, w) h = ground arith
  answer-eq-ok operation (none, w) h = cc

  answer_world :
      {A : Type 0} (operation : String) (r : Option A × S.World) → (answer S operation r).1 ≡ r.1
  answer_world operation (some b, w) = refl
  answer_world operation (none, w) = refl

  module _ (laws : RedisLaws S) where
    pub get-value :
        (k : String) (w : S.World) {o : Option String} → (get S k w).0 ≡ ok o → o ≡ S.value w k
    unfolding get
    get-value k w {o} h = laws.get-value k o w (answer-eq-ok "Redis get error" (S.redis_get k w) h)

    pub exists-value :
        (k : String) (w : S.World) {b : Bool} → (exists S k w).0 ≡ ok b → b ≡ is_some (S.value w k)
    unfolding exists
    exists-value k w {b} h =
        laws.exists-value k b w (answer-eq-ok "Redis exists error" (S.redis_exists k w) h)

    pub value-get : (k j : String) (w : S.World) → S.value (get S k w).1 j ≡ S.value w j
    unfolding get
    value-get k j w = rw (answer_world "Redis get error" (S.redis_get k w)) (laws.value-get k j w)

    pub value-exists : (k j : String) (w : S.World) → S.value (exists S k w).1 j ≡ S.value w j
    unfolding exists
    value-exists k j w =
        rw (answer_world "Redis exists error" (S.redis_exists k w)) (laws.value-exists k j w)

    pub value-set :
        (k v j : String) (ttl : ℕ) (w : S.World)
        → (set S k v ttl w).0 ≡ ok true
        → S.value (set S k v ttl w).1 j ≡ (if k == j then some v else S.value w j)
    unfolding set
    value-set k v j ttl w h =
        rw (answer_world "Redis set error" (S.redis_set k v ttl w))
          (laws.value-set k v j ttl w (answer-eq-ok "Redis set error" (S.redis_set k v ttl w) h))

    del_answered :
        (r : Option ℕ × S.World) {b : Bool}
        → (positive S (answer S "Redis del error" r)).0 ≡ ok b
        → (n : ℕ) × (r.0 ≡ some n) × ((positive S (answer S "Redis del error" r)).1 ≡ r.1)
    del_answered (some n, w) h = (n, refl, refl)
    del_answered (none, w) h = cc

    pub value-del :
        (k j : String) (w : S.World) {b : Bool}
        → (del S k w).0 ≡ ok b
        → S.value (del S k w).1 j ≡ (if k == j then none else S.value w j)
    unfolding del
    value-del k j w h =
        let (n, e, same) = del_answered (S.redis_del k w) h in rw same (laws.value-del k j n w e)
