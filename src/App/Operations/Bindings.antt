-- ===== src/App/Operations/Bindings.antt =====
-- DbOperation::setSqlVariables (app/src/dbop/DbOperation.cpp): which parameters it accepts, and
-- how.
use oj_backend.Prelude.{
  ℕ, ◌-◌, ◌≤◌, ◌<◌, ◌^◌, ◌≡◌, refl, ap, subst, pos, suc, inl, inr, negsuc, u32_mod, Bool, true,
  false, not, List, [], ◌∷◌, length, all, arith, Bool-cases,
}
use oj_backend.Exceptions.Result.{Error, ParameterError, ok, err}
use oj_backend.Core.Json.{JsonLib, JsonLaws, Kind}
use oj_backend.App.Messages.Sent.{ok-eq}
use oj_backend.App.World.{Binding}
use oj_backend.App.Operations.{bind_kind, narrow_int, set_sql_variables}

abbrev pub is_scalar : {F : Type 0} → Kind F → Bool
is_scalar Kind.compound = false
is_scalar _ = true

-- A binding stands for a parameter: a text, a floating-point number and a Boolean for the same, a
-- whole number for the same where it fits `int`, and null for null.
abbrev pub StandsFor : {F : Type 0} → Kind F → Binding F → Type 0
StandsFor (Kind.string s) (Binding.set_string t) = s ≡ t
StandsFor (Kind.signed (pos n)) (Binding.set_int m) = n < 2 ^ 31 → m ≡ pos n
StandsFor (Kind.signed (negsuc n)) (Binding.set_int m) = n < 2 ^ 31 → m ≡ negsuc n
StandsFor (Kind.natural n) (Binding.set_int m) = n < 2 ^ 31 → m ≡ pos n
StandsFor (Kind.floating x) (Binding.set_double y) = x ≡ y
StandsFor (Kind.boolean b) (Binding.set_boolean c) = b ≡ c
StandsFor Kind.nothing Binding.set_null = Unit {0}
StandsFor _ _ = ⊥

abbrev pub is_uint : {F : Type 0} → Binding F → Bool
is_uint (Binding.set_uint n) = true
is_uint _ = false

abbrev pub unknown_parameter : Error
unknown_parameter =
    Error.parameter ParameterError.value_error "Parameters" "Unknown parameter type or value type"

bind_scalar :
    {F : Type 0} (k : Kind F)
    → is_scalar k ≡ true
    → (b : Binding F) × (bind_kind k ≡ ok b) × (is_uint b ≡ false)
unfolding bind_kind
bind_scalar (Kind.string s) h = (Binding.set_string s, refl, refl)
bind_scalar (Kind.signed n) h = (Binding.set_int (narrow_int n), refl, refl)
bind_scalar (Kind.natural n) h = (_, refl, refl)
bind_scalar (Kind.floating x) h = (Binding.set_double x, refl, refl)
bind_scalar (Kind.boolean b) h = (Binding.set_boolean b, refl, refl)
bind_scalar Kind.nothing h = (Binding.set_null, refl, refl)
bind_scalar Kind.compound h = cc

bind_kind-StandsFor : {F : Type 0} (k : Kind F) {b : Binding F} → bind_kind k ≡ ok b → StandsFor k b
unfolding bind_kind narrow_int
bind_kind-StandsFor {F} (Kind.string s) h = subst (StandsFor (Kind.string s)) (ok-eq h) refl
bind_kind-StandsFor {F} (Kind.signed (pos n)) h =
    subst (StandsFor {F = F} (Kind.signed (pos n))) (ok-eq h) (λ l. ground (arith, l))
bind_kind-StandsFor {F} (Kind.signed (negsuc n)) h =
    subst (StandsFor {F = F} (Kind.signed (negsuc n))) (ok-eq h) (λ l. ground (arith, l))
bind_kind-StandsFor {F} (Kind.natural n) h =
    subst (StandsFor {F = F} (Kind.natural n)) (ok-eq h) (λ l. ground (arith, l))
bind_kind-StandsFor {F} (Kind.floating x) h = subst (StandsFor (Kind.floating x)) (ok-eq h) refl
bind_kind-StandsFor {F} (Kind.boolean b) h =
    subst (StandsFor {F = F} (Kind.boolean b)) (ok-eq h) refl
bind_kind-StandsFor {F} Kind.nothing h = subst (StandsFor {F = F} Kind.nothing) (ok-eq h) tt
bind_kind-StandsFor {F} Kind.compound h = cc

bind_compound :
    {F : Type 0} (k : Kind F) → is_scalar k ≡ false → bind_kind k ≡ err unknown_parameter
unfolding bind_kind
bind_compound Kind.compound h = refl
bind_compound _ h = cc

module _ {F : Type 0} (J : JsonLib F) where
  -- One binding for each parameter, in their order.
  abbrev pub AllStandFor : List J.Json → List (Binding F) → Type 0
  AllStandFor [] [] = Unit {0}
  AllStandFor (p ∷ ps) (b ∷ bs) = StandsFor (J.kind p) b × AllStandFor ps bs
  AllStandFor _ _ = ⊥

  -- If no parameter is an object or an array, every parameter is bound, one by one, and none as an
  -- unsigned number.
  pub set_sql_variables_binds :
      (ps : List J.Json)
      → all (λ p. is_scalar (J.kind p)) ps ≡ true
      → (bs : List (Binding F)) × (set_sql_variables J ps ≡ ok bs)
        × (length bs ≡ length ps)
        × (all (λ b. not (is_uint b)) bs ≡ true)
        × AllStandFor ps bs
  unfolding set_sql_variables
  set_sql_variables_binds [] h = ([], refl, refl, refl, tt)
  set_sql_variables_binds (p ∷ rest) h =
      let (b, e, u) = bind_scalar (J.kind p) (ground arith) in
      let (bs, es, l, us, t) = set_sql_variables_binds rest (ground arith) in
      (b ∷ bs, rw (e, es) refl, ap suc l, ground arith, (bind_kind-StandsFor (J.kind p) e, t))

  -- If some parameter is an object or an array, a parameter exception is thrown.
  pub set_sql_variables_refuses :
      (ps : List J.Json)
      → all (λ p. is_scalar (J.kind p)) ps ≡ false
      → set_sql_variables J ps ≡ err unknown_parameter
  unfolding set_sql_variables
  set_sql_variables_refuses [] h = cc
  set_sql_variables_refuses (p ∷ rest) h = elim (Bool-cases (is_scalar (J.kind p))) [
    | inl s ↦
        let (b, e, u) = bind_scalar (J.kind p) s in
        let r = set_sql_variables_refuses rest (ground arith) in rw (e, r) refl
    | inr s ↦ rw (bind_compound (J.kind p) s) refl
  ]

  -- An unsigned parameter from 2 ^ 31 and below 2 ^ 32 is bound as a negative `int`.
  pub set_sql_variables_wraps :
      JsonLaws J
      → (n : ℕ) → 2 ^ 31 ≤ n
      → n < u32_mod
      → set_sql_variables J (J.unsigned n ∷ [])
        ≡ ok (Binding.set_int (negsuc (u32_mod - 1 - n)) ∷ [])
  unfolding set_sql_variables bind_kind
  set_sql_variables_wraps laws n l h = rw (laws.kind-unsigned n h) (ground arith)
