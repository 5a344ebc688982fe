-- ===== src/App/Messages/Transport.antt =====
-- What a service publishes (app/src/RedisManager.cpp) is what the subscriber reads.
use oj_backend.Prelude.{
  zero, suc, true, ℤ, pos, negsuc, String, ◌≡◌, refl, ◌∙◌, some, arith, inl, inr, Option-cases,
}
use oj_backend.Exceptions.Result.{ok}
use oj_backend.Core.Json.{JsonLib, JsonLaws, fits_int}
use oj_backend.App.Operations.{OpType}
use oj_backend.App.Messages.{
  op_of_int, op_to_int, DbOperateMessage, message_json, serialize, deserialize,
}

op_to_int-op_of_int : (n : ℤ) → op_to_int (op_of_int n) ≡ n
unfolding op_to_int op_of_int
op_to_int-op_of_int (pos zero) = refl
op_to_int-op_of_int (pos (suc zero)) = refl
op_to_int-op_of_int (pos (suc (suc zero))) = refl
op_to_int-op_of_int (pos (suc (suc (suc zero)))) = refl
op_to_int-op_of_int (pos (suc (suc (suc (suc zero))))) = refl
op_to_int-op_of_int (pos (suc (suc (suc (suc (suc n)))))) = refl
op_to_int-op_of_int (negsuc n) = refl

op_of_int-op_to_int : (o : OpType) (n : ℤ) → o ≡ op_of_int n → op_of_int (op_to_int o) ≡ o
op_of_int-op_to_int o n e = rw (e, op_to_int-op_of_int n)

module _ {F : Type 0} (J : JsonLib F) (laws : JsonLaws J) where
  serialize-eq-ok :
      (m : DbOperateMessage J) {s : String}
      → serialize J m ≡ ok s
      → (p : String) × (J.dump m.param_array ≡ some p) × (J.dump (message_json J m p) ≡ some s)
  unfolding serialize
  serialize-eq-ok m {s} h = elim (Option-cases (J.dump m.param_array)) [
    | inl e ↦ absurd (ground (arith, e))
    | inr (p, e) ↦ elim (Option-cases (J.dump (message_json J m p))) [
      | inl d ↦ absurd (ground (arith, e, d))
      | inr (t, d) ↦ (p, e, d ∙ ground (arith, e, d))
    ]
  ]

  op_fits :
      (m : DbOperateMessage J) (n : ℤ)
      → m.op_type ≡ op_of_int n
      → fits_int n ≡ true
      → fits_int (op_to_int m.op_type) ≡ true
  op_fits m n e f = rw (e, op_to_int-op_of_int n) f

  message_plain : (m : DbOperateMessage J) (p : String) → J.is_plain (message_json J m p) ≡ true
  message_plain m p = laws.is_plain-object _ (simp (laws.is_plain-str, laws.is_plain-integer))

  read_back :
      (m : DbOperateMessage J) (n : ℤ) (p : String)
      → m.op_type ≡ op_of_int n
      → fits_int n ≡ true
      → J.parse p ≡ some m.param_array
      → (s : String) → J.parse s ≡ some (message_json J m p)
      → deserialize J s ≡ ok m
  unfolding deserialize
  read_back m n p e f q s r = rw r (
      simp (laws.find-object, laws.get_string-str)
        (rw (laws.get_int-integer (op_to_int m.op_type) (op_fits m n e f))
          (rw (q, op_of_int-op_to_int m.op_type n e) refl)))

  -- With the JSON library as documented, a message that can be serialised, without NaN or infinity
  -- among its parameters, is read back unchanged; its operation is any value of `OpType`.
  pub message_round_trip :
      (m : DbOperateMessage J) (n : ℤ) {s : String}
      → m.op_type ≡ op_of_int n
      → fits_int n ≡ true
      → J.is_plain m.param_array ≡ true
      → serialize J m ≡ ok s
      → deserialize J s ≡ ok m
  message_round_trip m n {s} e f k h =
      let (p, d, t) = serialize-eq-ok m h in
      read_back m n p e f (laws.parse-dump m.param_array p k d) s
        (laws.parse-dump (message_json J m p) s (message_plain m p) t)
