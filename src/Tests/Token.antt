-- ===== src/Tests/Token.antt =====
-- The theorems on TokenManager (app/src/services/TokenManager.cpp) at concrete runs.
use text.Mathlib.Text.{◌==◌ as str_eq}
use Prim.Native.String.{◌++◌, slice}
use text.Mathlib.TextLemmas.{append_assoc}
use text.Mathlib.TextPositions.{slice-append_left}
use oj_backend.Prelude.{
  Bool-cases, inl, inr, false, Bool, sym, ◌∙◌, eq_iff, ◌*◌, ◌≡◌, ◌≢◌, ◌↔◌, ap, refl, arith, none,
  some, String,
}
use oj_backend.Exceptions.Result.{ok}
use oj_backend.App.Redis.{set, get, exists, del}
use oj_backend.App.Token.{
  active_key, blacklist_key, generate_token, verify_token, invalidate_token, get_token_expiry,
  refresh_token, second,
}
use oj_backend.App.Token.Session.{user_of, Accepted}
use oj_backend.App.Token.Refresh.{refresh_token_retires}
use oj_backend.App.Token.Table.Runs.{Session, with_entry, Sessions, begun, logged_in, checked}
use oj_backend.App.Token.Table.Refinement.{IsOpen, verify_token-table}
use oj_backend.App.Token.Accept.{verify_token_iff}
use oj_backend.App.Token.Revoke.{invalidate_ends}
use oj_backend.Tests.Machine.{World, server, redis_laws, jwt_laws, manager, ann, start}

verify_token_iff_example :
    ((verify_token server manager "old" start).0 ≡ ok (some (user_of "u1" "ann")))
    ↔ Accepted server manager "old" start (user_of "u1" "ann")
unfolding verify_token get exists
verify_token_iff_example =
    verify_token_iff server manager redis_laws "old" start (user_of "u1" "ann") false (some "old")
      refl refl

-- The keys of the active tokens are none of the blacklist.
keys_apart :
    (id token : String)
    → str_eq (active_key server manager id) (blacklist_key server manager token) ≡ false
keys_apart id token =
    let listed = blacklist_key server manager token in
    elim (Bool-cases (str_eq (active_key server manager id) listed)) [
      | inr e ↦ e
      | inl e ↦
          let same : active_key server manager id ≡ listed = (eq_iff _ _).0 e in
          let other : slice listed 0 7 ≡ "blackli" =
            ap (λ k. slice k 0 7) (append_assoc "blackli" "st:" token)
            ∙ slice-append_left "blackli" ("st:" ++ token) in
          let start_of : "blackli" ≡ "active:" =
            sym other ∙ ap (λ k. slice k 0 7) (sym same) ∙ slice-append_left "active:" id in
          let impossible : str_eq "blackli" "active:" ≡ str_eq "active:" "active:" =
            ap (λ k. str_eq k "active:") start_of in
          absurd (cc impossible)
    ]

-- Ann's token is refreshed.
refresh_token_retires_example :
    (verify_token server manager "old" (refresh_token server manager "old" start).1).0
    ≢ ok (some (user_of "u1" "ann"))
unfolding refresh_token verify_token invalidate_token generate_token get_token_expiry get exists set
    del
refresh_token_retires_example =
    refresh_token_retires server manager redis_laws "old" (λ id. keys_apart id "old") start
      {s = "token"} (8 * second) (user_of "u1" "ann") refl (omega arith) refl

invalidate_ends_example :
    (verify_token server manager "old" (invalidate_token server manager "old" start).1).0
    ≢ ok (some (user_of "u1" "ann"))
unfolding invalidate_token get_token_expiry set del
invalidate_ends_example =
    invalidate_ends server manager jwt_laws redis_laws "old" start (user_of "u1" "ann")
      (λ e. ground (arith, e)) refl

-- Nobody is logged in; then Ann logs in, and her token is checked.
abbrev nobody : World
nobody = record { keys = λ k. none; now = 5 * second }

abbrev ann_session : Session
ann_session = record { token = "token"; name = "ann"; issued = 5; expires = 8 }

abbrev after_check : World
after_check = (verify_token server manager "token" (generate_token server manager ann nobody).1).1

ann_in :
    Sessions server manager nobody after_check (with_entry (λ id. none) "u1" (some ann_session))
unfolding generate_token set
ann_in = checked "token" (logged_in ann "token" (begun (λ id. refl)) refl)

verify_token-table_example :
    ((verify_token server manager "token" after_check).0 ≡ ok (some (user_of "u1" "ann"))) ↔ (
      IsOpen
        (with_entry (λ id. none) "u1" (some ann_session))
        "token"
        (user_of "u1" "ann")
        (server.clock after_check)
      × (◌≡◌ {A = Bool} false false)
      × (user_of "u1" "ann" ≡ user_of "u1" "ann"))
unfolding verify_token generate_token get exists set
verify_token-table_example =
    verify_token-table server manager redis_laws keys_apart jwt_laws ann_in "token"
      (user_of "u1" "ann") false (some "token") refl refl
