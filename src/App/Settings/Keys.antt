-- ===== src/App/Settings/Keys.antt =====
-- The keys of TokenManager (app/src/services/TokenManager.cpp) under the default prefixes.
use Prim.Native.String.{◌++◌, slice}
use text.Mathlib.Text.{◌==◌ as str_eq}
use text.Mathlib.TextPositions.{slice-append_left}
use text.Mathlib.TextLemmas.{append_assoc}
use oj_backend.Prelude.{String, ◌≡◌, sym, ◌∙◌, ap, false, inl, inr, Bool-cases, eq_iff}

-- Under the default prefixes, no key of an active token is a key of the blacklist.
pub default_keys_apart :
    (id token : String) → str_eq ("user:active:" ++ id) ("user:token_blacklist:" ++ token) ≡ false
default_keys_apart id token =
    elim (Bool-cases (str_eq ("user:active:" ++ id) ("user:token_blacklist:" ++ token))) [
      | inr e ↦ e
      | inl e ↦
          let same = (eq_iff ("user:active:" ++ id) ("user:token_blacklist:" ++ token)).0 e in
          let other : slice ("user:token_blacklist:" ++ token) 0 12 ≡ "user:token_b" =
            ap (λ k. slice k 0 12) (append_assoc "user:token_b" "lacklist:" token)
            ∙ slice-append_left "user:token_b" ("lacklist:" ++ token) in
          let starts : "user:active:" ≡ "user:token_b" =
            sym (slice-append_left "user:active:" id) ∙ ap (λ k. slice k 0 12) same ∙ other in
          let impossible : str_eq "user:active:" "user:active:"
              ≡ str_eq "user:active:" "user:token_b" =
            ap (str_eq "user:active:") starts in
          absurd (cc impossible)
    ]
