-- ===== src/App/Monad.antt =====
-- Methods that may throw and that work on the world. What was done before a throw stays done.
pub mod Inversion
use oj_backend.Prelude.{Option, none, some, Bool, true, false}
use oj_backend.Exceptions.Result.{Result, Error, ok, err}

abbrev pub Act : Type 0 → Type 0 → Type 0
Act W A = W → Result A × W

module _ {W A : Type 0} where
  abbrev pub pure : A → Act W A
  pure a w = (ok a, w)

  abbrev pub throw : Error → Act W A
  throw e w = (err e, w)

  -- A pure function that may throw.
  abbrev pub lift : Result A → Act W A
  lift r w = (r, w)

  abbrev pub caught : (Error → A) → Result A × W → Result A × W
  caught handler (ok a, w) = (ok a, w)
  caught handler (err (Error.undefined what), w) = (err (Error.undefined what), w)
  caught handler (err e, w) = (ok (handler e), w)

  -- try { … } catch (const std::exception&) { return …; }
  abbrev pub catching : Act W A → (Error → A) → Act W A
  catching m handler w = caught handler (m w)

module _ {W A B : Type 0} where
  abbrev pub continue : (A → Act W B) → Result A × W → Result B × W
  continue f (ok a, w) = f a w
  continue f (err e, w) = (err e, w)

  infixl 5 ◌>>=◌
  abbrev pub ◌>>=◌ : Act W A → (A → Act W B) → Act W B
  ◌>>=◌ m f w = continue f (m w)

infixl 5 ◌>>◌
abbrev pub ◌>>◌ : {W A B : Type 0} → Act W A → Act W B → Act W B
m >> k = m >>= λ _. k
