-- ===== src/App/Monad/Inversion.antt =====
-- What a successful sequence of actions says of its parts.
use oj_backend.Prelude.{◌≡◌, ◌≢◌, refl, Bool, true, false, arith, if◌then◌else◌}
use oj_backend.Exceptions.Result.{Result, Error, ok, err}
use oj_backend.App.Monad.{Act, continue, ◌>>=◌, caught}

continue-eq-ok :
    {W A B : Type 0} (f : A → Act W B) (r : Result A × W) {b : B}
    → (continue f r).0 ≡ ok b
    → (a : A) × (r.0 ≡ ok a) × ((f a r.1).0 ≡ ok b)
continue-eq-ok f (ok a, w) h = (a, refl, h)
continue-eq-ok f (err e, w) h = cc

pub >>=-eq-ok :
    {W A B : Type 0} (x : Act W A) (f : A → Act W B) (w : W) {b : B}
    → ((x >>= f) w).0 ≡ ok b
    → (a : A) × ((x w).0 ≡ ok a) × ((f a (x w).1).0 ≡ ok b)
>>=-eq-ok x f w h = continue-eq-ok f (x w) h

-- A result that is not the handler's is the body's.
pub caught-eq-ok :
    {W A : Type 0} (d : A) (r : Result A × W) {a : A}
    → (caught (λ _. d) r).0 ≡ ok a
    → a ≢ d
    → r.0 ≡ ok a
caught-eq-ok d r h n = ground arith

continue-ok :
    {W A B : Type 0} (f : A → Act W B) (r : Result A × W) {a : A}
    → r.0 ≡ ok a
    → continue f r ≡ f a r.1
continue-ok f (ok b, w) h = ground arith
continue-ok f (err e, w) h = cc

-- After a part that returned, the rest runs on.
pub >>=-ok :
    {W A B : Type 0} (x : Act W A) (f : A → Act W B) (w : W) {a : A}
    → (x w).0 ≡ ok a
    → (x >>= f) w ≡ f a (x w).1
>>=-ok x f w h = continue-ok f (x w) h

pub caught-ok :
    {W A : Type 0} (handler : Error → A) (r : Result A × W) {a : A}
    → r.0 ≡ ok a
    → (caught handler r).0 ≡ ok a
caught-ok handler (ok b, w) h = h
caught-ok handler (err e, w) h = cc

pub caught-state :
    {W A : Type 0} (handler : Error → A) (r : Result A × W) → (caught handler r).1 ≡ r.1
caught-state handler (ok b, w) = refl
caught-state handler (err e, w) = ground arith

-- A test whose outcome is known.
pub allowed :
    {W A : Type 0} (b : Bool) (x y : Act W A) (w : W) → b ≡ true → (if b then x else y) w ≡ x w
allowed true x y w h = refl
allowed false x y w h = cc

pub not_refused :
    {W A : Type 0} (b : Bool) (x y : Act W A) (w : W) → b ≡ false → (if b then x else y) w ≡ y w
not_refused true x y w h = cc
not_refused false x y w h = refl
