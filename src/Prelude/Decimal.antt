-- ===== src/Prelude/Decimal.antt =====
-- std::to_string.
use Prim.Native.Nat.{ℕ, zero, suc, ◌+◌, ◌/◌, ◌%◌}
use Prim.Native.String.{String, ◌++◌, slice}
use oj_backend.Prelude.Int.{ℤ, pos, negsuc}
use oj_backend.Prelude.Tests.{ltb, if◌then◌else◌}

-- Enough fuel is more than the number of digits.
unfoldable pub decimal : ℕ → ℕ → String
decimal zero n = ""
decimal (suc fuel) n =
    let last = slice "0123456789" (n % 10) (n % 10 + 1) in
    let rest = decimal fuel (n / 10) in if ltb n 10 then last else rest ++ last

abbrev pub to_string : ℕ → String
to_string n = decimal (n + 1) n

-- std::to_string of an `int`
abbrev pub int_to_string : ℤ → String
int_to_string (pos n) = to_string n
int_to_string (negsuc n) = "-" ++ to_string (n + 1)
