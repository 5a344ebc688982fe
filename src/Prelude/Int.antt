-- ===== src/Prelude/Int.antt =====
-- Signed integers over the native numbers, under the library's names, and the conversions that C++
-- makes between 32-bit integers.
use Prim.Native.Nat.{ℕ, ◌-◌, ◌%◌, ◌^◌}
use oj_backend.Prelude.Tests.{ltb, if◌then◌else◌}

-- `negsuc n` is -(n + 1).
pub data ℤ : Type 0 where
  pos : ℕ → ℤ
  negsuc : ℕ → ℤ

abbrev pub u32_mod : ℕ
u32_mod = 2 ^ 32

-- An unsigned value stored in an `int`.
abbrev pub to_int32 : ℕ → ℤ
to_int32 n = let r = n % u32_mod in if ltb r (2 ^ 31) then pos r else negsuc (u32_mod - 1 - r)

-- An `int` compared with a `uint32_t` is first converted to it.
abbrev pub to_uint32 : ℤ → ℕ
to_uint32 (pos n) = n % u32_mod
to_uint32 (negsuc n) = u32_mod - 1 - n % u32_mod
