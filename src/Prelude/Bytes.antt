-- ===== src/Prelude/Bytes.antt =====
-- Byte strings, and the numbers that fit in four bytes.
use Prim.Native.Nat.{ℕ, ◌+◌, ◌*◌, ◌/◌, ◌%◌}
use mathlib.Core.Path.{◌≡◌}
use mathlib.Core.Bool.{Bool, true}
use mathlib.Core.List.{List, [], ◌∷◌}
use native.Mathlib.Omega.{arith}
use model_shard.Prelude.Tests.{ltb}

-- `bytes`: a list of numbers below 256.
abbrev pub Bytes : Type 0
Bytes = List ℕ

-- What "I" of `struct` and a uint32 field of protobuf take.
abbrev pub is_u32 : ℕ → Bool
is_u32 n = ltb n 4294967296

-- uint64 and, for what is not negative, int64.
abbrev pub is_u64 : ℕ → Bool
is_u64 n = ltb n 18446744073709551616

abbrev pub is_i64 : ℕ → Bool
is_i64 n = ltb n 9223372036854775808

-- Four bytes, the highest first.
abbrev pub be_bytes : ℕ → Bytes
be_bytes n = n / 16777216 % 256 ∷ n / 65536 % 256 ∷ n / 256 % 256 ∷ n % 256 ∷ []

abbrev pub be_value : Bytes → ℕ
be_value (a ∷ b ∷ c ∷ (d ∷ rest)) = a * 16777216 + b * 65536 + c * 256 + d
be_value bytes = 0

pub be_value-be_bytes : (n : ℕ) → is_u32 n ≡ true → be_value (be_bytes n) ≡ n
be_value-be_bytes n h = ground (arith, h)
