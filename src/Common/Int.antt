-- ===== src/Common/Int.antt =====
-- Integers with a sign: `negsuc n` is -(n + 1).
use Prim.Native.Nat.{ℕ, ◌+◌, ◌-◌}
use device_manager.Common.Tests.{leb, if◌then◌else◌}

pub data ℤ : Type 0 where
  pos : ℕ → ℤ
  negsuc : ℕ → ℤ

-- An integer plus an index.
abbrev pub plus : ℤ → ℕ → ℤ
plus (pos n) i = pos (n + i)
plus (negsuc n) i = if leb i n then negsuc (n - i) else pos (i - n - 1)
