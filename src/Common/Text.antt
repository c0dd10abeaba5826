-- ===== src/Common/Text.antt =====
-- `std::to_string` and the printing of a number in a field.
use Prim.Native.Nat.{ℕ, zero, suc, ◌+◌, ◌/◌, ◌%◌}
use Prim.Native.String.{String, ◌++◌, slice}
use device_manager.Common.Tests.{ltb, if◌then◌else◌}

abbrev pub digit : ℕ → String
digit n = slice "0123456789" n (n + 1)

-- The decimal digits of a number below 10 ^ fuel.
to_decimal : ℕ → ℕ → String
to_decimal zero n = ""
to_decimal (suc fuel) n =
    let rest = to_decimal fuel (n / 10) in if ltb n 10 then digit n else rest ++ digit (n % 10)

-- A 64-bit number has at most 20 digits.
unfoldable pub to_string : ℕ → String
unfolding to_decimal
to_string n = to_decimal 20 n
