-- ===== src/Prelude/Int.antt =====
-- Signed integers over the native numbers, and their decimal text.
use Prim.Native.Nat.{ℕ, zero, suc, ◌+◌, ◌/◌, ◌%◌}
use Prim.Native.String.{String, slice, ◌++◌ as ◌<>◌}
use daemonjob.Prelude.Tests.{ltb, if◌then◌else◌}

-- `negsuc n` is -(n + 1).
pub data ℤ : Type 0 where
  pos : ℕ → ℤ
  negsuc : ℕ → ℤ

digit : ℕ → String
digit d = slice "0123456789" d (d + 1)

-- `n + 1` rounds are enough: a division by ten makes a positive number smaller.
show_digits : ℕ → ℕ → String
unfolding digit
show_digits zero n = ""
show_digits (suc fuel) n =
    let high = show_digits fuel (n / 10) in (if ltb n 10 then "" else high) <> digit (n % 10)

unfoldable pub show_nat : ℕ → String
unfolding show_digits
show_nat n = show_digits (suc n) n

-- strconv.Itoa, and the verb %d
unfoldable pub show_int : ℤ → String
unfolding show_nat
show_int (pos n) = show_nat n
show_int (negsuc n) = "-" <> show_nat (n + 1)
