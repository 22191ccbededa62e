-- ===== src/Prelude/Decimal.antt =====
-- The decimal numerals that `%d` of package fmt writes.
use Prim.Native.String.{◌++◌}
use Prim.Native.Nat.{ℕ, zero, suc, ◌/◌, ◌%◌}
use ofm_mail_service.Prelude.Tests.{if◌then◌else◌, ltb}
use ofm_mail_service.Prelude.Int.{ℤ, pos, negsuc}
use Prim.Native.String.{String}

-- `%d`
digit : ℕ → String
digit zero = "0"
digit (suc zero) = "1"
digit (suc (suc zero)) = "2"
digit (suc (suc (suc zero))) = "3"
digit (suc (suc (suc (suc zero)))) = "4"
digit (suc (suc (suc (suc (suc zero))))) = "5"
digit (suc (suc (suc (suc (suc (suc zero)))))) = "6"
digit (suc (suc (suc (suc (suc (suc (suc zero))))))) = "7"
digit (suc (suc (suc (suc (suc (suc (suc (suc zero)))))))) = "8"
digit _ = "9"

-- The fuel, the number itself, is more than its digits.
decimal_from : ℕ → ℕ → String
unfolding digit
decimal_from zero n = digit n
decimal_from (suc fuel) n =
    let more = decimal_from fuel (n / 10) in if ltb n 10 then digit n else more ++ digit (n % 10)

unfoldable pub decimal : ℤ → String
unfolding decimal_from
decimal (pos n) = decimal_from n n
decimal (negsuc n) = "-" ++ decimal_from (suc n) (suc n)
