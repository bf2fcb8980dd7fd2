-- ===== src/Common/Text.antt =====
-- Slices of texts, counted in characters as Python counts them.
use replica_ai.Common.Tests.{◌==◌, if◌then◌else◌, ltb}
use Prim.Native.Nat.{ℕ, zero, suc, ◌/◌, ◌%◌}
use Prim.Native.String.{String, ◌++◌}

-- `s[:n]`
abbrev pub take_chars : ℕ → String → String
take_chars zero s = String.[]
take_chars (suc n) String.[] = String.[]
take_chars (suc n) (String.◌∷◌ c s) = String.◌∷◌ c (take_chars n s)

-- `s[n:]`
abbrev pub drop_chars : ℕ → String → String
drop_chars zero s = s
drop_chars (suc n) String.[] = String.[]
drop_chars (suc n) (String.◌∷◌ c s) = drop_chars n s

abbrev pub length_of : String → ℕ
length_of String.[] = 0
length_of (String.◌∷◌ c s) = suc (length_of s)

-- The digits of a number below ten, and `str(n)` with fuel above the number of digits.
abbrev digit : ℕ → String
digit n =
    if n == 0
    then "0"
    else if n == 1
    then "1"
    else if n == 2
    then "2"
    else if n == 3
    then "3"
    else if n == 4
    then "4"
    else if n == 5
    then "5"
    else if n == 6
    then "6"
    else if n == 7
    then "7"
    else if n == 8
    then "8"
    else "9"

pub decimal_from : ℕ → ℕ → String
decimal_from zero n = ""
decimal_from (suc f) n =
    let rest = decimal_from f (n / 10) ++ digit (n % 10) in if ltb n 10 then digit n else rest

unfoldable pub decimal : ℕ → String
unfolding decimal_from
decimal n = decimal_from (suc n) n
