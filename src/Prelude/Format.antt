-- ===== src/Prelude/Format.antt =====
-- What `format!` does: joining texts, and the decimal notation of a machine integer.
use Prim.Native.Nat.{ℕ, zero, suc, ◌/◌, ◌%◌}
use Prim.Native.String.{String, ◌++◌}
use review_protocol.Prelude.Tests.{ltb, ◌==◌, if◌then◌else◌}

infixr 65 ◌<>◌
abbrev pub ◌<>◌ : String → String → String
s <> t = s ++ t

digit : ℕ → String
digit d =
    if d == 0
    then "0"
    else if d == 1
    then "1"
    else if d == 2
    then "2"
    else if d == 3
    then "3"
    else if d == 4
    then "4"
    else if d == 5
    then "5"
    else if d == 6
    then "6"
    else if d == 7
    then "7"
    else if d == 8
    then "8"
    else "9"

-- The digits of `n` before `rest`; each round takes the last one.
digits : ℕ → ℕ → String → String
digits zero n rest = rest
digits (suc f) n rest =
    let more = digits f (n / 10) (digit (n % 10) <> rest) in
    if ltb n 10 then digit n <> rest else more

-- Twenty rounds are enough for every `u64`, which has twenty digits at most.
unfoldable pub decimal : ℕ → String
unfolding digits digit
decimal n = digits 20 n ""
