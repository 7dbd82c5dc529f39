-- ===== src/Base/Strtol.antt =====
-- `strtol` and `atoi` of the C library, for a `long` of 64 bits and an `int` of 32.
use Prim.Native.Nat.{ℕ, ◌+◌, ◌-◌, ◌*◌, ◌%◌, ◌^◌}
use mathlib.Core.Bool.{Bool, true, false, ◌&&◌, ◌||◌}
use mathlib.Core.List.{List, [], ◌∷◌}
use ideal_broccoli.Base.Tests.{ltb, leb, ◌==◌, if◌then◌else◌}

abbrev pub is_space : ℕ → Bool
is_space c = c == 32 || (leb 9 c && leb c 13)

abbrev pub is_digit : ℕ → Bool
is_digit c = leb b'0' c && leb c b'9'

unfoldable pub skip_spaces : List ℕ → List ℕ
skip_spaces [] = []
skip_spaces (c ∷ cs) = let rest = skip_spaces cs in if is_space c then rest else c ∷ cs

-- The value of the leading digits, and what stands behind them.
unfoldable pub digits : ℕ → List ℕ → ℕ × List ℕ
digits n [] = (n, [])
digits n (c ∷ cs) =
    let rest = digits (n * 10 + (c - b'0')) cs in if is_digit c then rest else (n, c ∷ cs)

-- The sign: whether there is a minus, and what stands behind it.
unfoldable pub sign : List ℕ → Bool × List ℕ
sign [] = (false, [])
sign (c ∷ cs) = if c == b'-' then (true, cs) else if c == b'+' then (false, cs) else (false, c ∷ cs)

unfoldable pub starts_with_digit : List ℕ → Bool
starts_with_digit [] = false
starts_with_digit (c ∷ cs) = is_digit c

-- `strtol` to base 10, for a `long` of 64 bits: the sign, the magnitude and the rest. Without a
-- digit the rest is the whole text.
unfoldable pub strtol : List ℕ → Bool × ℕ × List ℕ
unfolding skip_spaces sign starts_with_digit
strtol value =
    let (minus, body) = sign (skip_spaces value) in
    let (n, rest) = digits 0 body in
    let limit = if minus then 2 ^ 63 else 2 ^ 63 - 1 in
    if starts_with_digit body
    then (minus, (if ltb limit n then limit else n), rest)
    else (false, 0, value)

-- An `int`: its sign and its magnitude.
abbrev pub Int32 : Type 0
Int32 = Bool × ℕ

unfoldable pub atoi : List ℕ → Int32
unfolding strtol
atoi value =
    let (minus, n, rest) = strtol value in
    let bits = (if minus then 2 ^ 32 - n % 2 ^ 32 else n) % 2 ^ 32 in
    if ltb bits (2 ^ 31) then (false, bits) else (true, 2 ^ 32 - bits)
