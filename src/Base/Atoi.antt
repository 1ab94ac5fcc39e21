-- ===== src/Base/Atoi.antt =====
-- `strconv.Atoi`: an optional sign, then decimal digits, within an int64.
use Prim.Native.Nat.{ℕ, ◌+◌, ◌-◌, ◌*◌, ◌^◌}
use Prim.Native.Char.{code}
use Prim.Native.String.{String, [], ◌∷◌}
use mathlib.Core.Path.{◌≡◌, refl}
use mathlib.Core.Bool.{◌&&◌}
use mathlib.Core.Option.{Option, none, some}
use graph_ops.Base.Tests.{leb, ltb, eqb, if◌then◌else◌}
use graph_ops.Base.Int.{ℤ, pos, negsuc, sub_ℕ}

read_digits : ℕ → String → Option ℕ
read_digits n [] = some n
read_digits n (c ∷ s) =
    let rest = read_digits (n * 10 + (code c - 48)) s in
    if leb 48 (code c) && leb (code c) 57 then rest else none

read_number : String → Option ℕ
unfolding read_digits
read_number [] = none
read_number (c ∷ s) = read_digits 0 (c ∷ s)

positive : Option ℕ → Option ℤ
positive none = none
positive (some n) = if ltb n (2 ^ 63) then some (pos n) else none

negative : Option ℕ → Option ℤ
negative none = none
negative (some n) = if leb n (2 ^ 63) then some (sub_ℕ 0 n) else none

unfoldable pub atoi : String → Option ℤ
unfolding read_number positive negative
atoi [] = none
atoi (c ∷ s) =
    if eqb (code c) b'-'
    then negative (read_number s)
    else if eqb (code c) b'+'
    then positive (read_number s)
    else positive (read_number (c ∷ s))

atoi_tests :
    (atoi "-12" ≡ some (negsuc 11))
    × (atoi "+7" ≡ some (pos 7))
    × (atoi "" ≡ none)
    × (atoi "9223372036854775808" ≡ none)
    × (atoi "1_0" ≡ none)
unfolding atoi
atoi_tests = (refl, refl, refl, refl, refl)
