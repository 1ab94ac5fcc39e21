-- ===== src/Base/Decimal.antt =====
-- The decimal numbers of `fmt.Sprintf`: the verbs `%d` and `%06d`, `%02d`.
use Prim.Native.Nat.{ℕ, zero, suc, ◌+◌, ◌-◌, ◌*◌, ◌/◌, ◌%◌, ◌≤◌, ◌<◌}
use Prim.Native.Char.{Char, code}
use Prim.Native.String.{String, [], ◌∷◌, ◌++◌}
use mathlib.Core.Path.{◌≡◌, refl, ◌∙◌, ap}
use mathlib.Core.Logic.{inl, inr}
use native.Mathlib.Omega.{arith}
use text.Mathlib.TextLemmas.{nil-append, cons-append}
use graph_ops.Base.Tests.{Bool-cases, ltb, eqb, if◌then◌else◌}
use graph_ops.Base.Int.{ℤ, pos, negsuc}

digit : ℕ → Char
digit zero = "0"
digit (suc zero) = "1"
digit (suc (suc zero)) = "2"
digit (suc (suc (suc zero))) = "3"
digit (suc (suc (suc (suc zero)))) = "4"
digit (suc (suc (suc (suc (suc zero))))) = "5"
digit (suc (suc (suc (suc (suc (suc zero)))))) = "6"
digit (suc (suc (suc (suc (suc (suc (suc zero))))))) = "7"
digit (suc (suc (suc (suc (suc (suc (suc (suc zero)))))))) = "8"
digit _ = "9"

code-digit : (d : ℕ) → d < 10 → code (digit d) ≡ 48 + d
unfolding digit
code-digit zero h = refl
code-digit (suc zero) h = refl
code-digit (suc (suc zero)) h = refl
code-digit (suc (suc (suc zero))) h = refl
code-digit (suc (suc (suc (suc zero)))) h = refl
code-digit (suc (suc (suc (suc (suc zero))))) h = refl
code-digit (suc (suc (suc (suc (suc (suc zero)))))) h = refl
code-digit (suc (suc (suc (suc (suc (suc (suc zero))))))) h = refl
code-digit (suc (suc (suc (suc (suc (suc (suc (suc zero)))))))) h = refl
code-digit (suc (suc (suc (suc (suc (suc (suc (suc (suc zero))))))))) h = refl
code-digit (suc (suc (suc (suc (suc (suc (suc (suc (suc (suc d)))))))))) h = absurd (omega arith)

-- The digits of `n` in front of `out`. The fuel `n` is enough: each round divides by ten.
digits : ℕ → ℕ → String → String
digits zero n out = digit (n % 10) ∷ out
digits (suc f) n out =
    let rest = digits f (n / 10) (digit (n % 10) ∷ out) in if ltb n 10 then digit n ∷ out else rest

-- `%d` of an unsigned number.
unfoldable pub decimal : ℕ → String
unfolding digits digit
decimal n = digits n n []

-- `%d` of a signed number.
unfoldable pub signed_decimal : ℤ → String
unfolding decimal
signed_decimal (pos n) = decimal n
signed_decimal (negsuc n) = "-" ++ decimal (suc n)

abbrev char_count : String → ℕ
char_count [] = 0
char_count (c ∷ s) = suc (char_count s)

zeros : ℕ → String → String
zeros zero s = s
zeros (suc n) s = digit 0 ∷ zeros n s

-- `%0wd` of an unsigned number: zeros up to the width, and all digits of a longer number.
unfoldable pub padded : ℕ → ℕ → String
unfolding decimal zeros
padded width n = let s = decimal n in zeros (width - char_count s) s

padding :
    (padded 6 42 ≡ "000042") × (padded 6 1234567 ≡ "1234567") × (signed_decimal (negsuc 9) ≡ "-10")
unfolding padded signed_decimal
padding = (refl, refl, refl)

-- The number that the digits behind the last dash of a text spell.
number_behind_dash : ℕ → String → ℕ
number_behind_dash acc [] = acc
number_behind_dash acc (c ∷ s) =
    number_behind_dash (if eqb (code c) b'-' then 0 else acc * 10 + (code c - 48)) s

number-digit :
    (acc d : ℕ) (s : String)
    → d < 10
    → number_behind_dash acc (digit d ∷ s) ≡ number_behind_dash (acc * 10 + d) s
unfolding number_behind_dash
number-digit acc d s h =
    let e : (if eqb (code (digit d)) b'-' then 0 else acc * 10 + (code (digit d) - 48))
        ≡ acc * 10 + d =
      ground (arith, code-digit d h) in
    ap (λ n. number_behind_dash n s) e

number-digits :
    (f n : ℕ) (out : String)
    → n ≤ f
    → number_behind_dash 0 (digits f n out) ≡ number_behind_dash n out
unfolding digits
number-digits zero n out h =
    number-digit 0 (n % 10) out (omega arith) ∙ ap (λ k. number_behind_dash k out) (omega arith)
number-digits (suc f) n out h = elim (Bool-cases (ltb n 10)) [
  | inl short ↦
      rw short
        (number-digit 0 n out (ground arith) ∙ ap (λ k. number_behind_dash k out) (omega arith))
  | inr long ↦ rw long (
      number-digits f (n / 10) (digit (n % 10) ∷ out) (ground arith)
      ∙ (number-digit (n / 10) (n % 10) out (omega arith)
          ∙ ap (λ k. number_behind_dash k out) (omega arith)))
]

number-zeros : (k : ℕ) (s : String) → number_behind_dash 0 (zeros k s) ≡ number_behind_dash 0 s
unfolding zeros number_behind_dash digit
number-zeros zero s = refl
number-zeros (suc k) s = number-zeros k s

number-padded : (width n : ℕ) → number_behind_dash 0 (padded width n) ≡ n
unfolding padded
number-padded width n =
    number-zeros (width - char_count (decimal n)) (decimal n)
    ∙ (number-digits n n [] (omega arith) ∙ unfold number_behind_dash in refl)

number-dash :
    (acc : ℕ) (p s : String) → number_behind_dash acc (p ++ ("-" ++ s)) ≡ number_behind_dash 0 s
unfolding number_behind_dash
number-dash acc [] s = rw nil-append (rw cons-append (rw nil-append))
number-dash acc (c ∷ p) s =
    rw cons-append (number-dash (if eqb (code c) b'-' then 0 else acc * 10 + (code c - 48)) p s)

-- A padded number behind a dash is read back whatever stands in front.
pub padded_behind_dash_inj :
    (width m n : ℕ) (p q : String)
    → p ++ ("-" ++ padded width m) ≡ q ++ ("-" ++ padded width n)
    → m ≡ n
padded_behind_dash_inj width m n p q e = cc (
  number-dash 0 p (padded width m),
  number-dash 0 q (padded width n),
  number-padded width m,
  number-padded width n,
)

pub padded_inj : (width m n : ℕ) → padded width m ≡ padded width n → m ≡ n
padded_inj width m n e = cc (number-padded width m, number-padded width n)
