-- ===== src/Prelude/Text/Decimal.antt =====
-- `strconv.Itoa` and `strconv.Atoi` one behind the other.
use Prim.Native.Char.{Char, code}
use Prim.Native.String.{String, ◌++◌ as ◌<>◌}
use Prim.Native.Nat.{ℕ, zero, suc, ◌+◌, ◌-◌, ◌*◌, ◌/◌, ◌%◌, ◌^◌, ◌<◌, ◌≤◌}
use mathlib.Core.Path.{◌≡◌, refl, sym, ap, ◌∙◌}
use mathlib.Core.Bool.{true, false}
use mathlib.Core.Logic.{inl, inr}
use mathlib.Core.Option.{some}
use text.Mathlib.TextLemmas.{append_assoc, cons-append, nil-append, append-nil}
use native.Mathlib.Nat.{pow-suc}
use native.Mathlib.Omega.{arith}
use kubesan.Prelude.Tests.{ltb, leb, nat_beq, Bool-cases}
use kubesan.Prelude.Int.{pos}
use kubesan.Prelude.Text.{
  parse_digits, parse_magnitude, in_range_pos, parse_int, digit, decimal_loop, decimal,
}

digit-shape : (d : ℕ) → d < 10 → (c : Char) × (digit d ≡ String.◌∷◌ c String.[]) × (code c ≡ 48 + d)
unfolding digit
digit-shape zero h = ("0", refl, refl)
digit-shape (suc zero) h = ("1", refl, refl)
digit-shape (suc (suc zero)) h = ("2", refl, refl)
digit-shape (suc (suc (suc zero))) h = ("3", refl, refl)
digit-shape (suc (suc (suc (suc zero)))) h = ("4", refl, refl)
digit-shape (suc (suc (suc (suc (suc zero))))) h = ("5", refl, refl)
digit-shape (suc (suc (suc (suc (suc (suc zero)))))) h = ("6", refl, refl)
digit-shape (suc (suc (suc (suc (suc (suc (suc zero))))))) h = ("7", refl, refl)
digit-shape (suc (suc (suc (suc (suc (suc (suc (suc zero)))))))) h = ("8", refl, refl)
digit-shape (suc (suc (suc (suc (suc (suc (suc (suc (suc zero))))))))) h = ("9", refl, refl)
digit-shape (suc (suc (suc (suc (suc (suc (suc (suc (suc (suc n)))))))))) h = absurd (omega arith)

-- one digit is read as its value
digit-parse :
    (d : ℕ) (rest : String) (n : ℕ)
    → d < 10
    → parse_digits (digit d <> rest) n ≡ parse_digits rest (n * 10 + d)
unfolding parse_digits
digit-parse d rest n h =
    let (c, e, value) = digit-shape d h in
    let cons : digit d <> rest ≡ String.◌∷◌ c rest =
      ap (λ s. s <> rest) e
      ∙ (cons-append c String.[] rest ∙ ap (λ s. String.◌∷◌ c s) (nil-append rest)) in
    let low : leb 48 (48 + d) ≡ true = ground arith in
    let high : leb (48 + d) 57 ≡ true = ground arith in
    let back : 48 + d - 48 ≡ d = omega arith in rw cons (rw (value, low, high, back) refl)

pow_bound : (fuel n : ℕ) → n < 10 ^ suc fuel → n / 10 < 10 ^ fuel
pow_bound fuel n h = omega (arith, pow-suc 10 fuel)

fuel_positive : (fuel n : ℕ) → n < 10 ^ suc fuel → 10 ≤ n → 0 < fuel
fuel_positive zero n h large = absurd (omega arith)
fuel_positive (suc fuel) n h large = omega arith

-- the digits are read back, whatever follows
decimal_loop-parse :
    (fuel n : ℕ) (rest : String)
    → n < 10 ^ fuel
    → 0 < fuel
    → parse_digits (decimal_loop fuel n <> rest) 0 ≡ parse_digits rest n
unfolding decimal_loop
decimal_loop-parse zero n rest h positive = absurd (omega arith)
decimal_loop-parse (suc fuel) n rest h positive = elim (Bool-cases (ltb n 10)) [
  | inl small ↦
      rw small (digit-parse n rest 0 (ground arith) ∙ ap (parse_digits rest) (omega arith))
  | inr large ↦
      let ih =
        decimal_loop-parse fuel (n / 10) (digit (n % 10) <> rest) (pow_bound fuel n h)
          (fuel_positive fuel n h (ground arith)) in
      rw large (
        rw (append_assoc (decimal_loop fuel (n / 10)) (digit (n % 10)) rest) (
          ih
          ∙ (digit-parse (n % 10) rest (n / 10) (omega arith)
              ∙ ap (parse_digits rest) (omega arith))))
]

-- a text that starts with a digit
abbrev StartsWithDigit : String → Type 0
StartsWithDigit t = (c : Char) × (s : String) × (t ≡ String.◌∷◌ c s) × (48 ≤ code c) × (code c ≤ 57)

digit-StartsWithDigit : (d : ℕ) → d < 10 → StartsWithDigit (digit d)
digit-StartsWithDigit d h =
    let (c, e, value) = digit-shape d h in
    (c, String.[], e, omega (arith, value), omega (arith, value))

append-StartsWithDigit : (t rest : String) → StartsWithDigit t → StartsWithDigit (t <> rest)
append-StartsWithDigit t rest (c, s, e, low, high) =
    (c, s <> rest, ap (λ u. u <> rest) e ∙ cons-append c s rest, low, high)

decimal_loop-StartsWithDigit : (fuel n : ℕ) → StartsWithDigit (decimal_loop (suc fuel) n)
unfolding decimal_loop
decimal_loop-StartsWithDigit zero n = elim (Bool-cases (ltb n 10)) [
  | inl small ↦ rw small (digit-StartsWithDigit n (ground arith))
  | inr large ↦
      rw large (rw (nil-append (digit (n % 10))) (digit-StartsWithDigit (n % 10) (omega arith)))
]
decimal_loop-StartsWithDigit (suc fuel) n = elim (Bool-cases (ltb n 10)) [
  | inl small ↦ rw small (digit-StartsWithDigit n (ground arith))
  | inr large ↦ rw large (
      append-StartsWithDigit (decimal_loop (suc fuel) (n / 10)) (digit (n % 10))
        (decimal_loop-StartsWithDigit fuel (n / 10)))
]

parse_int-digits :
    (t : String) (n : ℕ)
    → StartsWithDigit t
    → parse_digits t 0 ≡ some n
    → n < 9223372036854775808
    → parse_int t ≡ some (pos n)
unfolding parse_int parse_magnitude in_range_pos
parse_int-digits t n (c, s, e, low, high) digits h =
    let plain : nat_beq (code c) 45 ≡ false = ground arith in
    let unsigned : nat_beq (code c) 43 ≡ false = ground arith in
    let fits : ltb n (2 ^ 63) ≡ true = ground arith in
    let read : parse_digits (String.◌∷◌ c s) 0 ≡ some n = rw e at digits in
    rw (e, plain, unsigned, read, fits) refl

-- every number below 2 ^ 63 is read back
pub parse_int-decimal : (n : ℕ) → n < 9223372036854775808 → parse_int (decimal n) ≡ some (pos n)
unfolding decimal parse_digits
parse_int-decimal n h =
    parse_int-digits (decimal_loop 20 n) n (decimal_loop-StartsWithDigit 19 n)
      (ap (λ t. parse_digits t 0) (sym (append-nil (decimal_loop 20 n)))
        ∙ decimal_loop-parse 20 n String.[] (omega arith) (omega arith))
      h
