-- ===== src/Prelude/Text.antt =====
-- The parts of Go's `strings`, `strconv` and `fmt` that the program uses.
pub mod Decimal
use Prim.Native.Char.{Char, code}
use Prim.Native.String.{String, ◌++◌ as ◌<>◌, slice, len}
use Prim.Native.Nat.{ℕ, zero, suc, ◌+◌, ◌-◌, ◌*◌, ◌/◌, ◌%◌, ◌^◌, ◌<◌}
use mathlib.Core.Bool.{Bool, true, false, ◌&&◌, ◌||◌}
use mathlib.Core.Option.{Option, none, some}
use mathlib.Core.List.{List, [], ◌∷◌}
use text.Mathlib.Text.{starts_with, find?}
use kubesan.Prelude.Tests.{ltb, leb, nat_beq, if◌then◌else◌}
use kubesan.Prelude.Int.{ℤ, pos, negsuc, sub_ℕ}

-- strings.Contains
abbrev pub contains_text : String → String → Bool
contains_text s part = elim (find? s part) [ none ↦ false | some i ↦ true ]

-- strings.CutPrefix: the rest behind the prefix
abbrev pub cut_prefix : String → String → Option String
cut_prefix s prefix = if starts_with s prefix then some (slice s (len prefix) (len s)) else none

-- the characters of `unicode.IsSpace` below 128
is_space : ℕ → Bool
is_space c = nat_beq c 32 || leb 9 c && leb c 13

trim_left : String → String
unfolding is_space
trim_left String.[] = String.[]
trim_left (String.◌∷◌ c s) =
    let rest = trim_left s in if is_space (code c) then rest else String.◌∷◌ c s

trim_right : String → String
unfolding is_space
trim_right String.[] = String.[]
trim_right (String.◌∷◌ c s) = keep (trim_right s)
  where
    keep : String → String
    keep String.[] = if is_space (code c) then String.[] else String.◌∷◌ c String.[]
    keep (String.◌∷◌ d r) = String.◌∷◌ c (String.◌∷◌ d r)

-- strings.TrimSpace
unfoldable pub trim_space : String → String
unfolding trim_left trim_right
trim_space s = trim_right (trim_left s)

cons_first : Char → List String → List String
cons_first c [] = String.◌∷◌ c String.[] ∷ []
cons_first c (w ∷ ws) = String.◌∷◌ c w ∷ ws

-- strings.Split at one character
unfoldable pub split_on : ℕ → String → List String
unfolding cons_first
split_on sep String.[] = String.[] ∷ []
split_on sep (String.◌∷◌ c s) =
    let rest = split_on sep s in
    if nat_beq (code c) sep then String.[] ∷ rest else cons_first c rest

parse_digits : String → ℕ → Option ℕ
parse_digits String.[] n = some n
parse_digits (String.◌∷◌ c s) n =
    let rest = parse_digits s (n * 10 + (code c - 48)) in
    if leb 48 (code c) && leb (code c) 57 then rest else none

-- digits without a sign; at least one
parse_magnitude : String → Option ℕ
unfolding parse_digits
parse_magnitude String.[] = none
parse_magnitude (String.◌∷◌ c s) = parse_digits (String.◌∷◌ c s) 0

in_range_pos : Option ℕ → Option ℤ
in_range_pos none = none
in_range_pos (some n) = if ltb n (2 ^ 63) then some (pos n) else none

in_range_neg : Option ℕ → Option ℤ
in_range_neg none = none
in_range_neg (some n) = if leb n (2 ^ 63) then some (sub_ℕ 0 n) else none

-- strconv.ParseInt(s, 10, 64), and strconv.Atoi where `int` has 64 bits
unfoldable pub parse_int : String → Option ℤ
unfolding parse_magnitude in_range_pos in_range_neg
parse_int String.[] = none
parse_int (String.◌∷◌ c s) =
    if nat_beq (code c) 45
    then in_range_neg (parse_magnitude s)
    else if nat_beq (code c) 43
    then in_range_pos (parse_magnitude s)
    else in_range_pos (parse_magnitude (String.◌∷◌ c s))

digit : ℕ → String
digit zero = "0"
digit (suc zero) = "1"
digit (suc (suc zero)) = "2"
digit (suc (suc (suc zero))) = "3"
digit (suc (suc (suc (suc zero)))) = "4"
digit (suc (suc (suc (suc (suc zero))))) = "5"
digit (suc (suc (suc (suc (suc (suc zero)))))) = "6"
digit (suc (suc (suc (suc (suc (suc (suc zero))))))) = "7"
digit (suc (suc (suc (suc (suc (suc (suc (suc zero)))))))) = "8"
digit (suc (suc (suc (suc (suc (suc (suc (suc (suc n))))))))) = "9"

decimal_loop : ℕ → ℕ → String
unfolding digit
decimal_loop zero n = ""
decimal_loop (suc fuel) n =
    let more = decimal_loop fuel (n / 10) in if ltb n 10 then digit n else more <> digit (n % 10)

-- `%d` of a number: an int64 has 19 digits at most, and a uint64 20
unfoldable pub decimal : ℕ → String
unfolding decimal_loop
decimal n = decimal_loop 20 n
