-- ===== src/Prelude/Decimal.antt =====
-- Go's strconv.Atoi, and fmt.Sprintf("%d", n) for an unsigned n.
use Prim.Native.Nat.{ℕ, zero, suc, ◌+◌, ◌-◌, ◌*◌, ◌/◌, ◌%◌, ◌^◌}
use Prim.Native.Char.{Char, code}
use Prim.Native.String.{String, [], ◌∷◌}
use mathlib.Core.Path.{◌≡◌, refl}
use mathlib.Core.Bool.{Bool, true, false, ◌&&◌}
use mathlib.Core.Option.{Option, none, some}
use aria.Prelude.Tests.{ltb, leb, ◌==◌, if◌then◌else◌, Bool-cases}
use mathlib.Core.Logic.{inl, inr}
use aria.Prelude.Text.{plain_char, is_plain}
use aria.Prelude.Int.{ℤ, pos, negsuc}

abbrev digit_char : ℕ → Char
digit_char n =
    if n == 0
    then "0"
    else if n == 1
    then "1"
    else if n == 2
    then "2"
    else if n == 3
    then "3"
    else if n == 4
    then "4"
    else if n == 5
    then "5"
    else if n == 6
    then "6"
    else if n == 7
    then "7"
    else if n == 8
    then "8"
    else "9"

-- the digits of n in front of a text; each round takes the last one, so n + 1 rounds are enough
digits : ℕ → ℕ → String → String
digits zero n out = out
digits (suc fuel) n out =
    let rest = digits fuel (n / 10) (digit_char (n % 10) ∷ out) in
    if ltb n 10 then digit_char n ∷ out else rest

unfoldable pub decimal : ℕ → String
unfolding digits
decimal n = digits (suc n) n []

abbrev is_digit : Char → Bool
is_digit c = leb 48 (code c) && leb (code c) 57

-- the number that digits spell behind n
scan : ℕ → String → Option ℕ
scan n [] = some n
scan n (c ∷ s) = let rest = scan (n * 10 + (code c - 48)) s in if is_digit c then rest else none

-- at least one digit
abbrev unsigned : String → Option ℕ
unsigned [] = none
unsigned (c ∷ s) = scan 0 (c ∷ s)

abbrev signed : Bool → Option ℕ → Option ℤ
signed minus none = none
signed true (some zero) = some (pos 0)
signed true (some (suc n)) = if ltb n (2 ^ 63) then some (negsuc n) else none
signed false (some n) = if ltb n (2 ^ 63) then some (pos n) else none

-- strconv.Atoi for a 64-bit int
unfoldable pub atoi : String → Option ℤ
unfolding scan
atoi [] = none
atoi (c ∷ s) =
    if code c == 45
    then signed true (unsigned s)
    else if code c == 43
    then signed false (unsigned s)
    else signed false (unsigned (c ∷ s))

decimal_test : decimal 65535 ≡ "65535"
unfolding decimal digits
decimal_test = refl

atoi_test :
    (atoi "-12" ≡ some (negsuc 11)) × (atoi " 3" ≡ none) × (atoi "9223372036854775808" ≡ none)
unfolding atoi scan
atoi_test = (refl, refl, refl)

plain_if :
    (b : Bool) (x y : Char)
    → plain_char x ≡ true
    → plain_char y ≡ true
    → plain_char (if b then x else y) ≡ true
plain_if true x y h k = h
plain_if false x y h k = k

digit_char-plain_char : (n : ℕ) → plain_char (digit_char n) ≡ true
digit_char-plain_char n =
    let from_8 = plain_if (n == 8) "8" "9" refl refl in
    let from_7 = plain_if (n == 7) "7" (if n == 8 then "8" else "9") refl from_8 in
    let from_6 =
      plain_if (n == 6) "6" (if n == 7 then "7" else if n == 8 then "8" else "9") refl from_7 in
    let from_5 =
      plain_if (n == 5) "5"
        (if n == 6 then "6" else if n == 7 then "7" else if n == 8 then "8" else "9") refl from_6 in
    let from_4 =
      plain_if (n == 4) "4"
        (if n == 5
          then "5"
          else if n == 6
          then "6"
          else if n == 7
          then "7"
          else if n == 8
          then "8"
          else "9")
        refl from_5 in
    let from_3 =
      plain_if (n == 3) "3"
        (if n == 4
          then "4"
          else if n == 5
          then "5"
          else if n == 6
          then "6"
          else if n == 7
          then "7"
          else if n == 8
          then "8"
          else "9")
        refl from_4 in
    let from_2 =
      plain_if (n == 2) "2"
        (if n == 3
          then "3"
          else if n == 4
          then "4"
          else if n == 5
          then "5"
          else if n == 6
          then "6"
          else if n == 7
          then "7"
          else if n == 8
          then "8"
          else "9")
        refl from_3 in
    let from_1 =
      plain_if (n == 1) "1"
        (if n == 2
          then "2"
          else if n == 3
          then "3"
          else if n == 4
          then "4"
          else if n == 5
          then "5"
          else if n == 6
          then "6"
          else if n == 7
          then "7"
          else if n == 8
          then "8"
          else "9")
        refl from_2 in
    plain_if (n == 0) "0"
      (if n == 1
        then "1"
        else if n == 2
        then "2"
        else if n == 3
        then "3"
        else if n == 4
        then "4"
        else if n == 5
        then "5"
        else if n == 6
        then "6"
        else if n == 7
        then "7"
        else if n == 8
        then "8"
        else "9")
      refl from_1

digits-is_plain :
    (fuel n : ℕ) (out : String) → is_plain out ≡ true → is_plain (digits fuel n out) ≡ true
unfolding digits
digits-is_plain zero n out h = h
digits-is_plain (suc fuel) n out h = elim (Bool-cases (ltb n 10)) [
  | inl e ↦ rw (e, digit_char-plain_char n) h
  | inr e ↦ rw e (
      digits-is_plain fuel (n / 10) (digit_char (n % 10) ∷ out)
        (rw (digit_char-plain_char (n % 10)) h))
]

pub decimal-is_plain : (n : ℕ) → is_plain (decimal n) ≡ true
unfolding decimal
decimal-is_plain n = digits-is_plain (suc n) n [] refl
