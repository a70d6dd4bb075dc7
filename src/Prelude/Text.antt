-- ===== src/Prelude/Text.antt =====
-- Go's strings.TrimSpace and, for ASCII text, strings.ToLower.
use Prim.Native.Nat.{ℕ, zero, suc, ◌-◌}
use Prim.Native.Char.{Char, code}
use Prim.Native.String.{String, [], ◌∷◌, ◌++◌}
use mathlib.Core.Path.{◌≡◌, refl}
use mathlib.Core.Logic.{inl, inr}
use mathlib.Core.Bool.{Bool, true, false, not, ◌&&◌, ◌||◌}
use native.Mathlib.Omega.{arith}
use text.Mathlib.TextLemmas.{nil-append, cons-append}
use aria.Prelude.Tests.{leb, ◌==◌, if◌then◌else◌, Bool-cases}

-- unicode.IsSpace
is_space : Char → Bool
is_space c =
    let n = code c in
    (leb 9 n && leb n 13)
    || n == 32
    || n == 0x85
    || n == 0xa0
    || n == 0x1680
    || (leb 0x2000 n && leb n 0x200a)
    || n == 0x2028
    || n == 0x2029
    || n == 0x202f
    || n == 0x205f
    || n == 0x3000

abbrev pub is_empty : String → Bool
is_empty [] = true
is_empty (c ∷ s) = false

pub trim_left : String → String
trim_left [] = []
trim_left (c ∷ s) = if is_space c then trim_left s else c ∷ s

pub trim_right : String → String
trim_right [] = []
trim_right (c ∷ s) = let r = trim_right s in if is_space c && is_empty r then [] else c ∷ r

unfoldable pub trim : String → String
unfolding trim_left trim_right is_space
trim s = trim_right (trim_left s)

trim_right-trim_right : (s : String) → trim_right (trim_right s) ≡ trim_right s
unfolding trim_right
trim_right-trim_right [] = refl
trim_right-trim_right (c ∷ s) = elim (Bool-cases (is_space c && is_empty (trim_right s))) [
  | inl e ↦ rw e
  | inr e ↦ rw (e, trim_right-trim_right s, e)
]

-- the first character of the text is no space
starts_bare : String → Bool
starts_bare [] = true
starts_bare (c ∷ s) = not (is_space c)

trim_left-starts_bare : (s : String) → starts_bare (trim_left s) ≡ true
unfolding trim_left starts_bare
trim_left-starts_bare [] = refl
trim_left-starts_bare (c ∷ s) = ground (arith, trim_left-starts_bare s)

trim_left_bare : (s : String) → starts_bare s ≡ true → trim_left s ≡ s
unfolding trim_left starts_bare
trim_left_bare [] h = refl
trim_left_bare (c ∷ s) h = ground arith

trim_right-starts_bare : (s : String) → starts_bare s ≡ true → starts_bare (trim_right s) ≡ true
unfolding trim_right starts_bare
trim_right-starts_bare [] h = refl
trim_right-starts_bare (c ∷ s) h = ground arith

-- trimming twice is trimming once
pub trim-trim : (s : String) → trim (trim s) ≡ trim s
unfolding trim
trim-trim s =
    rw (trim_left_bare _ (trim_right-starts_bare _ (trim_left-starts_bare s)))
      (trim_right-trim_right (trim_left s))

char_at : String → ℕ → Char → Char
char_at [] i d = d
char_at (c ∷ s) zero d = c
char_at (c ∷ s) (suc i) d = char_at s i d

lower_char : Char → Char
unfolding char_at
lower_char c =
    let n = code c in
    if leb b'A' n && leb n b'Z' then char_at "abcdefghijklmnopqrstuvwxyz" (n - b'A') c else c

-- strings.ToLower of ASCII text
unfoldable pub to_lower : String → String
unfolding lower_char
to_lower [] = []
to_lower (c ∷ s) = lower_char c ∷ to_lower s

trim_test : trim " Banned " ≡ "Banned"
unfolding trim
trim_test = refl

to_lower_test : to_lower "BanneD" ≡ "banned"
unfolding to_lower
to_lower_test = refl

-- the digits and the characters just before them
abbrev pub plain_char : Char → Bool
plain_char c = leb 45 (code c) && leb (code c) 57

abbrev pub is_plain : String → Bool
is_plain [] = true
is_plain (c ∷ s) = let rest = is_plain s in if plain_char c then rest else false

plain_char-is_space : (c : Char) → plain_char c ≡ true → is_space c ≡ false
unfolding is_space
plain_char-is_space c h = ground (arith, h)

trim_left-is_plain : (s : String) → is_plain s ≡ true → trim_left s ≡ s
unfolding trim_left
trim_left-is_plain [] h = refl
trim_left-is_plain (c ∷ s) h = rw (plain_char-is_space c (ground (arith, h))) refl

trim_right-is_plain : (s : String) → is_plain s ≡ true → trim_right s ≡ s
unfolding trim_right
trim_right-is_plain [] h = refl
trim_right-is_plain (c ∷ s) h =
    rw (plain_char-is_space c (ground (arith, h)), trim_right-is_plain s (ground (arith, h))) refl

pub trim-is_plain : (s : String) → is_plain s ≡ true → trim s ≡ s
unfolding trim
trim-is_plain s h = rw (trim_left-is_plain s h) (trim_right-is_plain s h)

lower_char-plain_char : (c : Char) → plain_char c ≡ true → lower_char c ≡ c
unfolding lower_char
lower_char-plain_char c h = ground (arith, h)

pub to_lower-is_plain : (s : String) → is_plain s ≡ true → to_lower s ≡ s
unfolding to_lower
to_lower-is_plain [] h = refl
to_lower-is_plain (c ∷ s) h =
    rw (lower_char-plain_char c (ground (arith, h)), to_lower-is_plain s (ground (arith, h))) refl

pub append-is_plain :
    (a b : String) → is_plain a ≡ true → is_plain b ≡ true → is_plain (a ++ b) ≡ true
append-is_plain [] b h k = rw (nil-append b) k
append-is_plain (c ∷ a) b h k =
    rw (cons-append c a b) (ground (arith, h, append-is_plain a b (ground (arith, h)) k))
