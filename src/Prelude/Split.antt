-- ===== src/Prelude/Split.antt =====
-- Go's strings.Split, strings.SplitN, strings.Index and strings.Contains for a separator of one character.
use Prim.Native.Nat.{ℕ}
use Prim.Native.Char.{Char, code}
use Prim.Native.String.{String, [], ◌∷◌}
use mathlib.Core.Path.{◌≡◌, refl}
use mathlib.Core.Bool.{Bool, true, false}
use mathlib.Core.Option.{Option, none, some}
use mathlib.Core.List.{List, [] as nil, ◌∷◌ as cons}
use aria.Prelude.Tests.{◌==◌, if◌then◌else◌}

abbrev pub same_char : Char → ℕ → Bool
same_char a b = code a == b

-- the text before the first separator, and the text behind it where there is one
abbrev pub cut : ℕ → String → String × Option String
cut sep [] = ([], none)
cut sep (c ∷ s) =
    let rest = cut sep s in if same_char c sep then ([], some s) else (c ∷ rest.0, rest.1)

-- put a character in front of the first piece
abbrev pub onto_first : Char → List String → List String
onto_first c nil = cons (c ∷ []) nil
onto_first c (cons p ps) = cons (c ∷ p) ps

-- strings.Split
unfoldable pub split : ℕ → String → List String
split sep [] = cons [] nil
split sep (c ∷ s) =
    let rest = split sep s in if same_char c sep then cons [] rest else onto_first c rest

-- strings.Index(s, sep) >= 0
abbrev pub contains_char : ℕ → String → Bool
contains_char sep [] = false
contains_char sep (c ∷ s) = let rest = contains_char sep s in if same_char c sep then true else rest

split_test : split b',' "80, 443" ≡ cons "80" (cons " 443" nil)
unfolding split
split_test = refl
