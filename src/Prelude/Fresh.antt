-- ===== src/Prelude/Fresh.antt =====
-- A text that is no key of a table: one that is longer than each of them.
use Prim.Native.Nat.{◌≤◌, ◌<◌}
use Prim.Native.String.{String, ◌++◌, len}
use mathlib.Core.Path.{◌≡◌, ap}
use mathlib.Core.Logic.{inl, inr}
use mathlib.Core.Bool.{false}
use mathlib.Core.List.{List, [], ◌∷◌}
use native.Mathlib.Omega.{arith}
use text.Mathlib.Text.{◌==◌}
use text.Mathlib.TextEquality.{eq_iff}
use text.Mathlib.TextPositions.{len-append}
use aria.Prelude.Tests.{Bool-cases}
use aria.Prelude.Keys.{Others}

module _ {ℓ} {A : Type ℓ} (key : A → String) where
  abbrev pub longest : List A → String
  longest [] = "k"
  longest (r ∷ t) = longest t ++ key r

  longest-pos : (t : List A) → 1 ≤ len (longest t)
  longest-pos [] = omega arith
  longest-pos (r ∷ t) = rw (len-append (longest t) (key r)) (omega (arith, longest-pos t))

  shorter-differs : (a b : String) → len a < len b → (a == b) ≡ false
  shorter-differs a b h = elim (Bool-cases (a == b)) [
    | inl e ↦ let same = ap len ((eq_iff a b).0 e) in absurd (omega (arith, same, h))
    | inr e ↦ e
  ]

  Others-longer : (k : String) (t : List A) → len (longest t) ≤ len k → Others key k t
  Others-longer k [] h = tt
  Others-longer k (r ∷ t) h =
      let whole = len-append (longest t) (key r) in
      (
        shorter-differs (key r) k (omega (arith, whole, h, longest-pos t)),
        Others-longer k t (omega (arith, whole, h)),
      )

  pub longest-Others : (t : List A) → Others key (longest t) t
  longest-Others t = Others-longer (longest t) t (omega arith)
