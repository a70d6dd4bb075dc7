-- ===== src/Prelude/Int.antt =====
-- Signed integers over the native numbers: Go's `int` and PostgreSQL's `integer`, without the bound
-- of the word. `negsuc n` is -(n + 1).
use Prim.Native.Nat.{ℕ, suc, ◌+◌, ◌-◌, ◌≤◌, ◌<◌}
use mathlib.Core.Path.{◌≡◌}
use mathlib.Core.Bool.{Bool}
use native.Mathlib.Omega.{arith}
use aria.Prelude.Tests.{leb, ltb, if◌then◌else◌}

pub data ℤ : Type 0 where
  pos : ℕ → ℤ
  negsuc : ℕ → ℤ

abbrev pub pos_part : ℤ → ℕ
pos_part (pos n) = n
pos_part (negsuc n) = 0

abbrev pub neg_part : ℤ → ℕ
neg_part (pos n) = 0
neg_part (negsuc n) = suc n

-- a - b, as an integer
abbrev pub sub_ℕ : ℕ → ℕ → ℤ
sub_ℕ a b = if leb b a then pos (a - b) else negsuc (b - a - 1)

infixl 65 ◌+ℤ◌ ◌-ℤ◌
abbrev pub ◌+ℤ◌ : ℤ → ℤ → ℤ
a +ℤ b = sub_ℕ (pos_part a + pos_part b) (neg_part a + neg_part b)

abbrev pub ◌-ℤ◌ : ℤ → ℤ → ℤ
a -ℤ b = sub_ℕ (pos_part a + neg_part b) (neg_part a + pos_part b)

infix 50 ◌≤ℤ◌ ◌<ℤ◌
abbrev pub ◌≤ℤ◌ : ℤ → ℤ → Type 0
a ≤ℤ b = pos_part a + neg_part b ≤ pos_part b + neg_part a

abbrev pub ◌<ℤ◌ : ℤ → ℤ → Type 0
a <ℤ b = pos_part a + neg_part b < pos_part b + neg_part a

-- the tests a < b and a <= b
abbrev pub ltzb : ℤ → ℤ → Bool
ltzb a b = ltb (pos_part a + neg_part b) (pos_part b + neg_part a)

abbrev pub lezb : ℤ → ℤ → Bool
lezb a b = leb (pos_part a + neg_part b) (pos_part b + neg_part a)

pub ltzb_irrefl : (a : ℤ) → ltzb a a ≡ Bool.false
ltzb_irrefl a = ground arith

-- a + n, through its parts
pub +ℤ_pos :
    (a : ℤ) (n : ℕ) → pos_part (a +ℤ pos n) + neg_part a ≡ neg_part (a +ℤ pos n) + pos_part a + n
+ℤ_pos (pos a) n = ground arith
+ℤ_pos (negsuc a) n = ground arith
