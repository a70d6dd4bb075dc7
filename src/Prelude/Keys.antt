-- ===== src/Prelude/Keys.antt =====
-- Tables with a unique text key.
use Prim.Native.Nat.{ℕ}
use Prim.Native.String.{String}
use mathlib.Core.Path.{◌≡◌, refl, subst}
use mathlib.Core.Logic.{inl, inr}
use mathlib.Core.Bool.{Bool, false, ◌&&◌}
use mathlib.Core.Option.{Option, none, some}
use mathlib.Core.List.{List, [], ◌∷◌}
use text.Mathlib.Text.{◌==◌ as str_eq}
use text.Mathlib.TextEquality.{eq_iff}
use aria.Prelude.Tests.{if◌then◌else◌, Bool-cases}
use aria.Prelude.Rows.{All, update_where, count_where, find_where}

abbrev pub one_if {ℓ} : {A : Type ℓ} → (A → Bool) → Option A → ℕ
one_if q none = 0
one_if q (some r) = if q r then 1 else 0

module _ {ℓ} {A : Type ℓ} (key : A → String) where
  abbrev pub has_key : String → A → Bool
  has_key k r = str_eq (key r) k

  -- no other row has the key of the row
  abbrev pub Others : String → List A → Type 0
  Others k = All (λ r. has_key k r ≡ false)

  abbrev pub Distinct : List A → Type 0
  Distinct [] = Unit
  Distinct (r ∷ t) = Others (key r) t × Distinct t

  pub count_where-Others :
      (k : String) (q : A → Bool) (t : List A)
      → Others k t
      → count_where (λ r. has_key k r && q r) t ≡ 0
  count_where-Others k q [] h = refl
  count_where-Others k q (r ∷ t) h = rw h.0 (count_where-Others k q t h.1)

  -- the rows with the key that pass a test: none, or the one row
  pub count_where-Distinct :
      (k : String) (q : A → Bool) (t : List A)
      → Distinct t
      → count_where (λ r. has_key k r && q r) t ≡ one_if q (find_where (has_key k) t)
  count_where-Distinct k q [] h = refl
  count_where-Distinct k q (r ∷ t) h = elim (Bool-cases (has_key k r)) [
    | inl e ↦
        let same : key r ≡ k = (eq_iff (key r) k).0 e in
        let none_left : count_where (λ u. has_key k u && q u) t ≡ 0 =
          count_where-Others k q t (subst (λ x. Others x t) same h.0) in
        rw (e, none_left)
    | inr e ↦ rw e (count_where-Distinct k q t h.1)
  ]

  pub Others-update_where :
      (k : String) (p : A → Bool) (f : A → A)
      → ((r : A) → key (f r) ≡ key r)
      → (t : List A) → Others k t
      → Others k (update_where p f t)
  Others-update_where k p f keep [] h = tt
  Others-update_where k p f keep (r ∷ t) h = elim (Bool-cases (p r)) [
    | inl e ↦ rw (e, keep r) (h.0, Others-update_where k p f keep t h.1)
    | inr e ↦ rw e (h.0, Others-update_where k p f keep t h.1)
  ]

  -- an update that leaves the key alone keeps the keys distinct
  pub Distinct-update_where :
      (p : A → Bool) (f : A → A)
      → ((r : A) → key (f r) ≡ key r)
      → (t : List A) → Distinct t
      → Distinct (update_where p f t)
  Distinct-update_where p f keep [] h = tt
  Distinct-update_where p f keep (r ∷ t) h = elim (Bool-cases (p r)) [
    | inl e ↦
        rw (e, keep r)
          (Others-update_where (key r) p f keep t h.0, Distinct-update_where p f keep t h.1)
    | inr e ↦
        rw e (Others-update_where (key r) p f keep t h.0, Distinct-update_where p f keep t h.1)
  ]

module _ {ℓ} {A : Type ℓ} where
  abbrev pub updated : (A → Bool) → (A → A) → Option A → Option A
  updated p f none = none
  updated p f (some r) = some (if p r then f r else r)

  -- a row found after an update is the row found before it, updated
  pub find_where-update_where :
      (q p : A → Bool) (f : A → A)
      → ((r : A) → q (f r) ≡ q r)
      → (t : List A) → find_where q (update_where p f t) ≡ updated p f (find_where q t)
  find_where-update_where q p f keep [] = refl
  find_where-update_where q p f keep (r ∷ t) = elim (Bool-cases (p r)) [
    | inl e ↦ elim (Bool-cases (q r)) [
      | inl g ↦ rw (e, keep r, g, e)
      | inr g ↦ rw (e, keep r, g) (find_where-update_where q p f keep t)
    ]
    | inr e ↦ elim (Bool-cases (q r)) [
      | inl g ↦ rw (e, g, e)
      | inr g ↦ rw (e, g) (find_where-update_where q p f keep t)
    ]
  ]
