-- ===== src/Prelude/Rows.antt =====
-- A table as the list of its rows, oldest first, and what SQL statements do to it.
use Prim.Native.Nat.{ℕ, zero, suc, ◌+◌}
use mathlib.Core.Path.{◌≡◌, refl, ap, subst}
use mathlib.Core.Logic.{inl, inr}
use mathlib.Core.Bool.{Bool, true, false}
use mathlib.Core.Option.{Option, none, some}
use mathlib.Core.List.{List, [], ◌∷◌, ◌++◌}
use native.Mathlib.Omega.{arith}
use aria.Prelude.Tests.{if◌then◌else◌, Bool-cases}

module _ {ℓ} {A : Type ℓ} where
  abbrev pub length : List A → ℕ
  length [] = 0
  length (x ∷ xs) = suc (length xs)

  -- WHERE
  abbrev pub rows_where : (A → Bool) → List A → List A
  rows_where p [] = []
  rows_where p (r ∷ t) = let rest = rows_where p t in if p r then r ∷ rest else rest

  -- UPDATE ... SET f WHERE p
  abbrev pub update_where : (A → Bool) → (A → A) → List A → List A
  update_where p f [] = []
  update_where p f (r ∷ t) = (if p r then f r else r) ∷ update_where p f t

  -- DELETE ... WHERE p
  abbrev pub delete_where : (A → Bool) → List A → List A
  delete_where p [] = []
  delete_where p (r ∷ t) = let rest = delete_where p t in if p r then rest else r ∷ rest

  -- SELECT COUNT(*) ... WHERE p, and the rows that an UPDATE or DELETE affects
  abbrev pub count_where : (A → Bool) → List A → ℕ
  count_where p [] = 0
  count_where p (r ∷ t) = let n = count_where p t in if p r then suc n else n

  -- the first row that fits
  abbrev pub find_where : (A → Bool) → List A → Option A
  find_where p [] = none
  find_where p (r ∷ t) = if p r then some r else find_where p t

  -- ORDER BY ... LIMIT 1 of the rows that fit: `before a b` when a comes strictly before b
  abbrev pub pick : (A → A → Bool) → A → Option A → Option A
  pick before r none = some r
  pick before r (some b) = if before b r then some b else some r

  abbrev pub first_where : (A → A → Bool) → (A → Bool) → List A → Option A
  first_where before p [] = none
  first_where before p (r ∷ t) =
      let best = first_where before p t in if p r then pick before r best else best

  abbrev pub insert_row : (A → A → Bool) → A → List A → List A
  insert_row before r [] = r ∷ []
  insert_row before r (s ∷ t) =
      let rest = insert_row before r t in if before s r then s ∷ rest else r ∷ s ∷ t

  -- ORDER BY
  abbrev pub order_by : (A → A → Bool) → List A → List A
  order_by before [] = []
  order_by before (r ∷ t) = insert_row before r (order_by before t)

  -- LIMIT n
  abbrev pub take : ℕ → List A → List A
  take zero t = []
  take (suc n) [] = []
  take (suc n) (r ∷ t) = r ∷ take n t

  -- every row has P
  abbrev pub All {κ} : (A → Type κ) → List A → Type κ
  All P [] = Unit
  All P (x ∷ xs) = P x × All P xs

  -- the row stands in the table
  pub data Row (r : A) : List A → Type ℓ where
    here : {s : A} {t : List A} → s ≡ r → Row r (s ∷ t)
    there : {s : A} {t : List A} → Row r t → Row r (s ∷ t)

suc_ne_zero : (n : ℕ) → suc n ≡ 0 → ⊥
suc_ne_zero n h = omega arith

module _ {ℓ} {A : Type ℓ} where
  pub find_where-some :
      (p : A → Bool) (t : List A) {r : A} → find_where p t ≡ some r → Row r t × (p r ≡ true)
  find_where-some p [] h = cc
  find_where-some p (s ∷ t) {r} h = elim (Bool-cases (p s)) [
    | inl e ↦ let same : s ≡ r = cc (rw e at h) in (Row.here same, subst (λ x. p x ≡ true) same e)
    | inr e ↦ let (m, q) = find_where-some p t (rw e at h) in (Row.there m, q)
  ]

  -- a row that fits is found, perhaps another one
  pub find_where-none :
      (p : A → Bool) (t : List A) {r : A} → find_where p t ≡ none → Row r t → p r ≡ false
  find_where-none p [] h m = elim m [ ]
  find_where-none p (s ∷ t) {r} h (here same) = elim (Bool-cases (p s)) [
    | inl e ↦ cc (rw e at h)
    | inr e ↦ subst (λ x. p x ≡ false) same e
  ]
  find_where-none p (s ∷ t) h (there m) = elim (Bool-cases (p s)) [
    | inl e ↦ cc (rw e at h)
    | inr e ↦ find_where-none p t (rw e at h) m
  ]

  pub count_where-zero :
      (p : A → Bool) (f : A → A) (t : List A) → count_where p t ≡ 0 → update_where p f t ≡ t
  count_where-zero p f [] h = refl
  count_where-zero p f (r ∷ t) h = elim (Bool-cases (p r)) [
    | inl e ↦ absurd (suc_ne_zero _ (rw e at h))
    | inr e ↦ rw e (ap (λ u. r ∷ u) (count_where-zero p f t (rw e at h)))
  ]

  pub All-update_where {κ} :
      (P : A → Type κ) (p : A → Bool) (f : A → A)
      → ((r : A) → p r ≡ true → P r → P (f r))
      → (t : List A) → All P t
      → All P (update_where p f t)
  All-update_where P p f step [] h = tt
  All-update_where P p f step (r ∷ t) h = elim (Bool-cases (p r)) [
    | inl e ↦ rw e (step r e h.0, All-update_where P p f step t h.1)
    | inr e ↦ rw e (h.0, All-update_where P p f step t h.1)
  ]

  pub All-delete_where {κ} :
      (P : A → Type κ) (p : A → Bool) (t : List A) → All P t → All P (delete_where p t)
  All-delete_where P p [] h = tt
  All-delete_where P p (r ∷ t) h = elim (Bool-cases (p r)) [
    | inl e ↦ rw e (All-delete_where P p t h.1)
    | inr e ↦ rw e (h.0, All-delete_where P p t h.1)
  ]

  -- after an update that makes every row it touches unfit, no row fits
  pub count_where-update_where :
      (p q : A → Bool) (f : A → A)
      → ((r : A) → p r ≡ true → q (f r) ≡ false)
      → ((r : A) → p r ≡ false → q r ≡ false)
      → (t : List A) → count_where q (update_where p f t) ≡ 0
  count_where-update_where p q f hit miss [] = refl
  count_where-update_where p q f hit miss (r ∷ t) = elim (Bool-cases (p r)) [
    | inl e ↦ rw (e, hit r e) (count_where-update_where p q f hit miss t)
    | inr e ↦ rw (e, miss r e) (count_where-update_where p q f hit miss t)
  ]

  pub All-Row {κ} : (P : A → Type κ) {r : A} {t : List A} → Row r t → All P t → P r
  All-Row P (here same) h = subst P same h.0
  All-Row P (there m) h = All-Row P m h.1

  pub count_where-missing :
      (p : A → Bool) (t : List A) → find_where p t ≡ none → count_where p t ≡ 0
  count_where-missing p [] h = refl
  count_where-missing p (r ∷ t) h = elim (Bool-cases (p r)) [
    | inl e ↦ cc (rw e at h)
    | inr e ↦ rw e (count_where-missing p t (rw e at h))
  ]

  -- an update of rows that a test leaves out, before and after, is not seen through the test
  pub rows_where-update_where :
      (q p : A → Bool) (f : A → A)
      → ((r : A) → p r ≡ true → (q r ≡ false) × (q (f r) ≡ false))
      → (t : List A) → rows_where q (update_where p f t) ≡ rows_where q t
  rows_where-update_where q p f out [] = refl
  rows_where-update_where q p f out (r ∷ t) = elim (Bool-cases (p r)) [
    | inl e ↦ rw (e, (out r e).0, (out r e).1) (rows_where-update_where q p f out t)
    | inr e ↦ elim (Bool-cases (q r)) [
      | inl g ↦ rw (e, g) (ap (λ u. r ∷ u) (rows_where-update_where q p f out t))
      | inr g ↦ rw (e, g) (rows_where-update_where q p f out t)
    ]
  ]

  pub count_where-append :
      (p : A → Bool) (t : List A) (a : A)
      → count_where p (t ++ a ∷ []) ≡ count_where p t + (if p a then 1 else 0)
  count_where-append p [] a = elim (Bool-cases (p a)) [ inl e ↦ rw e | inr e ↦ rw e ]
  count_where-append p (r ∷ t) a = elim (Bool-cases (p r)) [
    | inl e ↦ rw (e, count_where-append p t a) (omega arith)
    | inr e ↦ rw (e, count_where-append p t a)
  ]
