-- ===== src/Prelude/First.antt =====
-- What ORDER BY ... LIMIT 1 finds.
use mathlib.Core.Path.{◌≡◌, refl, ap, subst}
use mathlib.Core.Logic.{inl, inr}
use mathlib.Core.Bool.{Bool, true, false}
use mathlib.Core.Option.{Option, none, some}
use mathlib.Core.List.{List, [], ◌∷◌}
use aria.Prelude.Tests.{Bool-cases}
use aria.Prelude.Rows.{All, Row, first_where, pick}

module _ {ℓ} {A : Type ℓ} where
  pub first_where-none :
      (before : A → A → Bool) (p : A → Bool) (t : List A)
      → first_where before p t ≡ none
      → All (λ r. p r ≡ false) t
  first_where-none before p [] h = tt
  first_where-none before p (s ∷ t) h = elim (Bool-cases (p s)) [
    | inl e ↦ picked (first_where before p t) (rw e at h)
    | inr e ↦ (e, first_where-none before p t (rw e at h))
  ]
    where
      picked : (best : Option A) → pick before s best ≡ none → All (λ r. p r ≡ false) (s ∷ t)
      picked none h = cc h
      picked (some b) h = elim (Bool-cases (before b s)) [
        | inl u ↦ cc (rw u at h)
        | inr u ↦ cc (rw u at h)
      ]

  pub first_where-some :
      (before : A → A → Bool) (p : A → Bool) (t : List A) {r : A}
      → first_where before p t ≡ some r
      → Row r t × (p r ≡ true)
  first_where-some before p [] h = cc
  first_where-some before p (s ∷ t) {r} h = elim (Bool-cases (p s)) [
    | inl e ↦ picked e (first_where before p t) (λ g. first_where-some before p t g) (rw e at h)
    | inr e ↦ let (m, q) = first_where-some before p t (rw e at h) in (Row.there m, q)
  ]
    where
      picked :
          p s ≡ true
          → (best : Option A) → (best ≡ some r → Row r t × (p r ≡ true))
          → pick before s best ≡ some r
          → Row r (s ∷ t) × (p r ≡ true)
      picked e none g h = let same : s ≡ r = cc h in (Row.here same, subst (λ x. p x ≡ true) same e)
      picked e (some b) g h = elim (Bool-cases (before b s)) [
        | inl u ↦
            let same : b ≡ r = cc (rw u at h) in let (m, q) = g (ap some same) in (Row.there m, q)
        | inr u ↦
            let same : s ≡ r = cc (rw u at h) in (Row.here same, subst (λ x. p x ≡ true) same e)
      ]

  -- the first row that fits comes after no row that fits, when `before` orders the rows weakly
  pub first_where-first :
      (before : A → A → Bool) (p : A → Bool)
      → ((a : A) → before a a ≡ false)
      → ((a b : A) → before a b ≡ true → before b a ≡ false)
      → ((a b c : A) → before a b ≡ false → before b c ≡ false → before a c ≡ false)
      → (t : List A) {r : A} → first_where before p t ≡ some r
      → All (λ s. p s ≡ true → before s r ≡ false) t
  first_where-first before p irr asym neg [] h = tt
  first_where-first before p irr asym neg (s ∷ t) {r} h = elim (Bool-cases (p s)) [
    | inl e ↦
        picked e (first_where before p t) (λ g. first_where-none before p t g)
          (λ b g. first_where-first before p irr asym neg t g) (rw e at h)
    | inr e ↦ (λ g. cc (g, e), first_where-first before p irr asym neg t (rw e at h))
  ]
    where
      All-map :
          (b : A)
          → before b s ≡ false
          → (u : List A) → All (λ x. p x ≡ true → before x b ≡ false) u
          → All (λ x. p x ≡ true → before x s ≡ false) u
      All-map b g [] k = tt
      All-map b g (x ∷ u) k = (λ q. neg x b s (k.0 q) g, All-map b g u k.1)

      picked :
          p s ≡ true
          → (best : Option A) → (best ≡ none → All (λ x. p x ≡ false) t)
          → ((b : A) → best ≡ some b → All (λ x. p x ≡ true → before x b ≡ false) t)
          → pick before s best ≡ some r
          → All (λ x. p x ≡ true → before x r ≡ false) (s ∷ t)
      picked e none gn gs h =
          let same : s ≡ r = cc h in
          (λ q. subst (λ x. before s x ≡ false) same (irr s), Missing t (gn refl))
        where
          Missing :
              (u : List A) → All (λ x. p x ≡ false) u → All (λ x. p x ≡ true → before x r ≡ false) u
          Missing [] k = tt
          Missing (x ∷ u) k = (λ q. cc (q, k.0), Missing u k.1)
      picked e (some b) gn gs h = elim (Bool-cases (before b s)) [
        | inl u ↦
            let same : b ≡ r = cc (rw u at h) in
            subst (λ x. All (λ y. p y ≡ true → before y x ≡ false) (s ∷ t)) same
              (λ q. asym b s u, gs b refl)
        | inr u ↦
            let same : s ≡ r = cc (rw u at h) in
            subst (λ x. All (λ y. p y ≡ true → before y x ≡ false) (s ∷ t)) same
              (λ q. irr s, All-map b u t (gs b refl))
      ]
