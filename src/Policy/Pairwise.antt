-- ===== src/Policy/Pairwise.antt =====
-- pkg/controllerstorage/network_policy.go, internal/api/v2/ip_groups.go: rules that stand beside each other, for
-- any kind of rule with an identifier, a flag and a test of two rules.
use aria.Prelude.{
  ℕ, Bool, false, List, [], ◌∷◌, ◌&&◌, not, ◌==◌, ◌≡◌, ◌↔◌, All, rows_where, Bool-cases, inl, inr,
  arith,
}
use aria.Policy.Conflict.{any, is_skipped}

module _ {A : Type 0} where
  pub All-map : {P Q : A → Type 0} → ((x : A) → P x → Q x) → (xs : List A) → All P xs → All Q xs
  All-map f [] h = tt
  All-map f (x ∷ xs) h = (f x h.0, All-map f xs h.1)

  All-both :
      {P Q R : A → Type 0}
      → ((x : A) → P x → Q x → R x)
      → (xs : List A) → All P xs
      → All Q xs
      → All R xs
  All-both f [] h k = tt
  All-both f (x ∷ xs) h k = (f x h.0 k.0, All-both f xs h.1 k.1)

  All-rows_where :
      (P : A → Type 0) (keep : A → Bool) (xs : List A) → All P xs → All P (rows_where keep xs)
  All-rows_where P keep [] h = tt
  All-rows_where P keep (x ∷ xs) h = elim (Bool-cases (keep x)) [
    | inl e ↦ rw e (h.0, All-rows_where P keep xs h.1)
    | inr e ↦ rw e (All-rows_where P keep xs h.1)
  ]

module _ {A : Type 0} (ident : A → ℕ) (enabled : A → Bool) (conflicts : A → A → Bool) where
  -- both rules are on and conflict
  abbrev pub clash : A → A → Bool
  clash r s = enabled r && (enabled s && conflicts r s)

  -- no two rules of the list clash
  abbrev pub NoClash : List A → Type 0
  NoClash [] = Unit
  NoClash (r ∷ rs) = All (λ s. clash r s ≡ false) rs × NoClash rs

  -- the rules beside the one that a request replaces
  abbrev pub beside : ℕ → List A → List A
  beside id = rows_where (λ r. not (not (id == 0) && ident r == id))

  -- identifiers are set and differ
  abbrev pub HasOwnIds : List A → Type 0
  HasOwnIds [] = Unit
  HasOwnIds (r ∷ rs) =
      ((ident r == 0) ≡ false) × All (λ s. (ident s == ident r) ≡ false) rs × HasOwnIds rs

  -- what the check of a candidate c comes to
  abbrev pub stops : ℕ → A → A → Bool
  stops id c r = not (is_skipped (enabled r) (ident r) id) && conflicts r c

  abbrev pub detects : List A → A → ℕ → Bool
  detects xs c id = enabled c && any (stops id c) xs

  module _ (comm : (r s : A) → conflicts r s ≡ conflicts s r) where
    NoClash-rows_where : (keep : A → Bool) (xs : List A) → NoClash xs → NoClash (rows_where keep xs)
    NoClash-rows_where keep [] h = tt
    NoClash-rows_where keep (x ∷ xs) h = elim (Bool-cases (keep x)) [
      | inl e ↦
          rw e (All-rows_where (λ s. clash x s ≡ false) keep xs h.0, NoClash-rows_where keep xs h.1)
      | inr e ↦ rw e (NoClash-rows_where keep xs h.1)
    ]

    -- the check of c, rule by rule
    detects-All :
        (c : A) (id : ℕ) (xs : List A)
        → detects xs c id ≡ false
        → All (λ s. (enabled c && stops id c s) ≡ false) xs
    detects-All c id [] h = tt
    detects-All c id (x ∷ xs) h = (ground (arith, h), detects-All c id xs (ground (arith, h)))

    All-detects :
        (c : A) (id : ℕ) (xs : List A)
        → All (λ s. (enabled c && stops id c s) ≡ false) xs
        → detects xs c id ≡ false
    All-detects c id [] h = ground arith
    All-detects c id (x ∷ xs) h = ground (arith, h.0, All-detects c id xs h.1)

    stops-clash :
        (c : A) (id : ℕ) (xs : List A)
        → All (λ s. (enabled c && stops id c s) ≡ false) xs
        → All (λ s. clash c s ≡ false) (beside id xs)
    stops-clash c id [] h = tt
    stops-clash c id (x ∷ xs) h = elim (Bool-cases (not (id == 0) && ident x == id)) [
      | inl e ↦ rw e (stops-clash c id xs h.1)
      | inr e ↦ rw e (ground (arith, h.0, comm x c), stops-clash c id xs h.1)
    ]

    pub NoClash-beside :
        (c : A) (id : ℕ) (xs : List A)
        → NoClash xs
        → detects xs c id ≡ false
        → NoClash (c ∷ beside id xs)
    NoClash-beside c id xs h k = (
      stops-clash c id xs (detects-All c id xs k),
      NoClash-rows_where (λ r. not (not (id == 0) && ident r == id)) xs h,
    )

    detects-NoClash :
        (xs : List A) → HasOwnIds xs → All (λ c. detects xs c (ident c) ≡ false) xs → NoClash xs
    detects-NoClash [] h k = tt
    detects-NoClash (r ∷ rs) h k = (
      All-both (λ s d n. ground (arith, d, n, comm s r)) rs h.1
          (detects-All r (ident r) rs (ground (arith, k.0))),
      detects-NoClash rs h.2 (All-map (λ c e. ground (arith, e)) rs k.1),
    )

    NoClash-detects :
        (xs : List A) → HasOwnIds xs → NoClash xs → All (λ c. detects xs c (ident c) ≡ false) xs
    NoClash-detects [] h k = tt
    NoClash-detects (r ∷ rs) h k = (
      All-detects r (ident r) (r ∷ rs)
          (ground (arith, h.0), All-both (λ s d n. ground (arith, d, n, comm s r)) rs h.1 k.0),
      All-both (λ c n e. ground (arith, n, e)) rs k.0 (NoClash-detects rs h.2 k.1),
    )

    pub detects-iff-NoClash :
        (xs : List A) → HasOwnIds xs → All (λ c. detects xs c (ident c) ≡ false) xs ↔ NoClash xs
    detects-iff-NoClash xs h = (detects-NoClash xs h, NoClash-detects xs h)
