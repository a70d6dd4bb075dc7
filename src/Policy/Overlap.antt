-- ===== src/Policy/Overlap.antt =====
-- pkg/controllerstorage/network_policy.go: address prefixes as sets of addresses.
use aria.Prelude.{
  ℕ, zero, suc, Bool, true, ◌≡◌, refl, sym, ap, ◌∙◌, ◌↔◌, ==_iff, ◌+◌, ◌-◌, ◌*◌, ◌/◌, ◌^◌, ◌≤◌, leb,
  Bool-cases, inl, inr, arith,
}
use aria.Policy.Prefix.{
  Prefix, Addr, width, block, same_family, contains, address, prefix_contains, prefixes_overlap,
}
use native.Mathlib.Nat.{div-div-eq-div-mul, pow-suc, mul_assoc}

-- a prefix is no longer than the addresses of its family
abbrev pub IsPrefix : Prefix → Type 0
IsPrefix p = p.bits ≤ width p.is4

pow_add : (m n : ℕ) → 2 ^ (m + n) ≡ 2 ^ m * 2 ^ n
pow_add m zero =
    let e : m + 0 ≡ m = omega arith in
    let g : 2 ^ m ≡ 2 ^ m * 1 = omega arith in ap (λ n. 2 ^ n) e ∙ g
pow_add m (suc n) =
    let e : m + suc n ≡ suc (m + n) = omega arith in
    ap (λ k. 2 ^ k) e
    ∙ pow-suc 2 (m + n)
    ∙ ap (λ k. k * 2) (pow_add m n)
    ∙ mul_assoc (2 ^ m) (2 ^ n) 2
    ∙ ap (λ k. 2 ^ m * k) (sym (pow-suc 2 n))

block-split :
    (p q : Prefix)
    → p.is4 ≡ q.is4
    → p.bits ≤ q.bits
    → IsPrefix q
    → block p ≡ block q * 2 ^ (q.bits - p.bits)
block-split p q e h k =
    let g : width q.is4 - p.bits ≡ (width q.is4 - q.bits) + (q.bits - p.bits) =
      omega (arith, h, k) in
    ap (λ b. 2 ^ (width b - p.bits)) e
    ∙ ap (λ n. 2 ^ n) g
    ∙ pow_add (width q.is4 - q.bits) (q.bits - p.bits)

quotient-block :
    (p q : Prefix)
    → p.is4 ≡ q.is4
    → p.bits ≤ q.bits
    → IsPrefix q
    → (v : ℕ) → v / block p ≡ v / block q / 2 ^ (q.bits - p.bits)
quotient-block p q e h k v =
    ap (λ n. v / n) (block-split p q e h k)
    ∙ sym (div-div-eq-div-mul v (block q) (2 ^ (q.bits - p.bits)))

same_family_refl : (b : Bool) → same_family b b ≡ true
same_family_refl b = ground arith

contains-parts :
    (p : Prefix) (a : Addr)
    → contains p a ≡ true
    → (p.is4 ≡ a.is4) × (a.value / block p ≡ p.addr / block p)
contains-parts p a h =
    (ground (arith, h), (==_iff (a.value / block p) (p.addr / block p)).0 (ground (arith, h)))

contains-made :
    (p : Prefix) (a : Addr)
    → p.is4 ≡ a.is4
    → a.value / block p ≡ p.addr / block p
    → contains p a ≡ true
contains-made p a e h =
    let f : same_family p.is4 a.is4 ≡ true =
      ap (λ b. same_family p.is4 b) (sym e) ∙ same_family_refl p.is4 in
    ground (arith, f, (==_iff (a.value / block p) (p.addr / block p)).1 h)

prefix_contains-made :
    (p q : Prefix) (a : Addr)
    → IsPrefix q
    → p.bits ≤ q.bits
    → contains p a ≡ true
    → contains q a ≡ true
    → prefix_contains p q ≡ true
unfolding prefix_contains
prefix_contains-made p q a k h x y =
    let (e, u) = contains-parts p a x in
    let (g, v) = contains-parts q a y in
    let f : p.is4 ≡ q.is4 = e ∙ sym g in
    let same =
      quotient-block p q f h k q.addr
      ∙ ap (λ n. n / 2 ^ (q.bits - p.bits)) (sym v)
      ∙ sym (quotient-block p q f h k a.value)
      ∙ u in
    ground (arith, contains-made p (address q) f same, h)

-- Two prefixes no longer than the addresses of their families overlap exactly when some address lies in both.
pub prefixes_overlap_iff :
    (p q : Prefix)
    → IsPrefix p
    → IsPrefix q
    → (prefixes_overlap p q ≡ true) ↔ ((a : Addr) × (contains p a ≡ true) × (contains q a ≡ true))
unfolding prefixes_overlap prefix_contains
prefixes_overlap_iff p q h k = (there, back)
  where
    own : (r : Prefix) → contains r (address r) ≡ true
    own r = contains-made r (address r) refl refl

    there : prefixes_overlap p q ≡ true → (a : Addr) × (contains p a ≡ true) × (contains q a ≡ true)
    there e = elim (Bool-cases (prefix_contains p q)) [
      | inl g ↦ (address q, ground (arith, g), own q)
      | inr g ↦ (address p, own p, ground (arith, e, g))
    ]

    back : (a : Addr) × (contains p a ≡ true) × (contains q a ≡ true) → prefixes_overlap p q ≡ true
    back (a, x, y) = elim (Bool-cases (leb p.bits q.bits)) [
      | inl g ↦ ground (arith, prefix_contains-made p q a k (ground (arith, g)) x y)
      | inr g ↦ ground (arith, prefix_contains-made q p a h (ground (arith, g)) y x)
    ]
