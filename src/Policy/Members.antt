-- ===== src/Policy/Members.antt =====
-- pkg/controllerstorage/ip_groups.go: each address of a group is there once.
use aria.Prelude.{
  ℕ, suc, String, Bool, true, false, List, [], ◌∷◌, ◌≡◌, refl, ap, sym, ◌∙◌, subst, inl, inr,
  str_eq, eq_iff, if◌then◌else◌, Bool-cases, count_where, order_by, insert_row,
}
use aria.Sql.{Result, ok, err}
use aria.Policy.{IpGroupMember}
use aria.Policy.Prefix.{Prefix, Netip}
use aria.Policy.Conflict.{any}
use aria.Policy.Groups.{
  has_text, then_ok, member_before, normalize_cidr, collect_members, normalize_ip_group_members,
}

count_where-insert_row :
    {A : Type 0} (p : A → Bool) (before : A → A → Bool) (x : A) (xs : List A)
    → count_where p (insert_row before x xs)
      ≡ (if p x then suc (count_where p xs) else count_where p xs)
count_where-insert_row p before x [] = refl
count_where-insert_row p before x (y ∷ ys) = elim (Bool-cases (before y x)) [
  | inl e ↦ rw (e, count_where-insert_row p before x ys) (both (p y) (p x) (count_where p ys))
  | inr e ↦ rw e refl
]
  where
    both :
        (b c : Bool) (n : ℕ)
        → (if b then suc (if c then suc n else n) else if c then suc n else n)
          ≡ (if c then suc (if b then suc n else n) else if b then suc n else n)
    both true true n = refl
    both true false n = refl
    both false true n = refl
    both false false n = refl

count_where-order_by :
    {A : Type 0} (p : A → Bool) (before : A → A → Bool) (xs : List A)
    → count_where p (order_by before xs) ≡ count_where p xs
count_where-order_by p before [] = refl
count_where-order_by p before (x ∷ xs) =
    count_where-insert_row p before x (order_by before xs)
    ∙ rw (count_where-order_by p before xs) refl

abbrev pub is_cidr : String → IpGroupMember → Bool
is_cidr text m = str_eq m.cidr text

then_ok-inverse :
    {A B : Type 0} (m : Result A) (f : A → Result B) (b : B)
    → then_ok m f ≡ ok b
    → (a : A) × (m ≡ ok a) × (f a ≡ ok b)
then_ok-inverse (ok a) f b h = (a, refl, h)
then_ok-inverse (err e) f b h = cc h

value_of : {A : Type 0} {a b : A} → Path (Result A) (ok a) (ok b) → a ≡ b
value_of h = cc h

-- the text is the normal form of this address
abbrev pub gives : String → Result String → Bool
gives text (err e) = false
gives text (ok t) = str_eq t text

module _ (ip : Netip) (prefix_string : Prefix → String) (text : String) where
  abbrev pub given : List IpGroupMember → Bool
  given = any (λ (m : IpGroupMember). gives text (normalize_cidr ip prefix_string m.cidr))

  -- how often the text comes out, by whether it was seen before and whether it is given
  abbrev times : Bool → Bool → ℕ
  times true g = 0
  times false true = 1
  times false false = 0

  -- a new member, and an old one
  new_member :
      (seen : List String) (c : String) (g : Bool) (n : ℕ)
      → has_text c seen ≡ false
      → n ≡ times (has_text text (c ∷ seen)) g
      → (if str_eq c text then suc n else n)
        ≡ times (has_text text seen) (if str_eq c text then true else g)
  new_member seen c g n e k = elim (Bool-cases (str_eq c text)) [
    | inl same ↦
        let unseen : has_text text seen ≡ false =
          subst (λ t. has_text t seen ≡ false) ((eq_iff c text).0 same) e in
        rw (same, unseen) (ap suc (rw same at k))
    | inr other ↦ rw other (rw other at k)
  ]

  old_member :
      (seen : List String) (c : String) (g : Bool) (n : ℕ)
      → has_text c seen ≡ true
      → n ≡ times (has_text text seen) g
      → n ≡ times (has_text text seen) (if str_eq c text then true else g)
  old_member seen c g n e k = elim (Bool-cases (str_eq c text)) [
    | inl same ↦
        let here : has_text text seen ≡ true =
          subst (λ t. has_text t seen ≡ true) ((eq_iff c text).0 same) e in
        rw here (rw here at k)
    | inr other ↦ rw other k
  ]

  never : (b : Bool) → times b false ≡ 0
  never true = refl
  never false = refl

  collect_members-count :
      (seen : List String) (ms out : List IpGroupMember)
      → collect_members ip prefix_string seen ms ≡ ok out
      → count_where (is_cidr text) out ≡ times (has_text text seen) (given ms)
  unfolding collect_members
  collect_members-count seen [] out h =
      ap (count_where (is_cidr text)) (sym (value_of h)) ∙ sym (never (has_text text seen))
  collect_members-count seen (m ∷ ms) out h =
      let (c, normal, h1) = then_ok-inverse (normalize_cidr ip prefix_string m.cidr) _ out h in
      let (rest, others, h2) =
        then_ok-inverse
          (collect_members ip prefix_string (if has_text c seen then seen else c ∷ seen) ms) _ out
          h1 in
      rw normal (elim (Bool-cases (has_text c seen)) [
        | inl e ↦
            ap (count_where (is_cidr text)) (sym (value_of (rw e at h2)))
            ∙ old_member seen c (given ms) (count_where (is_cidr text) rest) e
                (collect_members-count seen ms rest (rw e at others))
        | inr e ↦
            ap (count_where (is_cidr text)) (sym (value_of (rw e at h2)))
            ∙ new_member seen c (given ms) (count_where (is_cidr text) rest) e
                (collect_members-count (c ∷ seen) ms rest (rw e at others))
      ])

  -- When the members of a group are accepted, a text stands once among the addresses of the result if it is the
  -- normal form of a given address, and else not at all.
  pub normalize_ip_group_members-count :
      (ms out : List IpGroupMember)
      → normalize_ip_group_members ip prefix_string ms ≡ ok out
      → count_where (is_cidr text) out ≡ (if given ms then 1 else 0)
  unfolding normalize_ip_group_members
  normalize_ip_group_members-count ms out h =
      let (kept, first, last) = then_ok-inverse (collect_members ip prefix_string [] ms) _ out h in
      ap (count_where (is_cidr text)) (sym (value_of last))
      ∙ count_where-order_by (is_cidr text) member_before kept
      ∙ collect_members-count [] ms kept first
      ∙ once (given ms)
    where
      once : (b : Bool) → times false b ≡ (if b then 1 else 0)
      once true = refl
      once false = refl
