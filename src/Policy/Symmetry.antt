-- ===== src/Policy/Symmetry.antt =====
-- pkg/controllerstorage/network_policy.go: the conflict of two rules does not depend on which of them is new.
use aria.Prelude.{
  String, ℤ, Bool, true, false, Option, none, some, List, [], ◌∷◌, ◌&&◌, ◌||◌, not, if◌then◌else◌,
  ◌≡◌, refl, ◌⊎◌, sym, ap, ◌∙◌, is_some, inl, inr, arith,
}
use aria.Policy.{QosRule, AclRule, eqzb}
use aria.Policy.Ports.{
  PortInterval, meet, meets_any, any_meet, policy_port_intervals, ports_overlap,
}
use aria.Policy.Prefix.{
  Prefix, Netip, CidrRelation, Target, anywhere, within, relation, same_family, prefixes_overlap,
  prefix_relation, target_relation, parse_policy_prefix, cidr_specificity_relation,
}
use aria.Policy.Conflict.{
  any, any_pair, same_runtime_key, overlap_at_priority, is_exact, is_ambiguous, directions_overlap,
  policy_directions, protocols_overlap, acl_source_cidrs, acl_destination_cidrs,
  acl_runtime_scope_conflicts, acl_addresses_ambiguous, acl_conflict, qos_policy_cidrs,
  qos_conflict,
}

-- the relation seen from the other side
flip : Option CidrRelation → Option CidrRelation
flip none = none
flip (some r) = some (relation r.existing_strict r.candidate_strict)

is_exact-flip : (r : Option CidrRelation) → is_exact (flip r) ≡ is_exact r
unfolding flip
is_exact-flip none = refl
is_exact-flip (some r) = ground arith

is_ambiguous-flip : (s d : Option CidrRelation) → is_ambiguous (flip s) (flip d) ≡ is_ambiguous s d
unfolding flip
is_ambiguous-flip none d = refl
is_ambiguous-flip (some s) none = refl
is_ambiguous-flip (some s) (some d) = ground arith

same_family_comm : (a b : Bool) → same_family a b ≡ same_family b a
same_family_comm a b = ground arith

prefix_relation-flip : (c e : Prefix) → prefix_relation e c ≡ flip (prefix_relation c e)
unfolding flip prefixes_overlap
prefix_relation-flip c e = ground (arith, same_family_comm c.is4 e.is4)

target_relation-flip : (c e : Option Target) → target_relation e c ≡ flip (target_relation c e)
unfolding flip
target_relation-flip none none = refl
target_relation-flip none (some e) = refl
target_relation-flip (some c) none = refl
target_relation-flip (some anywhere) (some anywhere) = refl
target_relation-flip (some anywhere) (some (within e)) = refl
target_relation-flip (some (within c)) (some anywhere) = refl
target_relation-flip (some (within c)) (some (within e)) = prefix_relation-flip c e

-- two nested loops in either order
any-or :
    {A : Type 0} (f g : A → Bool) (xs : List A) → any (λ x. f x || g x) xs ≡ any f xs || any g xs
any-or f g [] = refl
any-or f g (x ∷ xs) = rw (any-or f g xs) (ground arith)

any-never : {A : Type 0} (xs : List A) → any (λ x. false) xs ≡ false
any-never [] = refl
any-never (x ∷ xs) = any-never xs

any-cong : {A : Type 0} (f g : A → Bool) (xs : List A) → ((x : A) → f x ≡ g x) → any f xs ≡ any g xs
any-cong f g [] h = refl
any-cong f g (x ∷ xs) h = rw (h x, any-cong f g xs h) refl

any-swap :
    {A B : Type 0} (f : A → B → Bool) (xs : List A) (ys : List B)
    → any (λ x. any (f x) ys) xs ≡ any (λ y. any (λ x. f x y) xs) ys
any-swap f [] ys = sym (any-never ys)
any-swap f (x ∷ xs) ys =
    ground (arith, any-swap f xs ys)
    ∙ sym (any-or (f x) (λ y. any (λ x'. f x' y) xs) ys)
    ∙ any-cong (λ y. f x y || any (λ x'. f x' y) xs) (λ y. any (λ x'. f x' y) (x ∷ xs)) ys
        (λ y. ground arith)

IsKnownList : List String → Type 0
IsKnownList ds = (ds ≡ "egress" ∷ []) ⊎ ((ds ≡ "ingress" ∷ "egress" ∷ []) ⊎ (ds ≡ "ingress" ∷ []))

policy_directions-IsKnownList : (d : String) → IsKnownList (policy_directions d)
unfolding policy_directions IsKnownList
policy_directions-IsKnownList d = ground arith

directions_overlap_comm : (a b : String) → directions_overlap a b ≡ directions_overlap b a
unfolding directions_overlap IsKnownList
directions_overlap_comm a b = elim (policy_directions-IsKnownList a) [
  | inl e ↦ elim (policy_directions-IsKnownList b) [
    | inl g ↦ rw (e, g) refl
    | inr (inl g) ↦ rw (e, g) refl
    | inr (inr g) ↦ rw (e, g) refl
  ]
  | inr (inl e) ↦ elim (policy_directions-IsKnownList b) [
    | inl g ↦ rw (e, g) refl
    | inr (inl g) ↦ rw (e, g) refl
    | inr (inr g) ↦ rw (e, g) refl
  ]
  | inr (inr e) ↦ elim (policy_directions-IsKnownList b) [
    | inl g ↦ rw (e, g) refl
    | inr (inl g) ↦ rw (e, g) refl
    | inr (inr g) ↦ rw (e, g) refl
  ]
]

protocols_overlap_comm : (a b : ℤ) → protocols_overlap a b ≡ protocols_overlap b a
unfolding protocols_overlap
protocols_overlap_comm a b = ground arith

eqzb_comm : (a b : ℤ) → eqzb a b ≡ eqzb b a
eqzb_comm a b = ground arith

meet_comm : (a b : PortInterval) → meet a b ≡ meet b a
meet_comm a b = ground arith

meets_any_lem : (a : PortInterval) (bs : List PortInterval) → meets_any a bs ≡ any (meet a) bs
meets_any_lem a [] = refl
meets_any_lem a (b ∷ bs) = rw (meets_any_lem a bs) refl

any_meet_lem : (xs bs : List PortInterval) → any_meet xs bs ≡ any (λ a. any (meet a) bs) xs
any_meet_lem [] bs = refl
any_meet_lem (x ∷ xs) bs = rw (any_meet_lem xs bs, meets_any_lem x bs) refl

any_meet_comm : (xs bs : List PortInterval) → any_meet xs bs ≡ any_meet bs xs
any_meet_comm xs bs =
    any_meet_lem xs bs
    ∙ any-swap meet xs bs
    ∙ any-cong (λ b. any (λ a. meet a b) xs) (λ b. any (meet b) xs) bs
        (λ b. any-cong (λ a. meet a b) (meet b) xs (λ a. meet_comm a b))
    ∙ sym (any_meet_lem bs xs)

ports_overlap_comm :
    (a : String) (m : ℤ) (b : String) (n : ℤ) → ports_overlap a m b n ≡ ports_overlap b n a m
unfolding ports_overlap
ports_overlap_comm a m b n = any_meet_comm (policy_port_intervals a m) (policy_port_intervals b n)

-- which answer a chain of early returns gives
guards :
    {A : Type 0} (p d q t a : Bool) (x : A)
    → is_some (
        if not p
        then none
        else if not d
        then none
        else if not q
        then none
        else if not t
        then none
        else if a
        then some x
        else none)
      ≡ (p && (d && (q && (t && a))))
guards false d q t a x = refl
guards true false q t a x = refl
guards true true false t a x = refl
guards true true true false a x = refl
guards true true true true false x = refl
guards true true true true true x = refl

is_some-first :
    {A : Type 0} (b : Bool) (x : A) (o : Option A)
    → is_some (if b then some x else o) ≡ (b || is_some o)
is_some-first false x o = refl
is_some-first true x o = refl

module _ (ip : Netip) where
  specificity-flip :
      (c e : String) → cidr_specificity_relation ip e c ≡ flip (cidr_specificity_relation ip c e)
  unfolding cidr_specificity_relation
  specificity-flip c e = target_relation-flip (parse_policy_prefix ip c) (parse_policy_prefix ip e)

  -- a test that does not see the side gives the same for both orders
  any_pair_comm :
      (test other : Option CidrRelation → Bool)
      → ((r : Option CidrRelation) → other (flip r) ≡ test r)
      → (xs ys : List String) → any_pair ip other ys xs ≡ any_pair ip test xs ys
  any_pair_comm test other h xs ys =
      any-swap (λ y x. other (cidr_specificity_relation ip y x)) ys xs
      ∙ any-cong (λ x. any (λ y. other (cidr_specificity_relation ip y x)) ys)
          (λ x. any (λ y. test (cidr_specificity_relation ip x y)) ys) xs
          (λ x.
            any-cong (λ y. other (cidr_specificity_relation ip y x))
              (λ y. test (cidr_specificity_relation ip x y)) ys
              (λ y. rw (specificity-flip x y) (h (cidr_specificity_relation ip x y))))

  runtime_scope_comm :
      (r c : AclRule) → acl_runtime_scope_conflicts ip r c ≡ acl_runtime_scope_conflicts ip c r
  unfolding acl_runtime_scope_conflicts
  runtime_scope_comm r c =
      rw
        (
          directions_overlap_comm r.direction c.direction,
          protocols_overlap_comm r.protocol c.protocol,
          any_pair_comm
              (λ src.
                is_exact src
                && any_pair ip is_exact (acl_destination_cidrs r) (acl_destination_cidrs c))
              (λ src.
                is_exact src
                && any_pair ip is_exact (acl_destination_cidrs c) (acl_destination_cidrs r))
              (λ s.
                rw
                  (
                    is_exact-flip s,
                    any_pair_comm is_exact is_exact is_exact-flip (acl_destination_cidrs r)
                        (acl_destination_cidrs c),
                  )
                  refl)
              (acl_source_cidrs r) (acl_source_cidrs c),
        )
        refl

  addresses_comm : (r c : AclRule) → acl_addresses_ambiguous ip r c ≡ acl_addresses_ambiguous ip c r
  addresses_comm r c =
      any_pair_comm
        (λ src. any_pair ip (is_ambiguous src) (acl_destination_cidrs r) (acl_destination_cidrs c))
        (λ src. any_pair ip (is_ambiguous src) (acl_destination_cidrs c) (acl_destination_cidrs r))
        (λ s.
          any_pair_comm (is_ambiguous s) (is_ambiguous (flip s)) (is_ambiguous-flip s)
            (acl_destination_cidrs r) (acl_destination_cidrs c))
        (acl_source_cidrs r) (acl_source_cidrs c)

  acl_conflict_lem :
      (r c : AclRule)
      → is_some (acl_conflict ip r c) ≡ (
          acl_runtime_scope_conflicts ip r c
          || (eqzb r.priority c.priority
              && (directions_overlap r.direction c.direction
                  && (protocols_overlap r.protocol c.protocol
                      && (ports_overlap r.ports r.dst_port c.ports c.dst_port
                          && acl_addresses_ambiguous ip r c)))))
  unfolding acl_conflict
  acl_conflict_lem r c =
      is_some-first (acl_runtime_scope_conflicts ip r c) (same_runtime_key r.id) _
      ∙ ap (λ b. acl_runtime_scope_conflicts ip r c || b)
          (guards (eqzb r.priority c.priority) (directions_overlap r.direction c.direction)
            (protocols_overlap r.protocol c.protocol)
            (ports_overlap r.ports r.dst_port c.ports c.dst_port) (acl_addresses_ambiguous ip r c)
            (overlap_at_priority r.id c.priority))

  qos_conflict_lem :
      (r c : QosRule)
      → is_some (qos_conflict ip r c) ≡ (
          eqzb r.priority c.priority
          && (directions_overlap r.direction c.direction
              && any_pair ip is_exact (qos_policy_cidrs c) (qos_policy_cidrs r)))
  unfolding qos_conflict
  qos_conflict_lem r c =
      guards (eqzb r.priority c.priority) (directions_overlap r.direction c.direction) true true
        (any_pair ip is_exact (qos_policy_cidrs c) (qos_policy_cidrs r))
        (overlap_at_priority r.id c.priority)

  -- Two ACL rules conflict whichever of them is the new one.
  pub acl_conflict_comm :
      (r c : AclRule) → is_some (acl_conflict ip r c) ≡ is_some (acl_conflict ip c r)
  acl_conflict_comm r c =
      rw
        (
          acl_conflict_lem r c,
          acl_conflict_lem c r,
          runtime_scope_comm r c,
          eqzb_comm r.priority c.priority,
          directions_overlap_comm r.direction c.direction,
          protocols_overlap_comm r.protocol c.protocol,
          ports_overlap_comm r.ports r.dst_port c.ports c.dst_port,
          addresses_comm r c,
        )
        refl

  -- Two bandwidth rules conflict whichever of them is the new one.
  pub qos_conflict_comm :
      (r c : QosRule) → is_some (qos_conflict ip r c) ≡ is_some (qos_conflict ip c r)
  qos_conflict_comm r c =
      rw
        (
          qos_conflict_lem r c,
          qos_conflict_lem c r,
          eqzb_comm r.priority c.priority,
          directions_overlap_comm r.direction c.direction,
          any_pair_comm is_exact is_exact is_exact-flip (qos_policy_cidrs r) (qos_policy_cidrs c),
        )
        refl
