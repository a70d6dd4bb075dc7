-- ===== src/Policy/Clear.antt =====
-- pkg/controllerstorage/network_policy.go, internal/api/v2/ip_groups.go: the checks keep the rules of a node free
-- of conflicts.
use aria.Prelude.{
  ℕ, Uuid, Bool, true, false, Option, none, some, List, [], ◌∷◌, ◌&&◌, ◌||◌, not, ◌≡◌, refl, ◌↔◌,
  sym, ◌∙◌, is_some, if◌then◌else◌, All, arith,
}
use aria.Policy.{AclRule, QosRule}
use aria.Policy.Prefix.{Netip}
use aria.Policy.Conflict.{
  any, is_skipped, Conflict, acl_conflict, first_acl_conflict, detect_acl_policy_conflict,
  qos_conflict, first_qos_conflict, detect_qos_policy_conflict, or_else, each_acl_rule,
  each_qos_rule, validate_node_policy_conflicts,
}
use aria.Policy.Symmetry.{acl_conflict_comm, qos_conflict_comm}
use aria.Policy.Pairwise.{
  NoClash, HasOwnIds, beside, detects, stops, NoClash-beside, detects-iff-NoClash,
}

is_some-skip :
    {A : Type 0} (b : Bool) (o rest : Option A)
    → is_some (if b then rest else elim o [ some x ↦ some x | none ↦ rest ])
      ≡ (not b && is_some o || is_some rest)
is_some-skip true o rest = refl
is_some-skip false none rest = refl
is_some-skip false (some x) rest = refl

or-if : (a b : Bool) → (a || b) ≡ (if a then true else b)
or-if false b = refl
or-if true b = refl

or_else-none : (a b : Option Conflict) → or_else a b ≡ none → (a ≡ none) × (b ≡ none)
or_else-none none b h = (refl, h)
or_else-none (some x) b h = cc h

is_some-none : {A : Type 0} (o : Option A) → is_some o ≡ false → o ≡ none
is_some-none none h = refl
is_some-none (some x) h = cc h

none-is_some : {A : Type 0} (o : Option A) → o ≡ none → is_some o ≡ false
none-is_some o h = rw h refl

module _ (ip : Netip) where
  abbrev acls_conflict : AclRule → AclRule → Bool
  acls_conflict r s = is_some (acl_conflict ip r s)

  abbrev rules_conflict : QosRule → QosRule → Bool
  rules_conflict r s = is_some (qos_conflict ip r s)

  -- no two rules that are on conflict
  abbrev pub NoAclClash : List AclRule → Type 0
  NoAclClash = NoClash (λ r. r.id) (λ r. r.enabled) acls_conflict

  abbrev pub NoQosClash : List QosRule → Type 0
  NoQosClash = NoClash (λ r. r.id) (λ r. r.enabled) rules_conflict

  abbrev pub HasAclIds : List AclRule → Type 0
  HasAclIds = HasOwnIds (λ r. r.id) (λ r. r.enabled) acls_conflict

  abbrev pub HasQosIds : List QosRule → Type 0
  HasQosIds = HasOwnIds (λ r. r.id) (λ r. r.enabled) rules_conflict

  abbrev pub acls_beside : ℕ → List AclRule → List AclRule
  acls_beside = beside (λ r. r.id) (λ r. r.enabled) acls_conflict

  abbrev pub rules_beside : ℕ → List QosRule → List QosRule
  rules_beside = beside (λ r. r.id) (λ r. r.enabled) rules_conflict

  abbrev acl_detects : List AclRule → AclRule → ℕ → Bool
  acl_detects = detects (λ r. r.id) (λ r. r.enabled) acls_conflict

  abbrev qos_detects : List QosRule → QosRule → ℕ → Bool
  qos_detects = detects (λ r. r.id) (λ r. r.enabled) rules_conflict

  first_acl_conflict_lem :
      (c : AclRule) (id : ℕ) (rs : List AclRule)
      → is_some (first_acl_conflict ip rs c id)
        ≡ any (stops (λ r. r.id) (λ r. r.enabled) acls_conflict id c) rs
  unfolding first_acl_conflict
  first_acl_conflict_lem c id [] = refl
  first_acl_conflict_lem c id (r ∷ rs) =
      is_some-skip (is_skipped r.enabled r.id id) (acl_conflict ip r c)
        (first_acl_conflict ip rs c id)
      ∙ rw (first_acl_conflict_lem c id rs)
          (or-if (stops (λ (r : AclRule). r.id) (λ r. r.enabled) acls_conflict id c r) _)

  first_qos_conflict_lem :
      (c : QosRule) (id : ℕ) (rs : List QosRule)
      → is_some (first_qos_conflict ip rs c id)
        ≡ any (stops (λ r. r.id) (λ r. r.enabled) rules_conflict id c) rs
  unfolding first_qos_conflict
  first_qos_conflict_lem c id [] = refl
  first_qos_conflict_lem c id (r ∷ rs) =
      is_some-skip (is_skipped r.enabled r.id id) (qos_conflict ip r c)
        (first_qos_conflict ip rs c id)
      ∙ rw (first_qos_conflict_lem c id rs)
          (or-if (stops (λ (r : QosRule). r.id) (λ r. r.enabled) rules_conflict id c r) _)

  detect_acl_lem :
      (rs : List AclRule) (c : AclRule) (id : ℕ)
      → is_some (detect_acl_policy_conflict ip rs c id) ≡ acl_detects rs c id
  unfolding detect_acl_policy_conflict
  detect_acl_lem rs c id = rw (sym (first_acl_conflict_lem c id rs)) (ground arith)

  detect_qos_lem :
      (rs : List QosRule) (c : QosRule) (id : ℕ)
      → is_some (detect_qos_policy_conflict ip rs c id) ≡ qos_detects rs c id
  unfolding detect_qos_policy_conflict
  detect_qos_lem rs c id = rw (sym (first_qos_conflict_lem c id rs)) (ground arith)

  -- Where no two ACL rules of a node conflict and the check of a rule finds nothing, no two conflict once the rule
  -- stands beside the others, in place of the rule with the given identifier if one is given.
  pub detect_acl_policy_conflict-NoAclClash :
      (existing : List AclRule) (c : AclRule) (id : Uuid)
      → NoAclClash existing
      → detect_acl_policy_conflict ip existing c id ≡ none
      → NoAclClash (c ∷ acls_beside id existing)
  detect_acl_policy_conflict-NoAclClash existing c id h k =
      NoClash-beside (λ r. r.id) (λ r. r.enabled) acls_conflict (acl_conflict_comm ip) c id existing
        h
        (sym (detect_acl_lem existing c id)
          ∙ none-is_some (detect_acl_policy_conflict ip existing c id) k)

  -- Where no two bandwidth rules of a node conflict and the check of a rule finds nothing, no two conflict once
  -- the rule stands beside the others, in place of the rule with the given identifier if one is given.
  pub detect_qos_policy_conflict-NoQosClash :
      (existing : List QosRule) (c : QosRule) (id : Uuid)
      → NoQosClash existing
      → detect_qos_policy_conflict ip existing c id ≡ none
      → NoQosClash (c ∷ rules_beside id existing)
  detect_qos_policy_conflict-NoQosClash existing c id h k =
      NoClash-beside (λ r. r.id) (λ r. r.enabled) rules_conflict (qos_conflict_comm ip) c id
        existing h
        (sym (detect_qos_lem existing c id)
          ∙ none-is_some (detect_qos_policy_conflict ip existing c id) k)

  each_acl_rule-All :
      (whole rs : List AclRule)
      → each_acl_rule ip whole rs ≡ none
      → All (λ c. acl_detects whole c c.id ≡ false) rs
  each_acl_rule-All whole [] h = tt
  each_acl_rule-All whole (r ∷ rs) h =
      let (first, rest) =
        or_else-none (detect_acl_policy_conflict ip whole r r.id) (each_acl_rule ip whole rs) h in
      (
        sym (detect_acl_lem whole r r.id)
            ∙ none-is_some (detect_acl_policy_conflict ip whole r r.id) first,
        each_acl_rule-All whole rs rest,
      )

  All-each_acl_rule :
      (whole rs : List AclRule)
      → All (λ c. acl_detects whole c c.id ≡ false) rs
      → each_acl_rule ip whole rs ≡ none
  All-each_acl_rule whole [] h = refl
  All-each_acl_rule whole (r ∷ rs) h =
      rw
        (
          is_some-none (detect_acl_policy_conflict ip whole r r.id)
              (detect_acl_lem whole r r.id ∙ h.0),
          All-each_acl_rule whole rs h.1,
        )
        refl

  each_qos_rule-All :
      (whole rs : List QosRule)
      → each_qos_rule ip whole rs ≡ none
      → All (λ c. qos_detects whole c c.id ≡ false) rs
  each_qos_rule-All whole [] h = tt
  each_qos_rule-All whole (r ∷ rs) h =
      let (first, rest) =
        or_else-none (detect_qos_policy_conflict ip whole r r.id) (each_qos_rule ip whole rs) h in
      (
        sym (detect_qos_lem whole r r.id)
            ∙ none-is_some (detect_qos_policy_conflict ip whole r r.id) first,
        each_qos_rule-All whole rs rest,
      )

  All-each_qos_rule :
      (whole rs : List QosRule)
      → All (λ c. qos_detects whole c c.id ≡ false) rs
      → each_qos_rule ip whole rs ≡ none
  All-each_qos_rule whole [] h = refl
  All-each_qos_rule whole (r ∷ rs) h =
      rw
        (
          is_some-none (detect_qos_policy_conflict ip whole r r.id)
              (detect_qos_lem whole r r.id ∙ h.0),
          All-each_qos_rule whole rs h.1,
        )
        refl

  -- For rules whose identifiers are set and differ, the check of a whole node passes exactly when no two of its ACL
  -- rules that are on conflict and no two of its bandwidth rules that are on conflict.
  pub validate_node_policy_conflicts_iff :
      (acls : List AclRule) (rules : List QosRule)
      → HasAclIds acls
      → HasQosIds rules
      → (validate_node_policy_conflicts ip acls rules ≡ none) ↔ (NoAclClash acls × NoQosClash rules)
  unfolding validate_node_policy_conflicts
  validate_node_policy_conflicts_iff acls rules h k =
      let a =
        detects-iff-NoClash (λ r. r.id) (λ r. r.enabled) acls_conflict (acl_conflict_comm ip) acls
          h in
      let q =
        detects-iff-NoClash (λ r. r.id) (λ r. r.enabled) rules_conflict (qos_conflict_comm ip) rules
          k in
      (
        λ e.
            let (first, rest) =
              or_else-none (each_acl_rule ip acls acls) (each_qos_rule ip rules rules) e in
            (a.0 (each_acl_rule-All acls acls first), q.0 (each_qos_rule-All rules rules rest)),
        λ e. rw (All-each_acl_rule acls acls (a.1 e.0)) (All-each_qos_rule rules rules (q.1 e.1)),
      )
