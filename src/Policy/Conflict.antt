-- ===== src/Policy/Conflict.antt =====
-- pkg/controllerstorage/network_policy.go: which rules of a node may not stand beside a new one.
use aria.Prelude.{
  String, ℤ, pos, Uuid, Bool, true, false, Option, none, some, List, [], ◌∷◌, ◌&&◌, ◌||◌, not,
  str_eq, ◌==◌, if◌then◌else◌, trim, to_lower, map,
}
use aria.Policy.{IpGroupMember, IpGroup, QosRule, AclRule, eqzb}
use aria.Policy.Ports.{ports_overlap}
use aria.Policy.Prefix.{
  Netip, CidrRelation, cidr_specificity_relation, strictly_more_specific, strictly_less_specific,
}

-- policyDirections
unfoldable pub policy_directions : String → List String
unfolding trim to_lower
policy_directions value =
    let d = to_lower (trim value) in
    if str_eq d "egress" || str_eq d "out"
    then "egress" ∷ []
    else if str_eq d "both" || str_eq d "all"
    then "ingress" ∷ "egress" ∷ []
    else "ingress" ∷ []

-- for _, x := range xs { if test(x) { return true } }
abbrev pub any {ℓ} : {A : Type ℓ} → (A → Bool) → List A → Bool
any test [] = false
any test (x ∷ xs) = let rest = any test xs in if test x then true else rest

-- directionsOverlap
unfoldable pub directions_overlap : String → String → Bool
unfolding policy_directions
directions_overlap a b =
    any (λ left. any (λ right. str_eq left right) (policy_directions b)) (policy_directions a)

-- protocolsOverlap
unfoldable pub protocols_overlap : ℤ → ℤ → Bool
protocols_overlap a b = eqzb a (pos 0) || (eqzb b (pos 0) || eqzb a b)

-- ipGroupMemberCIDRs
abbrev pub or_blank : List String → List String
or_blank [] = "" ∷ []
or_blank (c ∷ cs) = c ∷ cs

unfoldable pub ip_group_member_cidrs : List IpGroupMember → List String
ip_group_member_cidrs members = or_blank (map (λ (m : IpGroupMember). m.cidr) members)

-- the members of a group that has some, else what stands in the rule
abbrev pub group_cidrs : Option IpGroup → List String → List String
group_cidrs none own = own
group_cidrs (some g) own = elim g.members [ [] ↦ own | m ∷ ms ↦ ip_group_member_cidrs (m ∷ ms) ]

-- aclSourceCIDRs, aclDestinationCIDRs
unfoldable pub acl_source_cidrs : AclRule → List String
unfolding ip_group_member_cidrs
acl_source_cidrs r = group_cidrs r.src_group (r.src_cidr ∷ [])

unfoldable pub acl_destination_cidrs : AclRule → List String
unfolding ip_group_member_cidrs
acl_destination_cidrs r = group_cidrs r.dst_group (r.dst_cidr ∷ [])

-- qosPolicyCIDRs
unfoldable pub qos_policy_cidrs : QosRule → List String
unfolding ip_group_member_cidrs trim
qos_policy_cidrs r = group_cidrs r.group (
    if str_eq (trim r.direction) "ingress" && not (str_eq (trim r.src_cidr) "")
    then r.src_cidr ∷ []
    else if not (str_eq (trim r.dst_cidr) "")
    then r.dst_cidr ∷ []
    else if not (str_eq (trim r.src_cidr) "")
    then r.src_cidr ∷ []
    else "" ∷ [])

-- neither of the two is more specific than the other
abbrev pub is_exact : Option CidrRelation → Bool
is_exact none = false
is_exact (some r) = not r.candidate_strict && not r.existing_strict

-- the two together leave open which rule is more specific
abbrev pub is_ambiguous : Option CidrRelation → Option CidrRelation → Bool
is_ambiguous none d = false
is_ambiguous (some s) none = false
is_ambiguous (some s) (some d) = not (strictly_more_specific s d || strictly_less_specific s d)

-- the rule that a check stops at; the caller gets ErrAmbiguousPolicyConflict with its identifier
pub data Conflict : Type 0 where
  same_runtime_key : Uuid → Conflict
  overlap_at_priority : Uuid → ℤ → Conflict

abbrev pub is_skipped : Bool → Uuid → Uuid → Bool
is_skipped enabled id candidate_id = not enabled || (not (candidate_id == 0) && id == candidate_id)

-- the first of two errors
abbrev pub or_else : Option Conflict → Option Conflict → Option Conflict
or_else none rest = rest
or_else (some x) rest = some x

module _ (ip : Netip) where
  -- some pair of texts, one of each rule, passes the test
  abbrev pub any_pair : (Option CidrRelation → Bool) → List String → List String → Bool
  any_pair test candidates existing =
      any (λ c. any (λ e. test (cidr_specificity_relation ip c e)) existing) candidates

  -- aclRuntimeScopeConflicts
  unfoldable pub acl_runtime_scope_conflicts : AclRule → AclRule → Bool
  unfolding directions_overlap protocols_overlap acl_source_cidrs acl_destination_cidrs
      cidr_specificity_relation
  acl_runtime_scope_conflicts existing candidate =
      if not (directions_overlap existing.direction candidate.direction)
      then false
      else if not (protocols_overlap existing.protocol candidate.protocol)
      then false
      else any_pair
          (λ src.
            is_exact src
            && any_pair is_exact (acl_destination_cidrs candidate) (acl_destination_cidrs existing))
          (acl_source_cidrs candidate) (acl_source_cidrs existing)

  -- the loops over the texts in DetectACLPolicyConflict
  abbrev pub acl_addresses_ambiguous : AclRule → AclRule → Bool
  acl_addresses_ambiguous existing candidate =
      any_pair
        (λ src.
          any_pair (is_ambiguous src) (acl_destination_cidrs candidate)
            (acl_destination_cidrs existing))
        (acl_source_cidrs candidate) (acl_source_cidrs existing)

  -- one round of DetectACLPolicyConflict on an enabled rule
  unfoldable pub acl_conflict : AclRule → AclRule → Option Conflict
  unfolding acl_runtime_scope_conflicts ports_overlap
  acl_conflict r c =
      if acl_runtime_scope_conflicts r c
      then some (same_runtime_key r.id)
      else if not (eqzb r.priority c.priority)
      then none
      else if not (directions_overlap r.direction c.direction)
      then none
      else if not (protocols_overlap r.protocol c.protocol)
      then none
      else if not (ports_overlap r.ports r.dst_port c.ports c.dst_port)
      then none
      else if acl_addresses_ambiguous r c
      then some (overlap_at_priority r.id c.priority)
      else none

  -- DetectACLPolicyConflict on a candidate that is enabled; nil rules are left out
  unfoldable pub first_acl_conflict : List AclRule → AclRule → Uuid → Option Conflict
  unfolding acl_conflict
  first_acl_conflict [] c id = none
  first_acl_conflict (r ∷ rs) c id =
      let rest = first_acl_conflict rs c id in
      if is_skipped r.enabled r.id id
      then rest
      else elim (acl_conflict r c) [ some x ↦ some x | none ↦ rest ]

  unfoldable pub detect_acl_policy_conflict : List AclRule → AclRule → Uuid → Option Conflict
  unfolding first_acl_conflict
  detect_acl_policy_conflict existing c id =
      if not c.enabled then none else first_acl_conflict existing c id

  -- one round of DetectQoSPolicyConflict
  unfoldable pub qos_conflict : QosRule → QosRule → Option Conflict
  unfolding directions_overlap qos_policy_cidrs cidr_specificity_relation
  qos_conflict r c =
      if not (eqzb r.priority c.priority)
      then none
      else if not (directions_overlap r.direction c.direction)
      then none
      else if any_pair is_exact (qos_policy_cidrs c) (qos_policy_cidrs r)
      then some (overlap_at_priority r.id c.priority)
      else none

  unfoldable pub first_qos_conflict : List QosRule → QosRule → Uuid → Option Conflict
  unfolding qos_conflict
  first_qos_conflict [] c id = none
  first_qos_conflict (r ∷ rs) c id =
      let rest = first_qos_conflict rs c id in
      if is_skipped r.enabled r.id id
      then rest
      else elim (qos_conflict r c) [ some x ↦ some x | none ↦ rest ]

  -- DetectQoSPolicyConflict
  unfoldable pub detect_qos_policy_conflict : List QosRule → QosRule → Uuid → Option Conflict
  unfolding first_qos_conflict
  detect_qos_policy_conflict existing c id =
      if not c.enabled then none else first_qos_conflict existing c id

  -- the loops of validateNodePolicyConflicts: every rule of a node against all of them
  abbrev pub each_acl_rule : List AclRule → List AclRule → Option Conflict
  each_acl_rule all [] = none
  each_acl_rule all (r ∷ rs) =
      or_else (detect_acl_policy_conflict all r r.id) (each_acl_rule all rs)

  abbrev pub each_qos_rule : List QosRule → List QosRule → Option Conflict
  each_qos_rule all [] = none
  each_qos_rule all (r ∷ rs) =
      or_else (detect_qos_policy_conflict all r r.id) (each_qos_rule all rs)

  unfoldable pub validate_node_policy_conflicts : List AclRule → List QosRule → Option Conflict
  unfolding detect_acl_policy_conflict detect_qos_policy_conflict
  validate_node_policy_conflicts acls rules =
      or_else (each_acl_rule acls acls) (each_qos_rule rules rules)
