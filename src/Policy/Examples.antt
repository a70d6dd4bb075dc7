-- ===== src/Policy/Examples.antt =====
-- Runs of the checks of network policies.
use aria.Prelude.{
  ℕ, String, ℤ, pos, true, false, none, some, [], ◌∷◌, ◌≡◌, refl, ◌↔◌, str_eq, if◌then◌else◌,
  is_some, ◌^◌, ◌+◌, ◌*◌, arith,
}
use aria.Sql.{ok}
use aria.Policy.{AclRule, QosRule, IpGroupMember}
use aria.Policy.Prefix.{
  Prefix, Addr, Netip, contains, prefixes_overlap, cidr_specificity_relation, relation,
}
use aria.Policy.Ports.{ports_overlap, policy_port_intervals, interval}
use aria.Policy.PortSets.{matches, ports_overlap_iff}
use aria.Policy.Overlap.{prefixes_overlap_iff}
use aria.Policy.Conflict.{
  acl_conflict, qos_conflict, detect_acl_policy_conflict, detect_qos_policy_conflict,
  same_runtime_key, overlap_at_priority, validate_node_policy_conflicts,
}
use aria.Policy.Symmetry.{acl_conflict_comm, qos_conflict_comm}
use aria.Policy.Clear.{
  NoAclClash, NoQosClash, acls_beside, rules_beside, detect_acl_policy_conflict-NoAclClash,
  detect_qos_policy_conflict-NoQosClash, validate_node_policy_conflicts_iff,
}
use aria.Policy.Groups.{normalize_cidr, normalize_ip_group_members}
use aria.Policy.Members.{normalize_ip_group_members-count, is_cidr}
use aria.Prelude.{List, count_where, ◌==◌}

abbrev ten : ℕ
ten = 10 * 2 ^ 24

abbrev class_a : Prefix
class_a = record { is4 = true; addr = ten; bits = 8 }

abbrev class_b : Prefix
class_b = record { is4 = true; addr = ten + 2 ^ 16; bits = 16 }

-- net/netip on the texts of the runs
abbrev sample_netip : Netip
sample_netip = record {
  parse_prefix = λ s.
      if str_eq s "10.0.0.0/8"
      then some class_a
      else if str_eq s "10.1.0.0/16"
      then some class_b
      else none;
  parse_addr = λ s.
      if str_eq s "10.1.0.9" then some (record { is4 = true; value = ten + 2 ^ 16 + 9 }) else none;
}

abbrev acl : ℕ → String → String → String → ℕ → AclRule
acl id src dst ports priority = record {
  id = id;
  tenant_id = 1;
  node_id = 2;
  name = "rule";
  action = "deny";
  src_cidr = src;
  dst_cidr = dst;
  src_group_id = none;
  dst_group_id = none;
  src_group = none;
  dst_group = none;
  dst_port = pos 0;
  protocol = pos 6;
  direction = "ingress";
  ports = ports;
  priority = pos priority;
  enabled = true;
  description = "";
  created_at = 5;
  updated_at = 5;
}

abbrev qos : ℕ → String → ℕ → QosRule
qos id dst priority = record {
  id = id;
  tenant_id = 1;
  node_id = 2;
  src_cidr = "";
  dst_cidr = dst;
  group_id = none;
  group = none;
  src_port = pos 0;
  dst_port = pos 0;
  protocol = pos 0;
  bandwidth_mbps = pos 10;
  direction = "egress";
  rate_bps = 0;
  burst_bytes = 0;
  priority = pos priority;
  mode = "";
  enabled = true;
  description = "";
  created_at = 5;
  updated_at = 5;
}

abbrev class_a_rule : AclRule
class_a_rule = acl 7 "10.0.0.0/8" "any" "80-90" 10

abbrev class_b_rule : AclRule
class_b_rule = acl 8 "10.1.0.0/16" "any" "85" 20

intervals_test :
    policy_port_intervals "80-90, 443:allow, 9-1" (pos 0)
    ≡ interval (pos 80) (pos 90) ∷ interval (pos 443) (pos 443) ∷ []
unfolding policy_port_intervals
intervals_test = refl

relation_test :
    cidr_specificity_relation sample_netip "10.1.0.9" "10.0.0.0/8" ≡ some (relation true false)
unfolding cidr_specificity_relation
relation_test = refl

same_key_test :
    detect_acl_policy_conflict sample_netip (class_a_rule ∷ []) (acl 0 "10.0.0.0/8" "0" "443" 30) 0
    ≡ some (same_runtime_key 7)
unfolding detect_acl_policy_conflict
same_key_test = refl

-- a wider source and a narrower destination leave open which rule is more specific
priority_test :
    detect_acl_policy_conflict sample_netip
      (acl 7 "10.0.0.0/8" "10.1.0.0/16" "80-90" 10 ∷ [])
      (acl 0 "10.1.0.0/16" "10.0.0.0/8" "85" 10)
      0
    ≡ some (overlap_at_priority 7 (pos 10))
unfolding detect_acl_policy_conflict
priority_test = refl

ports_overlap_iff_example :
    (ports_overlap "80-90,443" (pos 0) "85:deny" (pos 0) ≡ true)
    ↔ ((p : ℤ) × (matches "80-90,443" (pos 0) p ≡ true) × (matches "85:deny" (pos 0) p ≡ true))
ports_overlap_iff_example = ports_overlap_iff "80-90,443" (pos 0) "85:deny" (pos 0)

prefixes_overlap_iff_example :
    (prefixes_overlap class_a class_b ≡ true)
    ↔ ((a : Addr) × (contains class_a a ≡ true) × (contains class_b a ≡ true))
prefixes_overlap_iff_example = prefixes_overlap_iff class_a class_b (omega arith) (omega arith)

acl_conflict_comm_example :
    is_some (acl_conflict sample_netip class_a_rule class_b_rule)
    ≡ is_some (acl_conflict sample_netip class_b_rule class_a_rule)
acl_conflict_comm_example = acl_conflict_comm sample_netip class_a_rule class_b_rule

qos_conflict_comm_example :
    is_some (qos_conflict sample_netip (qos 3 "10.0.0.0/8" 4) (qos 4 "10.0.0.0/8" 4))
    ≡ is_some (qos_conflict sample_netip (qos 4 "10.0.0.0/8" 4) (qos 3 "10.0.0.0/8" 4))
qos_conflict_comm_example =
    qos_conflict_comm sample_netip (qos 3 "10.0.0.0/8" 4) (qos 4 "10.0.0.0/8" 4)

no_conflict : detect_acl_policy_conflict sample_netip (class_a_rule ∷ []) class_b_rule 0 ≡ none
unfolding detect_acl_policy_conflict
no_conflict = refl

detect_acl_policy_conflict-NoAclClash_example :
    NoAclClash sample_netip (class_b_rule ∷ acls_beside sample_netip 0 (class_a_rule ∷ []))
detect_acl_policy_conflict-NoAclClash_example =
    detect_acl_policy_conflict-NoAclClash sample_netip (class_a_rule ∷ []) class_b_rule 0 (tt, tt)
      no_conflict

no_qos_conflict :
    detect_qos_policy_conflict sample_netip (qos 3 "10.0.0.0/8" 4 ∷ []) (qos 4 "10.1.0.0/16" 4) 0
    ≡ none
unfolding detect_qos_policy_conflict
no_qos_conflict = refl

detect_qos_policy_conflict-NoQosClash_example :
    NoQosClash sample_netip
      (qos 4 "10.1.0.0/16" 4 ∷ rules_beside sample_netip 0 (qos 3 "10.0.0.0/8" 4 ∷ []))
detect_qos_policy_conflict-NoQosClash_example =
    detect_qos_policy_conflict-NoQosClash sample_netip (qos 3 "10.0.0.0/8" 4 ∷ [])
      (qos 4 "10.1.0.0/16" 4) 0 (tt, tt) no_qos_conflict

validate_node_policy_conflicts_iff_example :
    (validate_node_policy_conflicts sample_netip
        (class_a_rule ∷ class_b_rule ∷ [])
        (qos 3 "" 4 ∷ [])
      ≡ none)
    ↔ (NoAclClash sample_netip (class_a_rule ∷ class_b_rule ∷ [])
        × NoQosClash sample_netip (qos 3 "" 4 ∷ []))
validate_node_policy_conflicts_iff_example =
    validate_node_policy_conflicts_iff sample_netip (class_a_rule ∷ class_b_rule ∷ [])
      (qos 3 "" 4 ∷ []) (refl, (refl, tt), (refl, tt, tt)) (refl, tt, tt)

abbrev sample_print : Prefix → String
sample_print p = if p.bits == 8 then "10.0.0.0/8" else "10.1.0.0/16"

abbrev member_of : String → String → IpGroupMember
member_of cidr note = record { id = 0; group_id = 5; cidr = cidr; note = note }

-- the first address is given twice, in two spellings
abbrev sample_members : List IpGroupMember
sample_members =
    member_of " 10.1.0.0/16" "a" ∷ member_of "10.0.0.0/8" "b" ∷ member_of "10.1.0.0/16 " "c" ∷ []

abbrev sample_addresses : List IpGroupMember
sample_addresses = member_of "10.0.0.0/8" "b" ∷ member_of "10.1.0.0/16" "a" ∷ []

members_accepted :
    normalize_ip_group_members sample_netip sample_print sample_members ≡ ok sample_addresses
unfolding normalize_ip_group_members
members_accepted = refl

normalize_ip_group_members-count_example : count_where (is_cidr "10.1.0.0/16") sample_addresses ≡ 1
unfolding normalize_cidr
normalize_ip_group_members-count_example =
    normalize_ip_group_members-count sample_netip sample_print "10.1.0.0/16" sample_members
      sample_addresses members_accepted
