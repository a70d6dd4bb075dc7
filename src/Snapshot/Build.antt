-- ===== src/Snapshot/Build.antt =====
-- internal/controller/grpc/policy_snapshot.go: the snapshot of a node from its records.
-- Records that are nil do not come up: the storage layer returns none.
use Prim.Native.String.{compare as compare_text}
use Prim.Native.Nat.{Ordering}
use aria.Prelude.{
  ℕ, String, ℤ, pos, negsuc, Uuid, ltzb, Bool, true, false, Option, none, some, List, [], ◌∷◌, ◌++◌,
  map, not, str_eq, ltb, ◌-◌, ◌%◌, ◌^◌, if◌then◌else◌, trim, order_by, rows_where,
}
use aria.Policy.{AclRule, QosRule, IpGroup, IpGroupMember, eqzb}
use aria.Policy.Conflict.{any}
use aria.Snapshot.{
  PbAclRule, PbQosRule, PbBlacklistRule, PbIpGroup, AgentPolicySnapshot, Compiled, compiled,
  refused, ◌>>=◌, missing_ip_group,
}
use aria.Snapshot.Compile.{compile_acl_rule, compile_blacklist_rule, compile_qos_rule}

-- uint32(n) and uint64(n) of an int
abbrev pub to_uint : ℕ → ℤ → ℕ
to_uint size (pos n) = n % size
to_uint size (negsuc n) = size - 1 - n % size

abbrev pub to_uint32 : ℤ → ℕ
to_uint32 = to_uint (2 ^ 32)

abbrev pub to_uint64 : ℤ → ℕ
to_uint64 = to_uint (2 ^ 64)

-- the order of rules: by priority, then by age
abbrev pub goes_before : ℤ → ℕ → ℤ → ℕ → Bool
goes_before p created q other = if not (eqzb p q) then ltzb p q else ltb created other

abbrev pub acl_before : AclRule → AclRule → Bool
acl_before a b = goes_before a.priority a.created_at b.priority b.created_at

abbrev pub qos_before : QosRule → QosRule → Bool
qos_before a b = goes_before a.priority a.created_at b.priority b.created_at

-- sortedACLRuleRecords
unfoldable pub sorted_acl_rule_records : List AclRule → List AclRule
sorted_acl_rule_records = order_by acl_before

-- sortedQoSRuleRecords
unfoldable pub sorted_qos_rule_records : List QosRule → List QosRule
sorted_qos_rule_records = order_by qos_before

-- a < b of two strings
abbrev pub text_before : String → String → Bool
text_before a b = elim (compare_text a b) [ Ordering.lt ↦ true | _ ↦ false ]

-- the element of a map of strings
abbrev pub has_text : String → List String → Bool
has_text x = any (λ y. str_eq y x)

-- rules.append of every result, up to the first error
abbrev pub compile_all {ℓ} : {A B : Type ℓ} → (A → Compiled (List B)) → List A → Compiled (List B)
compile_all f [] = compiled []
compile_all f (x ∷ xs) =
    let rest = compile_all f xs in f x >>= λ out. rest >>= λ more. compiled (out ++ more)

-- the members of a group that are not blank, in order
abbrev pub member_cidrs : List IpGroupMember → List String
member_cidrs [] = []
member_cidrs (m ∷ ms) =
    let rest = member_cidrs ms in if not (str_eq (trim m.cidr) "") then trim m.cidr ∷ rest else rest

-- uuid.UUID.String
module _ (uuid_string : Uuid → String) where
  abbrev pub group_text : Option Uuid → String
  group_text none = ""
  group_text (some id) = uuid_string id

  abbrev pub group_texts : Option Uuid → List String
  group_texts none = []
  group_texts (some id) = uuid_string id ∷ []

  -- aclRecordToProto
  unfoldable pub acl_record_to_proto : AclRule → PbAclRule
  unfolding trim
  acl_record_to_proto r =
      let port = if ltzb (pos 0) r.dst_port then to_uint32 r.dst_port else 0 in
      record {
        id = uuid_string r.id;
        src_net = trim r.src_cidr;
        dst_net = trim r.dst_cidr;
        protocol = to_uint32 r.protocol;
        min_port = port;
        max_port = port;
        action = r.action;
        direction = r.direction;
        ports = r.ports;
        src_group_id = group_text r.src_group_id;
        dst_group_id = group_text r.dst_group_id;
        priority = to_uint32 r.priority;
      }

  -- qosRecordToProto
  unfoldable pub qos_record_to_proto : QosRule → PbQosRule
  unfolding trim
  qos_record_to_proto r = record {
    id = uuid_string r.id;
    src_ip = trim r.src_cidr;
    dst_ip = trim r.dst_cidr;
    src_port = to_uint32 r.src_port;
    dst_port = to_uint32 r.dst_port;
    protocol = to_uint32 r.protocol;
    bandwidth_mbps = to_uint64 r.bandwidth_mbps;
    direction = r.direction;
    rate_bps = r.rate_bps;
    burst_bytes = r.burst_bytes;
    priority = to_uint32 r.priority;
    mode = r.mode;
    group_id = group_text r.group_id;
  }

  -- recordACLGroupRefs and recordQoSGroupRefs
  abbrev pub acl_group_refs : AclRule → List String
  acl_group_refs r = group_texts r.src_group_id ++ group_texts r.dst_group_id

  abbrev pub qos_group_refs : QosRule → List String
  qos_group_refs r = group_texts r.group_id

  abbrev pub all_acl_refs : List AclRule → List String
  all_acl_refs [] = []
  all_acl_refs (r ∷ rs) =
      let rest = all_acl_refs rs in if r.enabled then acl_group_refs r ++ rest else rest

  abbrev pub all_qos_refs : List QosRule → List String
  all_qos_refs [] = []
  all_qos_refs (r ∷ rs) =
      let rest = all_qos_refs rs in if r.enabled then qos_group_refs r ++ rest else rest

  -- one round of each loop over records
  abbrev pub compile_acl_record : AclRule → Compiled (List PbAclRule)
  compile_acl_record r =
      if not r.enabled then compiled [] else compile_acl_rule (acl_record_to_proto r)

  abbrev pub compile_qos_record : QosRule → Compiled (List PbQosRule)
  compile_qos_record r =
      if not r.enabled
      then compiled []
      else compile_qos_rule (qos_record_to_proto r) >>= λ rule. compiled (rule ∷ [])

  abbrev pub group_before : IpGroup → IpGroup → Bool
  group_before a b =
      if not (str_eq a.kind b.kind)
      then text_before a.kind b.kind
      else if not (str_eq a.name b.name)
      then text_before a.name b.name
      else text_before (uuid_string a.id) (uuid_string b.id)

  -- sortedIPGroups
  unfoldable pub sorted_ip_groups : List IpGroup → List IpGroup
  sorted_ip_groups = order_by group_before

  -- compileIPGroup
  unfoldable pub compile_ip_group : IpGroup → PbIpGroup
  unfolding trim
  compile_ip_group g = record {
    id = uuid_string g.id;
    name = g.name;
    cidrs = order_by text_before (member_cidrs g.members);
    kind = g.kind;
  }

  -- the groups that the rules name
  abbrev pub referenced : List String → List IpGroup → List IpGroup
  referenced refs = rows_where (λ (g : IpGroup). has_text (uuid_string g.id) refs)

  -- every reference is the identifier of one of the groups
  abbrev pub all_seen : List String → List PbIpGroup → Bool
  all_seen [] groups = true
  all_seen (ref ∷ refs) groups =
      let rest = all_seen refs groups in
      if has_text ref (map (λ (g : PbIpGroup). g.id) groups) then rest else false

  -- compileReferencedIPGroups; which missing group its error names depends on the order of a Go map
  unfoldable pub compile_referenced_ip_groups :
      List IpGroup → List String → Compiled (List PbIpGroup)
  unfolding sorted_ip_groups compile_ip_group
  compile_referenced_ip_groups groups [] = compiled []
  compile_referenced_ip_groups groups (ref ∷ refs) =
      let out = map compile_ip_group (referenced (ref ∷ refs) (sorted_ip_groups groups)) in
      if all_seen (ref ∷ refs) out then compiled out else refused missing_ip_group

  -- compileAgentPolicySnapshotWithGroups
  unfoldable pub compile_agent_policy_snapshot_with_groups :
      List IpGroup
      → List AclRule
      → List QosRule
      → List PbBlacklistRule
      → Compiled AgentPolicySnapshot
  unfolding sorted_acl_rule_records sorted_qos_rule_records compile_acl_rule compile_blacklist_rule
      compile_qos_rule acl_record_to_proto qos_record_to_proto compile_referenced_ip_groups
  compile_agent_policy_snapshot_with_groups groups acls rules blacklist = do
    acl ← compile_all compile_acl_record (sorted_acl_rule_records acls)
    black ← compile_all compile_blacklist_rule blacklist
    qos ← compile_all compile_qos_record (sorted_qos_rule_records rules)
    ip_groups ← compile_referenced_ip_groups groups (
        all_acl_refs (sorted_acl_rule_records acls) ++ all_qos_refs (sorted_qos_rule_records rules))
    compiled (record {
      ip_groups = ip_groups;
      acl_rules = acl ++ black;
      qos_rules = qos;
      blacklist_rules = [];
    })
