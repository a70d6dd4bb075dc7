-- ===== src/Snapshot/Examples.antt =====
-- Runs of the compiler of policy snapshots.
use aria.Prelude.{ℕ, pos, true, none, some, [], ◌∷◌, ◌≡◌, refl, decimal, All}
use aria.Policy.{AclRule, QosRule, IpGroup}
use aria.Snapshot.{
  PbAclRule, PbQosRule, PbBlacklistRule, AgentPolicySnapshot, compiled, refused, missing_ip_group,
}
use aria.Snapshot.Compile.{compile_acl_rule, compile_qos_rule, deny_entry}
use aria.Snapshot.Build.{compile_agent_policy_snapshot_with_groups}
use aria.Snapshot.Groups.{Resolves, AclResolves}
use aria.Snapshot.Whole.{IsRunnable, snapshot_fixed, snapshot-IsRunnable, snapshot-Resolves}

abbrev office : IpGroup
office = record {
  id = 31;
  tenant_id = 1;
  name = "office";
  description = "";
  kind = "custom";
  created_by = none;
  members =
      record { id = 1; group_id = 31; cidr = " 10.2.0.0/16"; note = "" }
      ∷ record { id = 2; group_id = 31; cidr = "10.1.0.0/16"; note = "" }
      ∷ [];
  created_at = 1;
  updated_at = 1;
}

abbrev acl : AclRule
acl = record {
  id = 7;
  tenant_id = 1;
  node_id = 2;
  name = "web";
  action = " Drop";
  src_cidr = "";
  dst_cidr = "0.0.0.0/0";
  src_group_id = some 31;
  dst_group_id = none;
  src_group = none;
  dst_group = none;
  dst_port = pos 443;
  protocol = pos 0;
  direction = "in";
  ports = "";
  priority = pos 10;
  enabled = true;
  description = "";
  created_at = 5;
  updated_at = 5;
}

abbrev qos : QosRule
qos = record {
  id = 9;
  tenant_id = 1;
  node_id = 2;
  src_cidr = "";
  dst_cidr = "10.1.0.0/16";
  group_id = none;
  group = none;
  src_port = pos 0;
  dst_port = pos 0;
  protocol = pos 0;
  bandwidth_mbps = pos 10;
  direction = "out";
  rate_bps = 0;
  burst_bytes = 0;
  priority = pos 4;
  mode = "";
  enabled = true;
  description = "";
  created_at = 5;
  updated_at = 5;
}

abbrev ssh : PbBlacklistRule
ssh = record { scope = "Ports"; cidr = ""; port = 22 }

abbrev sample : AgentPolicySnapshot
sample = record {
  ip_groups =
      record {
        id = "31";
        name = "office";
        cidrs = "10.1.0.0/16" ∷ "10.2.0.0/16" ∷ [];
        kind = "custom";
      }
      ∷ [];
  acl_rules =
      entry 6 ∷ entry 17 ∷ deny_entry "any" "any" 6 "22" ∷ deny_entry "any" "any" 17 "22" ∷ [];
  qos_rules =
      record {
        id = "9";
        src_ip = "";
        dst_ip = "10.1.0.0/16";
        src_port = 0;
        dst_port = 0;
        protocol = 0;
        bandwidth_mbps = 10;
        direction = "egress";
        rate_bps = 10000000;
        burst_bytes = 125000;
        priority = 4;
        mode = "auto";
        group_id = "";
      }
      ∷ [];
  blacklist_rules = [];
}
  where
    entry : ℕ → PbAclRule
    entry p = record {
      id = "7";
      src_net = "";
      dst_net = "any";
      protocol = p;
      min_port = 0;
      max_port = 0;
      action = "deny";
      direction = "ingress";
      ports = "443";
      src_group_id = "31";
      dst_group_id = "";
      priority = 10;
    }

sample_test :
    compile_agent_policy_snapshot_with_groups decimal (office ∷ []) (acl ∷ []) (qos ∷ []) (ssh ∷ [])
    ≡ compiled sample
unfolding compile_agent_policy_snapshot_with_groups
sample_test = refl

missing_test :
    compile_agent_policy_snapshot_with_groups decimal [] (acl ∷ []) [] [] ≡ refused missing_ip_group
unfolding compile_agent_policy_snapshot_with_groups
missing_test = refl

snapshot_fixed_example :
    All (λ r. compile_acl_rule r ≡ compiled (r ∷ [])) sample.acl_rules
    × All (λ r. compile_qos_rule r ≡ compiled r) sample.qos_rules
snapshot_fixed_example =
    snapshot_fixed decimal (office ∷ []) (acl ∷ []) (qos ∷ []) (ssh ∷ []) sample sample_test

snapshot-IsRunnable_example : All IsRunnable sample.acl_rules
snapshot-IsRunnable_example =
    snapshot-IsRunnable decimal (office ∷ []) (acl ∷ []) (qos ∷ []) (ssh ∷ []) sample sample_test

snapshot-Resolves_example :
    All (AclResolves sample.ip_groups) sample.acl_rules
    × All (λ (r : PbQosRule). Resolves sample.ip_groups r.group_id) sample.qos_rules
snapshot-Resolves_example =
    snapshot-Resolves decimal (office ∷ []) (acl ∷ []) (qos ∷ []) (ssh ∷ []) sample sample_test
