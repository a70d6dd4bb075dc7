-- ===== src/Snapshot/Compile.antt =====
-- internal/controller/grpc/policy_snapshot.go: one rule of a node as the rules that an agent runs.
use aria.Prelude.{
  ℕ, String, List, [], ◌∷◌, map, ◌&&◌, ◌||◌, not, str_eq, ◌==◌, ltb, ◌*◌, ◌%◌, ◌^◌, if◌then◌else◌,
  trim, to_lower, decimal,
}
use aria.Snapshot.{
  PbAclRule, PbQosRule, PbBlacklistRule, Compiled, compiled, refused, ◌>>=◌,
  acl_protocol_exceeds_uint8, acl_ports_need_tcp_or_udp, source_requires_cidr,
  destination_requires_cidr, port_out_of_range, unsupported_scope, qos_requires_rate,
  qos_priority_exceeds_uint8, invalid_normalized_direction,
}
use aria.Snapshot.Normalize.{
  normalize_acl_action, normalize_policy_direction, normalize_acl_ports, acl_net_fallback,
  cidr_or_any, inferred_qos_direction, qos_group_for_direction, qos_cidr_fallback_for_direction,
  normalize_qos_mode, default_qos_burst, max_uint16,
}

abbrev pub max_uint8 : ℕ
max_uint8 = 255

-- the protocols of a rule: a filter on ports stands for TCP and UDP
abbrev pub protocols_of : ℕ → String → Compiled (List ℕ)
protocols_of protocol ports =
    if ltb max_uint8 protocol
    then refused (acl_protocol_exceeds_uint8 protocol)
    else if str_eq ports ""
    then compiled (protocol ∷ [])
    else if protocol == 0
    then compiled (6 ∷ 17 ∷ [])
    else if protocol == 6 || protocol == 17
    then compiled (protocol ∷ [])
    else refused (acl_ports_need_tcp_or_udp protocol)

-- one compiled rule
abbrev pub acl_entry : PbAclRule → String → String → String → ℕ → PbAclRule
acl_entry rule action direction ports protocol = record {
  id = rule.id;
  src_net = acl_net_fallback rule.src_net rule.src_group_id;
  dst_net = acl_net_fallback rule.dst_net rule.dst_group_id;
  protocol = protocol;
  min_port = 0;
  max_port = 0;
  action = action;
  direction = direction;
  ports = ports;
  src_group_id = rule.src_group_id;
  dst_group_id = rule.dst_group_id;
  priority = rule.priority;
}

-- compileACLRule
unfoldable pub compile_acl_rule : PbAclRule → Compiled (List PbAclRule)
unfolding normalize_acl_action normalize_policy_direction normalize_acl_ports acl_net_fallback
compile_acl_rule rule = do
  action ← normalize_acl_action rule.action
  direction ← normalize_policy_direction rule.direction "ingress"
  ports ← normalize_acl_ports rule.ports rule.min_port rule.max_port
  protocols ← protocols_of rule.protocol ports
  compiled (map (acl_entry rule action direction ports) protocols)

abbrev pub deny_entry : String → String → ℕ → String → PbAclRule
deny_entry src dst protocol ports = record {
  id = "";
  src_net = src;
  dst_net = dst;
  protocol = protocol;
  min_port = 0;
  max_port = 0;
  action = "deny";
  direction = "ingress";
  ports = ports;
  src_group_id = "";
  dst_group_id = "";
  priority = 0;
}

-- compileBlacklistRule
unfoldable pub compile_blacklist_rule : PbBlacklistRule → Compiled (List PbAclRule)
unfolding trim to_lower cidr_or_any decimal
compile_blacklist_rule rule =
    let scope = to_lower (trim rule.scope) in
    if str_eq scope "src"
    then (if str_eq (trim rule.cidr) ""
        then refused source_requires_cidr
        else compiled (deny_entry (cidr_or_any rule.cidr) "any" 0 "" ∷ []))
    else if str_eq scope "dst"
    then (if str_eq (trim rule.cidr) ""
        then refused destination_requires_cidr
        else compiled (deny_entry "any" (cidr_or_any rule.cidr) 0 "" ∷ []))
    else if str_eq scope "ports"
    then (if rule.port == 0 || ltb max_uint16 rule.port
        then refused port_out_of_range
        else compiled (
            deny_entry "any" "any" 6 (decimal rule.port)
            ∷ deny_entry "any" "any" 17 (decimal rule.port)
            ∷ []))
    else refused (unsupported_scope rule.scope)

-- the rate of a rule; the product wraps around at 64 bits
abbrev pub rate_of : PbQosRule → ℕ
rate_of rule =
    if rule.rate_bps == 0 && ltb 0 rule.bandwidth_mbps
    then rule.bandwidth_mbps * 1000000 % 2 ^ 64
    else rule.rate_bps

-- where the traffic of a rule comes from or goes to
abbrev pub peer_of : PbQosRule → String → String
peer_of rule direction =
    if not (str_eq (trim rule.group_id) "")
    then qos_cidr_fallback_for_direction rule direction
    else qos_group_for_direction rule direction

abbrev pub qos_entry : PbQosRule → String → String → String → String → PbQosRule
qos_entry rule direction mode src dst = record {
  id = rule.id;
  src_ip = src;
  dst_ip = dst;
  src_port = 0;
  dst_port = 0;
  protocol = rule.protocol;
  bandwidth_mbps = rule.bandwidth_mbps;
  direction = direction;
  rate_bps = rate_of rule;
  burst_bytes =
      if rule.burst_bytes == 0 then default_qos_burst (rate_of rule) else rule.burst_bytes;
  priority = rule.priority;
  mode = mode;
  group_id = rule.group_id;
}

-- the switch over the direction
abbrev pub with_peer : PbQosRule → String → String → Compiled PbQosRule
with_peer rule direction mode =
    if str_eq direction "ingress"
    then compiled (qos_entry rule direction mode (peer_of rule direction) "")
    else if str_eq direction "egress" || str_eq direction "both"
    then compiled (qos_entry rule direction mode "" (peer_of rule direction))
    else refused (invalid_normalized_direction direction)

-- the guards on rate and priority
abbrev pub checked_rate : PbQosRule → Compiled ℕ
checked_rate rule = if rate_of rule == 0 then refused qos_requires_rate else compiled (rate_of rule)

abbrev pub checked_priority : PbQosRule → Compiled ℕ
checked_priority rule =
    if ltb max_uint8 rule.priority
    then refused (qos_priority_exceeds_uint8 rule.priority)
    else compiled rule.priority

-- compileQoSRule
unfoldable pub compile_qos_rule : PbQosRule → Compiled PbQosRule
unfolding normalize_policy_direction inferred_qos_direction qos_group_for_direction
    qos_cidr_fallback_for_direction normalize_qos_mode default_qos_burst trim
compile_qos_rule rule = do
  direction ← normalize_policy_direction rule.direction (inferred_qos_direction rule)
  rate ← checked_rate rule
  priority ← checked_priority rule
  mode ← normalize_qos_mode rule.mode
  with_peer rule direction mode
