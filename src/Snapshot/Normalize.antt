-- ===== src/Snapshot/Normalize.antt =====
-- internal/controller/grpc/policy_snapshot.go: the fields of a rule in their normal form.
use aria.Prelude.{
  ℕ, String, ◌&&◌, ◌||◌, not, str_eq, str_append, ◌==◌, ltb, ◌/◌, if◌then◌else◌, trim, to_lower,
  decimal,
}
use aria.Snapshot.{
  PbQosRule, Compiled, compiled, refused, invalid_acl_action, invalid_policy_direction,
  invalid_qos_mode, acl_port_range_too_large, invalid_acl_port_range,
}

-- normalizeACLAction
unfoldable pub normalize_acl_action : String → Compiled String
unfolding trim to_lower
normalize_acl_action action =
    let a = to_lower (trim action) in
    if str_eq a "" || (str_eq a "accept" || (str_eq a "pass" || str_eq a "allow"))
    then compiled "allow"
    else if str_eq a "drop" || str_eq a "deny"
    then compiled "deny"
    else refused (invalid_acl_action action)

-- normalizePolicyDirection
unfoldable pub normalize_policy_direction : String → String → Compiled String
unfolding trim to_lower
normalize_policy_direction direction fallback =
    let d = to_lower (trim direction) in
    let value = if str_eq d "" then fallback else d in
    if str_eq value "ingress" || str_eq value "in"
    then compiled "ingress"
    else if str_eq value "egress" || str_eq value "out"
    then compiled "egress"
    else if str_eq value "both" || str_eq value "all"
    then compiled "both"
    else refused (invalid_policy_direction direction)

abbrev pub max_uint16 : ℕ
max_uint16 = 65535

-- the text of a range of ports, its bounds in order
abbrev pub range_text : ℕ → ℕ → Compiled String
range_text low high =
    if ltb high low
    then refused (invalid_acl_port_range low high)
    else if low == high
    then compiled (decimal low)
    else compiled (str_append (decimal low) (str_append "-" (decimal high)))

-- normalizeACLPorts
unfoldable pub normalize_acl_ports : String → ℕ → ℕ → Compiled String
unfolding trim to_lower decimal
normalize_acl_ports ports min_port max_port =
    let t = trim ports in
    if not (str_eq t "")
    then (if str_eq (to_lower t) "all" then compiled "" else compiled t)
    else if min_port == 0 && (max_port == 0 || max_port == max_uint16)
    then compiled ""
    else if ltb max_uint16 min_port || ltb max_uint16 max_port
    then refused acl_port_range_too_large
    else range_text min_port (if max_port == 0 then min_port else max_port)

-- cidrOrAny
unfoldable pub cidr_or_any : String → String
unfolding trim
cidr_or_any value =
    let t = trim value in
    if str_eq t "" || (str_eq t "0" || (str_eq t "0.0.0.0/0" || str_eq t "::/0")) then "any" else t

-- aclNetFallback
unfoldable pub acl_net_fallback : String → String → String
unfolding trim cidr_or_any
acl_net_fallback cidr group_id =
    if not (str_eq (trim group_id) "") then trim cidr else cidr_or_any cidr

-- inferredQoSDirection
unfoldable pub inferred_qos_direction : PbQosRule → String
unfolding trim
inferred_qos_direction rule =
    if not (str_eq (trim rule.src_ip) "") && str_eq (trim rule.dst_ip) ""
    then "ingress"
    else "egress"

-- qosGroupForDirection
unfoldable pub qos_group_for_direction : PbQosRule → String → String
unfolding cidr_or_any
qos_group_for_direction rule direction =
    if str_eq direction "ingress"
    then cidr_or_any rule.src_ip
    else if str_eq (cidr_or_any rule.dst_ip) "any"
    then cidr_or_any rule.src_ip
    else cidr_or_any rule.dst_ip

-- qosCIDRFallbackForDirection
unfoldable pub qos_cidr_fallback_for_direction : PbQosRule → String → String
unfolding trim
qos_cidr_fallback_for_direction rule direction =
    if str_eq direction "ingress"
    then trim rule.src_ip
    else if not (str_eq (trim rule.dst_ip) "")
    then trim rule.dst_ip
    else trim rule.src_ip

-- normalizeQoSMode
unfoldable pub normalize_qos_mode : String → Compiled String
unfolding trim to_lower
normalize_qos_mode mode =
    let m = to_lower (trim mode) in
    if str_eq m ""
    then compiled "auto"
    else if str_eq m "auto" || (str_eq m "policing" || str_eq m "shaping")
    then compiled m
    else refused (invalid_qos_mode mode)

-- defaultQoSBurst
unfoldable pub default_qos_burst : ℕ → ℕ
default_qos_burst rate_bps = if ltb (rate_bps / 8 / 10) 1500 then 1500 else rate_bps / 8 / 10
