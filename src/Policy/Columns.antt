-- ===== src/Policy/Columns.antt =====
-- pkg/controllerstorage/network_policy.go: the columns of the table acl_rules, and how RETURNING and SELECT read them.
use aria.Prelude.{
  ℕ, String, ℤ, pos, pos_part, ltzb, lezb, Bool, Option, none, ◌&&◌, not, if◌then◌else◌, decimal,
  get_or, str_append,
}
use aria.Storage.{Uuid}
use aria.Policy.{AclRule}

-- a row of the table acl_rules; none is NULL
pub record AclColumns : Type 0 where
  pub id : Uuid
  pub tenant_id : Uuid
  pub node_id : Uuid
  pub name : Option String
  pub action : String
  pub src_group_id : Option Uuid
  pub dst_group_id : Option Uuid
  pub src_cidr : Option String
  pub dst_cidr : Option String
  pub dst_port : Option ℤ
  pub protocol : Option ℤ
  pub direction : Option String
  pub ports : Option String
  pub priority : ℤ
  pub enabled : Bool
  pub description : Option String
  pub src_net : String
  pub dst_net : String
  pub min_port : ℤ
  pub max_port : ℤ
  pub created_at : ℕ
  pub updated_at : ℕ

abbrev pub same_port : ℤ → ℤ → Bool
same_port a b = lezb a b && lezb b a

-- COALESCE(dst_port, CASE WHEN min_port = max_port THEN max_port ELSE 0 END, 0)
abbrev pub read_port : AclColumns → ℤ
read_port c = get_or c.dst_port (if same_port c.min_port c.max_port then c.max_port else pos 0)

-- a bound of a port range as a text, where it is positive
abbrev pub port_text : ℤ → String
port_text n = decimal (pos_part n)

-- COALESCE(ports, CASE WHEN ... END)
abbrev pub read_ports : AclColumns → String
read_ports c = get_or c.ports (
    if ltzb (pos 0) c.min_port && (ltzb (pos 0) c.max_port && not (same_port c.min_port c.max_port))
    then str_append (str_append (port_text c.min_port) "-") (port_text c.max_port)
    else if ltzb (pos 0) c.min_port
    then port_text c.min_port
    else "")

-- the RETURNING of createTenantNodeACLRule
unfoldable pub returned_acl : AclColumns → AclRule
returned_acl c = record {
  id = c.id;
  tenant_id = c.tenant_id;
  node_id = c.node_id;
  name = get_or c.name "";
  action = c.action;
  src_cidr = get_or c.src_cidr c.src_net;
  dst_cidr = get_or c.dst_cidr c.dst_net;
  src_group_id = c.src_group_id;
  dst_group_id = c.dst_group_id;
  src_group = none;
  dst_group = none;
  dst_port = read_port c;
  protocol = get_or c.protocol (pos 0);
  direction = get_or c.direction "ingress";
  ports = read_ports c;
  priority = c.priority;
  enabled = c.enabled;
  description = get_or c.description "";
  created_at = c.created_at;
  updated_at = c.updated_at;
}

-- the SELECT of GetTenantNodeACLRule and listTenantNodeACLRules, and scanACLRuleRecord
unfoldable pub selected_acl : AclColumns → AclRule
selected_acl c = record {
  id = c.id;
  tenant_id = c.tenant_id;
  node_id = c.node_id;
  name = get_or c.name "";
  action = c.action;
  src_cidr = get_or c.src_cidr c.src_net;
  dst_cidr = get_or c.dst_cidr c.dst_net;
  src_group_id = c.src_group_id;
  dst_group_id = c.dst_group_id;
  src_group = none;
  dst_group = none;
  dst_port = read_port c;
  protocol = get_or c.protocol (pos 0);
  direction = get_or c.direction "ingress";
  ports = read_ports c;
  priority = c.priority;
  enabled = c.enabled;
  description = get_or c.description "";
  created_at = c.created_at;
  updated_at = c.updated_at;
}
