-- ===== src/Policy/QosStore.antt =====
-- pkg/controllerstorage/network_policy.go: the statements on bandwidth rules and on blacklist rules.
use aria.Prelude.{
  ℕ, String, ℤ, pos, negsuc, ltzb, Bool, true, false, Option, none, some, List, [], ◌∷◌, ◌++◌, ◌&&◌,
  ◌||◌, not, str_eq, ◌==◌, ltb, ◌*◌, ◌%◌, ◌^◌, ◌/◌, if◌then◌else◌, trim, rows_where, find_where,
  update_where, delete_where, count_where, order_by,
}
use aria.Sql.{
  no_rows, db_failure, Result, ok, err, Exec, pure, statement, run, query, ◌>>=◌, ◌>>◌, unless,
}
use aria.Storage.{Uuid, Env}
use aria.Policy.{QosRule, BlacklistRule, eqzb}
use aria.Policy.Store.{PolicyTables, bump_node_desired_version_with, bump_if, one_row, with_nets}

-- defaultQoSDirection
unfoldable pub default_qos_direction : QosRule → String
unfolding trim
default_qos_direction r =
    if not (str_eq (trim r.src_cidr) "") && str_eq (trim r.dst_cidr) "" then "ingress" else "egress"

-- defaultQoSBurst
unfoldable pub default_qos_burst : ℕ → ℕ
default_qos_burst rate = if ltb (rate / 8 / 10) 1500 then 1500 else rate / 8 / 10

-- uint64(mbps) * 1000000, for mbps > 0
abbrev pub rate_from : ℤ → ℕ
rate_from (pos n) = n % 2 ^ 64 * 1000000 % 2 ^ 64
rate_from (negsuc n) = 0

abbrev pub runtime_rate : QosRule → ℕ
runtime_rate r =
    if r.rate_bps == 0 && ltzb (pos 0) r.bandwidth_mbps
    then rate_from r.bandwidth_mbps
    else r.rate_bps

-- normalizeQoSRuntimeFields
unfoldable pub normalize_qos_runtime_fields : QosRule → QosRule
unfolding trim default_qos_direction default_qos_burst
normalize_qos_runtime_fields r = record r {
  direction = if str_eq (trim r.direction) "" then default_qos_direction r else r.direction;
  rate_bps = runtime_rate r;
  burst_bytes = if r.burst_bytes == 0 then default_qos_burst (runtime_rate r) else r.burst_bytes;
  mode = if str_eq (trim r.mode) "" then "auto" else r.mode;
}

abbrev pub is_qos : Uuid → Uuid → Uuid → QosRule → Bool
is_qos tenant node id r = r.id == id && (r.tenant_id == tenant && r.node_id == node)

-- ORDER BY priority ASC, created_at DESC
abbrev pub qos_first : QosRule → QosRule → Bool
qos_first a b =
    if ltzb a.priority b.priority
    then true
    else if ltzb b.priority a.priority
    then false
    else ltb b.created_at a.created_at

-- listTenantNodeQoSRules
unfoldable pub list_tenant_node_qos_rules : Uuid → Uuid → Bool → Exec PolicyTables (List QosRule)
list_tenant_node_qos_rules tenant node enabled_only = query (λ db. order_by qos_first (
    rows_where
      (λ (r : QosRule).
        r.tenant_id == tenant && (r.node_id == node && (not enabled_only || r.enabled)))
      db.qos_rules))

-- GetTenantNodeQoSRule
unfoldable pub get_tenant_node_qos_rule : Uuid → Uuid → Uuid → Exec PolicyTables QosRule
get_tenant_node_qos_rule tenant node id =
    statement (λ db. (one_row (find_where (is_qos tenant node id) db.qos_rules), db))

-- deleteTenantNodeQoSRule
unfoldable pub delete_tenant_node_qos_rule :
    Env → Bool → Uuid → Uuid → Uuid → Exec PolicyTables (Unit {0})
unfolding bump_node_desired_version_with
delete_tenant_node_qos_rule env bump tenant node id = do
  n ← run (λ db. (
    count_where (is_qos tenant node id) db.qos_rules,
    record db { qos_rules = delete_where (is_qos tenant node id) db.qos_rules },
  ))
  unless (n == 0) no_rows
  bump_if bump env tenant node

-- database/sql refuses an unsigned number with its high bit set
abbrev pub fits : QosRule → Bool
fits r = ltb r.rate_bps (2 ^ 63) && ltb r.burst_bytes (2 ^ 63)

abbrev pub is_blacklist : Uuid → Uuid → String → Uuid → BlacklistRule → Bool
is_blacklist tenant node scope id r =
    r.id == id && (r.tenant_id == tenant && (r.node_id == node && str_eq r.scope scope))

-- ListTenantNodeBlacklistRules
unfoldable pub list_tenant_node_blacklist_rules :
    Uuid → Uuid → String → Exec PolicyTables (List BlacklistRule)
list_tenant_node_blacklist_rules tenant node scope = query (λ db.
    order_by (λ (a b : BlacklistRule). ltb b.created_at a.created_at)
      (rows_where
        (λ (r : BlacklistRule).
          r.tenant_id == tenant && (r.node_id == node && str_eq r.scope scope))
        db.blacklist_rules))

-- deleteTenantNodeBlacklistRuleByID
unfoldable pub delete_tenant_node_blacklist_rule_by_id :
    Env → Bool → Uuid → Uuid → String → Uuid → Exec PolicyTables (Unit {0})
unfolding bump_node_desired_version_with
delete_tenant_node_blacklist_rule_by_id env bump tenant node scope id = do
  n ← run (λ db. (
    count_where (is_blacklist tenant node scope id) db.blacklist_rules,
    record db {
      blacklist_rules = delete_where (is_blacklist tenant node scope id) db.blacklist_rules;
    },
  ))
  unless (n == 0) no_rows
  bump_if bump env tenant node

abbrev pub is_port_entry : Uuid → Uuid → ℤ → BlacklistRule → Bool
is_port_entry tenant node port r =
    r.tenant_id == tenant && (r.node_id == node && (str_eq r.scope "ports" && eqzb r.port port))

-- DeleteTenantNodePortBlacklistRule
unfoldable pub delete_tenant_node_port_blacklist_rule :
    Env → Uuid → Uuid → ℤ → Exec PolicyTables (Unit {0})
unfolding bump_node_desired_version_with
delete_tenant_node_port_blacklist_rule env tenant node port = do
  n ← run (λ db. (
    count_where (is_port_entry tenant node port) db.blacklist_rules,
    record db {
      blacklist_rules = delete_where (is_port_entry tenant node port) db.blacklist_rules;
    },
  ))
  unless (n == 0) no_rows
  bump_if true env tenant node

abbrev pub qos_row : Env → Uuid → QosRule → String → String → QosRule
qos_row env id r src dst = record (normalize_qos_runtime_fields r) {
  id = id;
  src_cidr = src;
  dst_cidr = dst;
  group = none;
  description = trim r.description;
  created_at = env.now;
  updated_at = env.now;
}

abbrev pub insert_qos : Option QosRule → PolicyTables → Result QosRule × PolicyTables
insert_qos none db = (err db_failure, db)
insert_qos (some r) db =
    if fits r
    then (ok r, record db { qos_rules = db.qos_rules ++ r ∷ [] })
    else (err db_failure, db)

abbrev pub qos_changed : Env → QosRule → String → String → QosRule → QosRule
qos_changed env r src dst old = record (normalize_qos_runtime_fields r) {
  id = old.id;
  tenant_id = old.tenant_id;
  node_id = old.node_id;
  src_cidr = src;
  dst_cidr = dst;
  group = none;
  created_at = old.created_at;
  updated_at = env.now;
}

abbrev pub update_qos :
    Bool → (QosRule → Bool) → Option (QosRule → QosRule) → PolicyTables → Result ℕ × PolicyTables
update_qos fit p none db = (err db_failure, db)
update_qos fit p (some f) db =
    if fit
    then (ok (count_where p db.qos_rules), record db { qos_rules = update_where p f db.qos_rules })
    else (err db_failure, db)

abbrev pub insert_blacklist :
    Option BlacklistRule → PolicyTables → Result BlacklistRule × PolicyTables
insert_blacklist none db = (err db_failure, db)
insert_blacklist (some r) db = (ok r, record db { blacklist_rules = db.blacklist_rules ++ r ∷ [] })

abbrev pub blacklist_row : Env → Uuid → BlacklistRule → Option String → Option BlacklistRule
blacklist_row env id r none = none
blacklist_row env id r (some net) = some (record r {
  id = id;
  cidr = net;
  description = trim r.description;
  created_at = env.now;
  updated_at = env.now;
})

module _ (cidr : String → Option String) where
  -- COALESCE(NULLIF(text, '')::cidr::text, '')
  abbrev pub stored_cidr : String → Option String
  stored_cidr text = if str_eq text "" then some "" else cidr text

  -- createTenantNodeQoSRule; the table gives a new row its identifier
  unfoldable pub create_tenant_node_qos_rule :
      Env → Bool → Uuid → QosRule → Exec PolicyTables QosRule
  unfolding normalize_qos_runtime_fields trim bump_node_desired_version_with
  create_tenant_node_qos_rule env bump id r = do
    created ← statement (
        insert_qos (
          with_nets (stored_cidr (trim r.src_cidr)) (stored_cidr (trim r.dst_cidr))
            (qos_row env id r)))
    bump_if bump env r.tenant_id r.node_id
    pure created

  -- updateTenantNodeQoSRule; it returns the rule that it was given, with its keys and time filled in
  unfoldable pub update_tenant_node_qos_rule :
      Env → Bool → Uuid → Uuid → Uuid → QosRule → Exec PolicyTables QosRule
  unfolding normalize_qos_runtime_fields trim bump_node_desired_version_with
  update_tenant_node_qos_rule env bump tenant node id r = do
    n ← statement (
        update_qos (fits (normalize_qos_runtime_fields r)) (is_qos tenant node id)
          (with_nets (stored_cidr r.src_cidr) (stored_cidr r.dst_cidr) (qos_changed env r)))
    unless (n == 0) no_rows
    bump_if bump env tenant node
    pure (record (normalize_qos_runtime_fields r) {
      id = id;
      tenant_id = tenant;
      node_id = node;
      updated_at = env.clock;
    })

  -- createTenantNodeBlacklistRule
  unfoldable pub create_tenant_node_blacklist_rule :
      Env → Bool → Uuid → BlacklistRule → Exec PolicyTables BlacklistRule
  unfolding trim bump_node_desired_version_with
  create_tenant_node_blacklist_rule env bump id r = do
    created ← statement (insert_blacklist (blacklist_row env id r (stored_cidr (trim r.cidr))))
    bump_if bump env r.tenant_id r.node_id
    pure created
