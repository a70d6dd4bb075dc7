-- ===== src/Policy/Store.antt =====
-- pkg/controllerstorage/network_policy.go: the tables of rules and the statements on them. A row of acl_rules has its
-- columns, which RETURNING and SELECT read each with their own expressions; a row of the other two tables is kept as
-- it is read, with its defaults filled in. The casts of PostgreSQL to the type cidr are a parameter, none when the text
-- is refused. The statistics and the delivery history of a rule are no columns of its table.
use aria.Prelude.{
  ℕ, String, pos, pos_part, ltzb, Bool, true, false, Option, none, some, List, [], ◌∷◌, ◌++◌, ◌&&◌,
  ◌||◌, not, str_eq, ◌==◌, ltb, if◌then◌else◌, trim, decimal, rows_where, find_where, update_where,
  delete_where, count_where, order_by, ℤ, lezb, get_or, map,
}
use aria.Sql.{
  no_rows, db_failure, Result, ok, err, Exec, pure, statement, run, query, ◌>>=◌, ◌>>◌, unless,
}
use aria.Storage.{Uuid, NodeControlState, Tables, Env}
use aria.Storage.ControlState.{upsert_state, blank_state}
use aria.Policy.Columns.{AclColumns, same_port, returned_acl, selected_acl}
use aria.Policy.{AclRule, QosRule, BlacklistRule}

-- the tables of rules beside the other tables
pub record PolicyTables : Type 0 where
  pub storage : Tables
  pub acl_rules : List AclColumns
  pub qos_rules : List QosRule
  pub blacklist_rules : List BlacklistRule

-- a call that touches the other tables alone
abbrev pub on_storage : {A : Type 0} → Exec Tables A → Exec PolicyTables A
on_storage m w =
    let out = m (record { db = w.db.storage; faults = w.faults }) in
    (out.0, record { db = record w.db { storage = out.1.db }; faults = out.1.faults })

abbrev pub wanted : Env → NodeControlState → NodeControlState
wanted env s = record s {
  desired_state_version = some env.version;
  desired_state_updated_at = some env.now;
  updated_at = env.now;
}

-- bumpNodeDesiredVersionWith
unfoldable pub bump_node_desired_version_with : Env → Uuid → Uuid → Exec PolicyTables (Unit {0})
bump_node_desired_version_with env tenant node = on_storage (
    run (λ db.
      let out = upsert_state node (wanted env (blank_state env tenant node)) (wanted env) db in
      (tt, out.1)))

abbrev pub bump_if : Bool → Env → Uuid → Uuid → Exec PolicyTables (Unit {0})
bump_if bump env tenant node =
    if bump then bump_node_desired_version_with env tenant node else pure tt

-- aclNetworkForSync
unfoldable pub acl_network_for_sync : String → String
unfolding trim
acl_network_for_sync cidr = if str_eq (trim cidr) "" then "0.0.0.0/0" else trim cidr

-- normalizeACLRuntimeFields
unfoldable pub normalize_acl_runtime_fields : AclRule → AclRule
unfolding trim decimal
normalize_acl_runtime_fields r = record r {
  direction = if str_eq (trim r.direction) "" then "ingress" else r.direction;
  ports =
      if str_eq (trim r.ports) "" && ltzb (pos 0) r.dst_port
      then decimal (pos_part r.dst_port)
      else r.ports;
}

abbrev pub is_acl : Uuid → Uuid → Uuid → AclColumns → Bool
is_acl tenant node id r = r.id == id && (r.tenant_id == tenant && r.node_id == node)

abbrev pub acl_first : AclColumns → AclColumns → Bool
acl_first a b =
    if ltzb a.priority b.priority
    then true
    else if ltzb b.priority a.priority
    then false
    else ltb a.created_at b.created_at

-- listTenantNodeACLRules
unfoldable pub list_tenant_node_acl_rules : Uuid → Uuid → Bool → Exec PolicyTables (List AclRule)
list_tenant_node_acl_rules tenant node enabled_only = query (λ db. map selected_acl (
    order_by acl_first (
      rows_where
        (λ (r : AclColumns).
          r.tenant_id == tenant && (r.node_id == node && (not enabled_only || r.enabled)))
        db.acl_rules)))

-- one row of a query, or sql.ErrNoRows
abbrev pub one_row : {A : Type 0} → Option A → Result A
one_row none = err no_rows
one_row (some r) = ok r

-- the scan of one row
abbrev pub read_row : Option AclColumns → Option AclRule
read_row none = none
read_row (some c) = some (selected_acl c)

-- GetTenantNodeACLRule
unfoldable pub get_tenant_node_acl_rule : Uuid → Uuid → Uuid → Exec PolicyTables AclRule
get_tenant_node_acl_rule tenant node id =
    statement (λ db. (one_row (read_row (find_where (is_acl tenant node id) db.acl_rules)), db))

-- deleteTenantNodeACLRuleByID
unfoldable pub delete_tenant_node_acl_rule_by_id :
    Env → Bool → Uuid → Uuid → Uuid → Exec PolicyTables (Unit {0})
unfolding bump_node_desired_version_with
delete_tenant_node_acl_rule_by_id env bump tenant node id = do
  n ← run (λ db. (
    count_where (is_acl tenant node id) db.acl_rules,
    record db { acl_rules = delete_where (is_acl tenant node id) db.acl_rules },
  ))
  unless (n == 0) no_rows
  bump_if bump env tenant node

abbrev pub with_nets :
    {A : Type 0} → Option String → Option String → (String → String → A) → Option A
with_nets none dst f = none
with_nets (some src) none f = none
with_nets (some src) (some dst) f = some (f src dst)

-- NULLIF(text, '')::cidr, where the cast of the network gave net
abbrev pub own_net : String → String → Option String
own_net text net = if str_eq text "" then none else some net

-- nullableInt
abbrev pub nullable_int : ℤ → Option ℤ
nullable_int n = if same_port n (pos 0) then none else some n

-- aclPortRangeForSync
abbrev pub lowest_port : ℤ → ℤ
lowest_port n = if lezb n (pos 0) then pos 0 else n

abbrev pub highest_port : ℤ → ℤ
highest_port n = if lezb n (pos 0) then pos 65535 else n

-- the row of the INSERT, with the networks that the casts give
abbrev pub acl_row : Env → Uuid → AclRule → String → String → AclColumns
acl_row env id r src dst =
    let x = normalize_acl_runtime_fields r in
    record {
      id = id;
      tenant_id = r.tenant_id;
      node_id = r.node_id;
      name = some (trim r.name);
      action = r.action;
      src_group_id = r.src_group_id;
      dst_group_id = r.dst_group_id;
      src_cidr = own_net (trim r.src_cidr) src;
      dst_cidr = own_net (trim r.dst_cidr) dst;
      dst_port = nullable_int r.dst_port;
      protocol = some r.protocol;
      direction = some x.direction;
      ports = some x.ports;
      priority = r.priority;
      enabled = r.enabled;
      description = some (trim r.description);
      src_net = src;
      dst_net = dst;
      min_port = lowest_port r.dst_port;
      max_port = highest_port r.dst_port;
      created_at = env.now;
      updated_at = env.now;
    }

abbrev pub insert_acl : Option AclColumns → PolicyTables → Result AclRule × PolicyTables
insert_acl none db = (err db_failure, db)
insert_acl (some c) db = (ok (returned_acl c), record db { acl_rules = db.acl_rules ++ c ∷ [] })

-- the SET clause of the UPDATE, with the networks of the texts as they stand, and of the texts as they are synced
abbrev pub acl_changed :
    (String → Option String) → Env → AclRule → String → String → AclColumns → AclColumns
acl_changed cidr env r src dst old =
    let x = normalize_acl_runtime_fields r in
    record old {
      name = some (trim r.name);
      action = r.action;
      src_group_id = r.src_group_id;
      dst_group_id = r.dst_group_id;
      src_cidr = own_net r.src_cidr src;
      dst_cidr = own_net r.dst_cidr dst;
      dst_port = some r.dst_port;
      protocol = some r.protocol;
      direction = some x.direction;
      ports = some x.ports;
      priority = r.priority;
      description = some r.description;
      enabled = r.enabled;
      src_net = get_or (cidr (acl_network_for_sync r.src_cidr)) "";
      dst_net = get_or (cidr (acl_network_for_sync r.dst_cidr)) "";
      min_port = lowest_port r.dst_port;
      max_port = highest_port r.dst_port;
      updated_at = env.now;
    }

abbrev pub update_acl :
    (AclColumns → Bool) → Option (AclColumns → AclColumns) → PolicyTables → Result ℕ × PolicyTables
update_acl p none db = (err db_failure, db)
update_acl p (some f) db =
    (ok (count_where p db.acl_rules), record db { acl_rules = update_where p f db.acl_rules })

module _ (cidr : String → Option String) where
  -- the network of a new ACL rule: COALESCE(src_cidr::text, src_net::text, '')
  abbrev pub inserted_net : String → Option String
  inserted_net text = cidr (acl_network_for_sync text)

  -- the network of a changed ACL rule, whose own text is cast as it stands
  abbrev pub updated_net : String → Option String
  updated_net text = elim (cidr (acl_network_for_sync text)) [
    | none ↦ none
    | some net ↦ if str_eq text "" then some net else cidr text
  ]

  -- createTenantNodeACLRule; the table gives a new row its identifier
  unfoldable pub create_tenant_node_acl_rule :
      Env → Bool → Uuid → AclRule → Exec PolicyTables AclRule
  unfolding normalize_acl_runtime_fields acl_network_for_sync trim bump_node_desired_version_with
  create_tenant_node_acl_rule env bump id r = do
    created ← statement (
        insert_acl
          (with_nets (inserted_net r.src_cidr) (inserted_net r.dst_cidr) (acl_row env id r)))
    bump_if bump env r.tenant_id r.node_id
    pure created

  -- updateTenantNodeACLRule; it returns the rule that it was given, with its keys and time filled in
  unfoldable pub update_tenant_node_acl_rule :
      Env → Bool → Uuid → Uuid → Uuid → AclRule → Exec PolicyTables AclRule
  unfolding normalize_acl_runtime_fields acl_network_for_sync trim bump_node_desired_version_with
  update_tenant_node_acl_rule env bump tenant node id r = do
    n ← statement (
        update_acl (is_acl tenant node id)
          (with_nets (updated_net r.src_cidr) (updated_net r.dst_cidr) (acl_changed cidr env r)))
    unless (n == 0) no_rows
    bump_if bump env tenant node
    pure (record (normalize_acl_runtime_fields r) {
      id = id;
      tenant_id = tenant;
      node_id = node;
      name = trim r.name;
      updated_at = env.clock;
    })
