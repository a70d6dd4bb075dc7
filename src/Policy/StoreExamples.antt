-- ===== src/Policy/StoreExamples.antt =====
-- Runs of the writes of rules on concrete tables.
use aria.Prelude.{
  ℕ, String, pos, Bool, true, false, Option, none, some, List, [], ◌∷◌, ◌≡◌, refl, ◌⊎◌, str_eq,
  if◌then◌else◌, longest,
}
use aria.Sql.{Error, db_failure, ok, err, World, Exec, pure, ◌>>◌}
use aria.Storage.{Env}
use aria.Storage.Evolution.{id_of}
use aria.Storage.PolicySync.{PolicySyncRequest, PolicySyncResult}
use aria.Policy.{AclRule}
use aria.Policy.ReadBack.{given, create_tenant_node_acl_rule-get}
use aria.Policy.Columns.{AclColumns, returned_acl}
use aria.Policy.Store.{
  acl_network_for_sync, get_tenant_node_acl_rule, PolicyTables, create_tenant_node_acl_rule,
  delete_tenant_node_acl_rule_by_id,
}
use aria.Policy.Mutation.{delete_acl, policy_write, change_and_queue, mutate_policy_and_queue_sync}
use aria.Policy.OtherNodes.{elsewhere}
use aria.Policy.Writes.{policy_write-apart}
use aria.Policy.AllOrNothing.{begun, without_audit, mutate_policy_and_queue_sync-atomic}
use aria.Policy.HalfDone.{delete_acl-half_done}
use aria.Policy.Desired.{IsAsked, policy_write-IsAsked}

abbrev env : Env
env = record {
  now = 100;
  clock = 101;
  command_id = longest id_of;
  alert_id = λ t. 7;
  version = "v9";
  decimal = λ n. "1";
}

abbrev rule : ℕ → ℕ → AclRule
rule id node = record {
  id = id;
  tenant_id = 1;
  node_id = node;
  name = " web ";
  action = "deny";
  src_cidr = "";
  dst_cidr = "10.0.0.0/8";
  src_group_id = none;
  dst_group_id = none;
  src_group = none;
  dst_group = none;
  dst_port = pos 443;
  protocol = pos 6;
  direction = "";
  ports = "";
  priority = pos 10;
  enabled = true;
  description = "";
  created_at = 5;
  updated_at = 5;
}

-- the row that the INSERT makes of the rule
abbrev stored : ℕ → ℕ → AclColumns
stored id node = record {
  id = id;
  tenant_id = 1;
  node_id = node;
  name = some "web";
  action = "deny";
  src_group_id = none;
  dst_group_id = none;
  src_cidr = none;
  dst_cidr = some "10.0.0.0/8";
  dst_port = some (pos 443);
  protocol = some (pos 6);
  direction = some "ingress";
  ports = some "443";
  priority = pos 10;
  enabled = true;
  description = some "";
  src_net = "0.0.0.0/0";
  dst_net = "10.0.0.0/8";
  min_port = pos 443;
  max_port = pos 443;
  created_at = 100;
  updated_at = 100;
}

-- the rule that is read from it
abbrev read_back : ℕ → ℕ → AclRule
read_back id node = record (rule id node) {
  name = "web";
  src_cidr = "0.0.0.0/0";
  direction = "ingress";
  ports = "443";
  created_at = 100;
  updated_at = 100;
}

abbrev tables : PolicyTables
tables = record {
  storage = record {
    commands = [];
    deliveries = [];
    states = [];
    nodes = [];
    tenants = [];
    users = [];
    certificates = [];
    audit_events = [];
    alerts = [];
  };
  acl_rules = stored 7 4 ∷ stored 8 5 ∷ [];
  qos_rules = [];
  blacklist_rules = [];
}

abbrev world : List Bool → World PolicyTables
world faults = record { db = tables; faults = faults }

-- the casts of the texts that occur
abbrev cidr : String → Option String
cidr text = if str_eq text "any" then none else some text

abbrev request : PolicySyncRequest
request = record {
  tenant_id = 1;
  node_id = 4;
  node_public_key = "k1";
  domain = "acl";
  action = "delete";
  policy_ref = "7";
  policy_name = "";
  desired_state_version = "v2";
  desired_metadata = [];
  command_params = [];
  delivery_metadata = [];
  priority = pos 0;
  timeout_seconds = pos 0;
}

abbrev removal : Exec PolicyTables PolicySyncRequest
removal = delete_tenant_node_acl_rule_by_id env false 1 4 7 >> pure request

delete_acl-half_done_example :
    ((delete_tenant_node_acl_rule_by_id env true 1 4 7 (world (false ∷ true ∷ []))).0
      ≡ err db_failure)
    × ((delete_tenant_node_acl_rule_by_id env true 1 4 7 (world (false ∷ true ∷ []))).1.db
        ≡ record tables { acl_rules = stored 8 5 ∷ [] })
delete_acl-half_done_example = delete_acl-half_done env 1 4 7 tables [] refl

policy_write-apart_example :
    elsewhere 1 4 (policy_write cidr env true 1 4 (delete_acl 7) (world [])).1.db
    ≡ elsewhere 1 4 tables
policy_write-apart_example = policy_write-apart 1 4 env cidr true (delete_acl 7) (world [])

deleted : (policy_write cidr env true 1 4 (delete_acl 7) (world [])).0 ≡ ok tt
unfolding policy_write
deleted = refl

policy_write-IsAsked_example :
    IsAsked 1 4 env (policy_write cidr env true 1 4 (delete_acl 7) (world [])).1.db
policy_write-IsAsked_example = policy_write-IsAsked 1 4 env cidr (delete_acl 7) (world []) deleted

mutate_policy_and_queue_sync-atomic_example :
    ((e : Error) × ((mutate_policy_and_queue_sync env removal (world [])).0 ≡ err e)
      × ((mutate_policy_and_queue_sync env removal (world [])).1.db ≡ tables))
    ⊎ ((req : PolicySyncRequest) × (result : PolicySyncResult) × ((change_and_queue env removal
            (begun (world []))).0
          ≡ ok (req, result))
        × ((mutate_policy_and_queue_sync env removal (world [])).0 ≡ ok result)
        × (without_audit (mutate_policy_and_queue_sync env removal (world [])).1.db
            ≡ without_audit (change_and_queue env removal (begun (world []))).1.db))
mutate_policy_and_queue_sync-atomic_example =
    mutate_policy_and_queue_sync-atomic env removal (world [])

created : (create_tenant_node_acl_rule cidr env true 9 (rule 0 4) (world [])).0 ≡ ok (read_back 9 4)
unfolding create_tenant_node_acl_rule returned_acl
created = refl

create_tenant_node_acl_rule-get_example :
    (s : String) × (d : String) × (cidr (acl_network_for_sync "") ≡ some s)
    × (cidr (acl_network_for_sync "10.0.0.0/8") ≡ some d)
    × (read_back 9 4 ≡ given env 9 (rule 0 4) s d)
    × ((get_tenant_node_acl_rule 1 4 9 (record {
      db = (create_tenant_node_acl_rule cidr env true 9 (rule 0 4) (world [])).1.db;
      faults = [];
    })).0
        ≡ ok (read_back 9 4))
create_tenant_node_acl_rule-get_example =
    create_tenant_node_acl_rule-get cidr env true 9 (rule 0 4) (world []) (read_back 9 4) refl
      created
