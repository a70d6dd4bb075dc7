-- ===== src/Storage/LifecycleExamples.antt =====
-- Policy syncs, transitions of nodes and certificates on concrete tables.
use aria.Prelude.{
  pos, ◌≡◌, refl, none, some, [], ◌∷◌, find_where, count_where, longest, All, ltb, ◌&&◌,
}
use aria.Sql.{World, ok}
use aria.Storage.{
  sent, NodeCertificate, issued, cert_expired, cert_status_eq, AgentCommand, PolicyDelivery, Node,
  Tables, Env,
}
use aria.Storage.Command.{new_command}
use aria.Storage.ControlState.{desire, blank_state}
use aria.Storage.Evolution.{id_of}
use aria.Storage.Certificates.{
  is_of_node, expired_certificate, mark_expired_node_certificates,
  list_certificates_expiring_before,
}
use aria.Storage.Lifecycle.{
  NodeLifecycleTransition, node_status_stops_commands, has_public_key,
  apply_node_lifecycle_transition,
}
use aria.Storage.PolicySync.{
  PolicySyncRequest, PolicySyncResult, normalize_policy_sync_request, is_open_delivery,
  new_delivery, queue_in_transaction,
}
use aria.Storage.Superseding.{Queued, queue_sync-supersedes}
use aria.Storage.Normalizing.{normalize-idempotent}
use aria.Storage.Suspension.{Stopped, transition-stops}
use aria.Storage.Expiry.{IsMarked, HasTime, mark_expired-lists}
use aria.Storage.Batch.{queue_agent_commands}
use aria.Storage.OneByOne.{queue_each, calm, queue_agent_commands-queue_each}

abbrev env : Env
env = record {
  now = 100;
  clock = 100;
  command_id = longest id_of;
  alert_id = λ t. 7;
  version = "v9";
  decimal = λ n. "1";
}

abbrev old_command : AgentCommand
old_command = record (new_command env "c1" "k1" "sync" [] (pos 1) (pos 30)) { status = sent }

abbrev old_delivery : PolicyDelivery
old_delivery = record {
  tenant_id = 1;
  node_id = 4;
  policy_domain = "acl";
  policy_ref = "p";
  policy_name = "";
  action = "apply";
  command_id = "c1";
  command_status = sent;
  last_error = "";
  metadata = [];
  created_at = 10;
  updated_at = 10;
  completed_at = none;
}

abbrev certificate : NodeCertificate
certificate = record {
  tenant_id = 1;
  node_id = 4;
  serial_number = "s";
  cert_pem = "";
  ca_pem = "";
  not_before = 0;
  not_after = 90;
  status = issued;
  issued_at = 0;
  revoked_at = none;
  revoke_reason = "";
  renewed_from = none;
  updated_at = 0;
}

abbrev node : Node
node = record {
  id = 4;
  tenant_id = 1;
  public_key = "k1";
  hostname = "h";
  status = some "online";
  runtime_token_version = none;
  updated_at = 1;
}

abbrev world : World Tables
world = record {
  db = record {
    commands = old_command ∷ [];
    deliveries = old_delivery ∷ [];
    states = [];
    nodes = node ∷ [];
    tenants = [];
    users = [];
    certificates = certificate ∷ [];
    audit_events = [];
    alerts = [];
  };
  faults = [];
}

abbrev request : PolicySyncRequest
request = record {
  tenant_id = 1;
  node_id = 4;
  node_public_key = "k1";
  domain = "acl";
  action = "apply";
  policy_ref = "q";
  policy_name = "";
  desired_state_version = "v2";
  desired_metadata = [];
  command_params = [];
  delivery_metadata = [];
  priority = pos 0;
  timeout_seconds = pos 0;
}

abbrev queued_command : AgentCommand
queued_command = new_command env "kc1" "k1" "sync" [] (pos 0) (pos 30)

abbrev queued : PolicySyncResult
queued = record {
  version = "v2";
  control_state = desire env 1 "v2" [] (blank_state env 1 4);
  command = queued_command;
  delivery = some (new_delivery env request queued_command);
}

queue_sync-supersedes_example :
    Queued env request queued_command world.db (queue_in_transaction env request world).1.db
    × (count_where (is_open_delivery 1 4) (queue_in_transaction env request world).1.db.deliveries
        ≡ 1)
unfolding normalize_policy_sync_request queue_in_transaction
queue_sync-supersedes_example = queue_sync-supersedes env request request world queued refl refl

normalize-idempotent_example : normalize_policy_sync_request env request ≡ ok request
unfolding normalize_policy_sync_request
normalize-idempotent_example =
    normalize-idempotent env (record request { action = " apply " }) request refl refl refl

abbrev ban : NodeLifecycleTransition
ban = record {
  target_status = "Banned";
  revoke_reason = "";
  audit_event_type = "node.banned";
  audit_actor = "admin";
  audit_summary = "";
  audit_detail = [];
}

transition-stops_example :
    (n : Node) × (find_where (has_public_key "k1") world.db.nodes ≡ some n)
    × (record node { status = some "banned" } ≡ record n { status = some "banned" })
    × Stopped 100 "k1" "banned" n (apply_node_lifecycle_transition env "k1" ban world).1.db
unfolding node_status_stops_commands apply_node_lifecycle_transition
transition-stops_example =
    transition-stops env "k1" ban world (record node { status = some "banned" }) refl refl

mark_expired-lists_example :
    (1
      ≡ count_where
          (λ (x : NodeCertificate). cert_status_eq x.status issued && ltb x.not_after 95)
          world.db.certificates)
    × All (IsMarked 95 100) (expired_certificate 100 certificate ∷ [])
    × (find_where (is_of_node 4) (mark_expired_node_certificates env 95 world).1.db.certificates
        ≡ some (record certificate { status = cert_expired; updated_at = 100 }))
    × All (HasTime 95) []
unfolding mark_expired_node_certificates list_certificates_expiring_before
mark_expired-lists_example =
    mark_expired-lists env 95 200 world (expired_certificate 100 certificate ∷ []) [] 4 certificate
      refl refl refl

queue_agent_commands-queue_each_example :
    queue_agent_commands env ("k1" ∷ "k2" ∷ []) " sync" [] (pos 1) (pos 0) (calm world.db)
    ≡ queue_each env ("k1" ∷ "k2" ∷ []) " sync" [] (pos 1) (pos 0) (calm world.db)
queue_agent_commands-queue_each_example =
    queue_agent_commands-queue_each env ("k1" ∷ "k2" ∷ []) " sync" [] (pos 1) (pos 0) world.db
      ((refl, tt), (tt, tt)) refl
