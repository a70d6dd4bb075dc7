-- ===== src/Storage/PolicySync.antt =====
-- pkg/controllerstorage/policy_sync.go: queueing a policy sync. One transaction sets the desired state of the
-- node, makes the older syncs stale, and queues the command and its delivery.
use aria.Prelude.{
  ℕ, String, ℤ, Bool, true, false, Option, none, some, List, [], ◌∷◌, ◌++◌, ◌==◌, ◌&&◌, str_eq,
  str_append, if◌then◌else◌, update_where, trim,
}
use aria.Sql.{
  message, Result, ok, err, Exec, pure, fail, run, ◌>>=◌, ◌>>◌, attempt, commit, transaction,
}
use aria.Storage.{
  Uuid, text, Params, stale, is_incomplete, AgentCommand, PolicyDelivery, NodeControlState,
  AuditEvent, Tables, Env,
}
use aria.Storage.Alerts.{create_audit_event}
use aria.Storage.Command.{of_node, queue_agent_command}
use aria.Storage.ControlState.{upsert_node_desired_state}

pub record PolicySyncRequest : Type 0 where
  pub tenant_id : Uuid
  pub node_id : Uuid
  pub node_public_key : String
  pub domain : String
  pub action : String
  pub policy_ref : String
  pub policy_name : String
  pub desired_state_version : String
  pub desired_metadata : Params
  pub command_params : Params
  pub delivery_metadata : Params
  pub priority : ℤ
  pub timeout_seconds : ℤ

pub record PolicySyncResult : Type 0 where
  pub version : String
  pub control_state : NodeControlState
  pub command : AgentCommand
  pub delivery : Option PolicyDelivery

abbrev pub trimmed : Env → PolicySyncRequest → PolicySyncRequest
trimmed env r = record r {
  node_public_key = trim r.node_public_key;
  domain = trim r.domain;
  action = trim r.action;
  policy_ref = trim r.policy_ref;
  policy_name = trim r.policy_name;
  desired_state_version =
      if str_eq (trim r.desired_state_version) ""
      then env.version
      else trim r.desired_state_version;
}

-- normalizePolicySyncRequest; a missing map is an empty one
unfoldable pub normalize_policy_sync_request : Env → PolicySyncRequest → Result PolicySyncRequest
unfolding trim
normalize_policy_sync_request env r =
    if r.tenant_id == 0
    then err (message "tenant id is required")
    else if r.node_id == 0
    then err (message "node id is required")
    else if str_eq (trim r.node_public_key) ""
    then err (message "node public key is required")
    else if str_eq (trim r.domain) ""
    then err (message "policy domain is required")
    else if str_eq (trim r.action) ""
    then err (message "policy action is required")
    else ok (trimmed env r)

-- pd.tenant_id = $7 AND pd.node_id = $8 AND pd.command_status IN (pending, sent, acknowledged)
abbrev pub is_open_delivery : Uuid → Uuid → PolicyDelivery → Bool
is_open_delivery tenant node d =
    d.tenant_id == tenant && (d.node_id == node && is_incomplete d.command_status)

-- EXISTS (SELECT 1 FROM policy_deliveries pd WHERE pd.command_id = ac.id AND ...)
abbrev pub has_open_delivery : Uuid → Uuid → List PolicyDelivery → AgentCommand → Bool
has_open_delivery tenant node [] c = false
has_open_delivery tenant node (d ∷ ds) c =
    let rest = has_open_delivery tenant node ds c in
    if str_eq d.command_id c.id && is_open_delivery tenant node d then true else rest

abbrev pub is_superseded : PolicySyncRequest → List PolicyDelivery → AgentCommand → Bool
is_superseded r ds c =
    of_node r.node_public_key c
    && (is_incomplete c.status && has_open_delivery r.tenant_id r.node_id ds c)

abbrev pub stale_command : ℕ → String → AgentCommand → AgentCommand
stale_command now note c = record c {
  status = stale;
  message = note;
  updated_at = now;
  completed_at = some now;
}

abbrev pub stale_delivery : ℕ → String → PolicyDelivery → PolicyDelivery
stale_delivery now note d = record d {
  command_status = stale;
  last_error = note;
  updated_at = now;
  completed_at = some now;
}

-- markSupersededPolicySyncsTx
unfoldable pub mark_superseded_policy_syncs_tx : Env → PolicySyncRequest → Exec Tables (Unit {0})
mark_superseded_policy_syncs_tx env r =
    let note = str_append "superseded by desired state " r.desired_state_version in
    do
      run (λ db. (
        tt,
        record db {
          commands =
              update_where (is_superseded r db.deliveries) (stale_command env.now note) db.commands;
        },
      ))
      run (λ db. (
        tt,
        record db {
          deliveries =
              update_where (is_open_delivery r.tenant_id r.node_id) (stale_delivery env.now note)
                db.deliveries;
        },
      ))

abbrev pub new_delivery : Env → PolicySyncRequest → AgentCommand → PolicyDelivery
new_delivery env r c = record {
  tenant_id = r.tenant_id;
  node_id = r.node_id;
  policy_domain = r.domain;
  policy_ref = r.policy_ref;
  policy_name = r.policy_name;
  action = r.action;
  command_id = c.id;
  command_status = c.status;
  last_error = "";
  metadata = r.delivery_metadata;
  created_at = env.now;
  updated_at = env.now;
  completed_at = none;
}

-- createPolicyDelivery
unfoldable pub create_policy_delivery : PolicyDelivery → Exec Tables PolicyDelivery
create_policy_delivery d = run (λ db. (d, record db { deliveries = db.deliveries ++ d ∷ [] }))

-- the delivery of a sync that names a policy
unfoldable pub deliver :
    Env → PolicySyncRequest → AgentCommand → Exec Tables (Option PolicyDelivery)
unfolding create_policy_delivery
deliver env r c =
    if str_eq r.policy_ref ""
    then pure none
    else (do d ← create_policy_delivery (new_delivery env r c); pure (some d))

-- queuePolicySyncTx, on a normalised request
unfoldable pub queue_normalized : Env → PolicySyncRequest → Exec Tables PolicySyncResult
unfolding upsert_node_desired_state mark_superseded_policy_syncs_tx queue_agent_command deliver
queue_normalized env r = do
  state ←
      upsert_node_desired_state env r.tenant_id r.node_id r.desired_state_version r.desired_metadata
  mark_superseded_policy_syncs_tx env r
  command ←
      queue_agent_command env r.node_public_key "sync" r.command_params r.priority r.timeout_seconds
  delivery ← deliver env r command
  pure (record {
    version = r.desired_state_version;
    control_state = state;
    command = command;
    delivery = delivery;
  })

abbrev pub on_result {ℓ} : {S A B : Type ℓ} → Result A → (A → Exec S B) → Exec S B
on_result (ok a) f = f a
on_result (err e) f = fail e

unfoldable pub queue_policy_sync_tx : Env → PolicySyncRequest → Exec Tables PolicySyncResult
unfolding normalize_policy_sync_request queue_normalized
queue_policy_sync_tx env r = on_result (normalize_policy_sync_request env r) (queue_normalized env)

abbrev pub queued_event : PolicySyncRequest → AgentCommand → AuditEvent
queued_event r c = record {
  tenant_id = r.tenant_id;
  node_id = some r.node_id;
  event_type = "command.queued";
  actor = "controller";
  summary = str_append "Command queued: " c.command;
  detail =
      ("command_id", text c.id)
      ∷ ("command", text c.command)
      ∷ ("policy_domain", text r.domain)
      ∷ ("policy_ref", text r.policy_ref)
      ∷ ("desired_state_version", text r.desired_state_version)
      ∷ [];
}

-- recordCommandQueuedAudit
unfoldable pub record_command_queued_audit :
    PolicySyncRequest → AgentCommand → Exec Tables (Unit {0})
unfolding create_audit_event
record_command_queued_audit r c = attempt (create_audit_event (queued_event r c))

-- the transaction of QueuePolicySync
unfoldable pub queue_in_transaction : Env → PolicySyncRequest → Exec Tables PolicySyncResult
unfolding queue_policy_sync_tx
queue_in_transaction env r =
    transaction (do result ← queue_policy_sync_tx env r; pure (commit result))

-- QueuePolicySync
unfoldable pub queue_policy_sync : Env → PolicySyncRequest → Exec Tables PolicySyncResult
unfolding normalize_policy_sync_request queue_in_transaction record_command_queued_audit
queue_policy_sync env request = on_result (normalize_policy_sync_request env request) (λ r. do
  result ← queue_in_transaction env r
  record_command_queued_audit r result.command
  pure result)
