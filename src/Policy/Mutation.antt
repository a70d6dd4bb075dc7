-- ===== src/Policy/Mutation.antt =====
-- pkg/controllerstorage/policy_sync.go: a change of rules and the sync that follows it, in one transaction.
use aria.Prelude.{String, ℤ, Bool, Option}
use aria.Sql.{Exec, pure, ◌>>=◌, ◌>>◌, commit, transaction}
use aria.Storage.{Uuid, Env}
use aria.Storage.PolicySync.{
  PolicySyncRequest, PolicySyncResult, queue_policy_sync_tx, record_command_queued_audit,
}
use aria.Policy.{AclRule, QosRule, BlacklistRule}
use aria.Policy.Store.{
  PolicyTables, on_storage, create_tenant_node_acl_rule, update_tenant_node_acl_rule,
  delete_tenant_node_acl_rule_by_id,
}
use aria.Policy.QosStore.{
  create_tenant_node_qos_rule, update_tenant_node_qos_rule, delete_tenant_node_qos_rule,
  create_tenant_node_blacklist_rule, delete_tenant_node_blacklist_rule_by_id,
  delete_tenant_node_port_blacklist_rule,
}

-- the change and the sync
unfoldable pub change_and_queue :
    Env
    → Exec PolicyTables PolicySyncRequest
    → Exec PolicyTables (PolicySyncRequest × PolicySyncResult)
unfolding queue_policy_sync_tx
change_and_queue env mutate = do
  req ← mutate
  result ← on_storage (queue_policy_sync_tx env req)
  pure (req, result)

-- the transaction of MutatePolicyAndQueueSync
unfoldable pub mutate_in_transaction :
    Env
    → Exec PolicyTables PolicySyncRequest
    → Exec PolicyTables (PolicySyncRequest × PolicySyncResult)
unfolding change_and_queue
mutate_in_transaction env mutate =
    transaction (do out ← change_and_queue env mutate; pure (commit out))

-- MutatePolicyAndQueueSync
unfoldable pub mutate_policy_and_queue_sync :
    Env → Exec PolicyTables PolicySyncRequest → Exec PolicyTables PolicySyncResult
unfolding mutate_in_transaction record_command_queued_audit
mutate_policy_and_queue_sync env mutate = do
  out ← mutate_in_transaction env mutate
  on_storage (record_command_queued_audit out.0 out.1.command)
  pure out.1

-- One write of rules for a node of a tenant: what it does, and what it is given. The Boolean says whether it sets
-- the desired version of the node itself, as the methods of Storage do and those of PolicyMutationTx do not.
-- `delete_port` is a method of Storage alone, and sets no version.
pub data PolicyWrite : Type 0 where
  create_acl : Uuid → AclRule → PolicyWrite
  update_acl : Uuid → AclRule → PolicyWrite
  delete_acl : Uuid → PolicyWrite
  create_qos : Uuid → QosRule → PolicyWrite
  update_qos : Uuid → QosRule → PolicyWrite
  delete_qos : Uuid → PolicyWrite
  create_blacklist : Uuid → BlacklistRule → PolicyWrite
  delete_blacklist : String → Uuid → PolicyWrite
  delete_port : ℤ → PolicyWrite

module _ (cidr : String → Option String) where
  unfoldable pub policy_write :
      Env → Bool → Uuid → Uuid → PolicyWrite → Exec PolicyTables (Unit {0})
  unfolding create_tenant_node_acl_rule update_tenant_node_acl_rule
      delete_tenant_node_acl_rule_by_id create_tenant_node_qos_rule update_tenant_node_qos_rule
      delete_tenant_node_qos_rule create_tenant_node_blacklist_rule
      delete_tenant_node_blacklist_rule_by_id delete_tenant_node_port_blacklist_rule
  policy_write env bump t n (create_acl id r) =
      create_tenant_node_acl_rule cidr env bump id (record r { tenant_id = t; node_id = n })
      >> pure tt
  policy_write env bump t n (update_acl id r) =
      update_tenant_node_acl_rule cidr env bump t n id r >> pure tt
  policy_write env bump t n (delete_acl id) = delete_tenant_node_acl_rule_by_id env bump t n id
  policy_write env bump t n (create_qos id r) =
      create_tenant_node_qos_rule cidr env bump id (record r { tenant_id = t; node_id = n })
      >> pure tt
  policy_write env bump t n (update_qos id r) =
      update_tenant_node_qos_rule cidr env bump t n id r >> pure tt
  policy_write env bump t n (delete_qos id) = delete_tenant_node_qos_rule env bump t n id
  policy_write env bump t n (create_blacklist id r) =
      create_tenant_node_blacklist_rule cidr env bump id (record r { tenant_id = t; node_id = n })
      >> pure tt
  policy_write env bump t n (delete_blacklist scope id) =
      delete_tenant_node_blacklist_rule_by_id env bump t n scope id
  policy_write env bump t n (delete_port port) = delete_tenant_node_port_blacklist_rule env t n port
