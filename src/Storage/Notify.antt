-- ===== src/Storage/Notify.antt =====
-- pkg/controllerstorage/agent_commands.go: the alerts and audit events that follow a command's result.
use aria.Prelude.{String, Bool, Option, none, some, List, [], ◌∷◌, str_eq, str_append, rows_where}
use aria.Sql.{Exec, pure, query, ◌>>=◌, ◌>>◌, attempt}
use aria.Storage.{
  text, Params, CommandStatus, completed, failed, AgentCommand, PolicyDelivery, AuditEvent, Node,
  Tables, Env,
}
use aria.Storage.ControlState.{command_with_node}
use aria.Storage.Generators.{generate_sync_failed_alert, generate_policy_failed_alert}
use aria.Storage.Alerts.{create_audit_event}

abbrev pub of_command : String → PolicyDelivery → Bool
of_command id d = str_eq d.command_id id

abbrev pub result_event : Node → String → Params → AuditEvent
result_event n summary detail = record {
  tenant_id = n.tenant_id;
  node_id = some n.id;
  event_type = "command.result";
  actor = "system";
  summary = summary;
  detail = detail;
}

unfoldable pub policy_event : Node → String → String → Params → AuditEvent
policy_event n kind summary detail = record (result_event n summary detail) { event_type = kind }

abbrev pub slash : String → String → String
slash a b = str_append a (str_append "/" b)

-- one row of emitPolicyDeliveryAlertAndAudit
unfoldable pub emit_for_delivery :
    Env → Node → String → CommandStatus → String → PolicyDelivery → Exec Tables (Unit {0})
unfolding policy_event create_audit_event generate_policy_failed_alert
emit_for_delivery env n id failed error d = do
  attempt (generate_policy_failed_alert env n.tenant_id n.id d.policy_domain d.policy_ref id error)
  attempt (
      create_audit_event (
        policy_event n "policy_failed" (str_append "策略下发失败: " (slash d.policy_domain d.policy_ref))
          (("command_id", text id)
            ∷ ("policy_domain", text d.policy_domain)
            ∷ ("policy_ref", text d.policy_ref)
            ∷ ("error", text error)
            ∷ [])))
emit_for_delivery env n id completed error d = attempt (
    create_audit_event (
      policy_event n "policy_delivered" (str_append "策略下发成功: " (slash d.policy_domain d.policy_ref))
        (("command_id", text id)
          ∷ ("policy_domain", text d.policy_domain)
          ∷ ("policy_ref", text d.policy_ref)
          ∷ [])))
emit_for_delivery env n id _ error d = pure tt

unfoldable pub emit_for_deliveries :
    Env → Node → String → CommandStatus → String → List PolicyDelivery → Exec Tables (Unit {0})
unfolding emit_for_delivery
emit_for_deliveries env n id status error [] = pure tt
emit_for_deliveries env n id status error (d ∷ ds) = do
  emit_for_delivery env n id status error d
  emit_for_deliveries env n id status error ds

-- the part of emitCommandAlertAndAudit about the command itself
unfoldable pub emit_for_command :
    Env → Node → AgentCommand → CommandStatus → String → Exec Tables (Unit {0})
unfolding create_audit_event generate_sync_failed_alert
emit_for_command env n c failed error = do
  attempt (generate_sync_failed_alert env n.tenant_id n.id c.id error)
  attempt (
      create_audit_event (
        result_event n (str_append "命令执行失败: " c.command)
          (("command_id", text c.id) ∷ ("status", text "failed") ∷ ("error", text error) ∷ [])))
emit_for_command env n c completed error = attempt (
    create_audit_event (
      result_event n (str_append "命令执行成功: " c.command)
        (("command_id", text c.id) ∷ ("status", text "completed") ∷ [])))
emit_for_command env n c _ error = pure tt

unfoldable pub emit_found :
    Env → CommandStatus → String → Option (AgentCommand × Node) → Exec Tables (Unit {0})
unfolding emit_for_command emit_for_deliveries
emit_found env status error none = pure tt
emit_found env status error (some (c, n)) = do
  emit_for_command env n c status error
  ds ← query (λ db. rows_where (of_command c.id) db.deliveries)
  emit_for_deliveries env n c.id status error ds

-- emitCommandAlertAndAudit: every error is logged and dropped
unfoldable pub emit_command_alert_and_audit :
    Env → String → CommandStatus → String → Exec Tables (Unit {0})
unfolding emit_found
emit_command_alert_and_audit env id status error =
    attempt (do found ← query (command_with_node id); emit_found env status error found)
