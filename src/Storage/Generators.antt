-- ===== src/Storage/Generators.antt =====
-- pkg/controllerstorage/alert_generator.go: alerts that the controller raises and clears by itself.
use aria.Prelude.{String, Option, none, some, [], ◌∷◌, str_append}
use aria.Sql.{Exec, pure, ◌>>=◌, ◌>>◌, attempt, handle}
use aria.Storage.{Uuid, text, Params, AuditEvent, Alert, Tables, Env}
use aria.Storage.Alerts.{
  NewAlert, create_audit_event, create_alert, resolve_alert, get_active_alert_by_node_and_type,
}

-- the audit event of an alert
abbrev pub system_event : Uuid → Uuid → String → String → AuditEvent
system_event tenant node kind summary = record {
  tenant_id = tenant;
  node_id = some node;
  event_type = kind;
  actor = "system";
  summary = summary;
  detail = [];
}

-- The generators share a body: nothing when an active alert of the type is there, else a new alert.
abbrev pub unless_active : Option Alert → Exec Tables (Unit {0}) → Exec Tables (Unit {0})
unless_active none create = create
unless_active (some a) create = pure tt

abbrev pub insert_alert : Env → NewAlert → Exec Tables (Unit {0})
insert_alert env a = do create_alert env a; pure tt

unfoldable pub generate_alert : Env → Uuid → Uuid → NewAlert → Exec Tables (Unit {0})
unfolding get_active_alert_by_node_and_type create_alert
generate_alert env tenant node a = do
  existing ← get_active_alert_by_node_and_type tenant node a.alert_type
  unless_active existing (insert_alert env a)

abbrev pub node_offline_alert : Uuid → Uuid → String → NewAlert
node_offline_alert tenant node hostname = record {
  tenant_id = tenant;
  node_id = some node;
  alert_type = "node_offline";
  severity = "critical";
  title = str_append "节点 " (str_append hostname " 离线");
  message = "";
  context = ("hostname", text hostname) ∷ [];
}

-- GenerateNodeOfflineAlert
unfoldable pub generate_node_offline_alert : Env → Uuid → Uuid → String → Exec Tables (Unit {0})
unfolding get_active_alert_by_node_and_type create_alert create_audit_event
generate_node_offline_alert env tenant node hostname = do
  existing ← get_active_alert_by_node_and_type tenant node "node_offline"
  unless_active existing (do
    insert_alert env (node_offline_alert tenant node hostname)
    attempt (
        create_audit_event (
          system_event tenant node "alert_created"
            (str_append "告警创建: 节点 " (str_append hostname " 离线")))))

-- GenerateSyncFailedAlert and GeneratePolicyFailedAlert drop the error of the lookup, and go on as if
-- no alert had been found.
abbrev pub lookup_or_none : Uuid → Uuid → String → Exec Tables (Option Alert)
lookup_or_none tenant node kind =
    handle (get_active_alert_by_node_and_type tenant node kind) (λ e. pure none)

abbrev pub sync_failed_alert : Uuid → Uuid → String → String → NewAlert
sync_failed_alert tenant node command_id error = record {
  tenant_id = tenant;
  node_id = some node;
  alert_type = "sync_failed";
  severity = "warning";
  title = "命令执行失败";
  message = "";
  context = ("command_id", text command_id) ∷ ("error", text error) ∷ [];
}

unfoldable pub generate_sync_failed_alert :
    Env → Uuid → Uuid → String → String → Exec Tables (Unit {0})
unfolding get_active_alert_by_node_and_type create_alert create_audit_event
generate_sync_failed_alert env tenant node command_id error = do
  existing ← lookup_or_none tenant node "sync_failed"
  unless_active existing (do
    insert_alert env (sync_failed_alert tenant node command_id error)
    attempt (create_audit_event (system_event tenant node "alert_created" "告警创建: 命令执行失败")))

unfoldable pub generate_policy_failed_alert :
    Env → Uuid → Uuid → String → String → String → String → Exec Tables (Unit {0})
unfolding get_active_alert_by_node_and_type create_alert create_audit_event
generate_policy_failed_alert env tenant node domain ref command_id error = do
  existing ← lookup_or_none tenant node "policy_failed"
  unless_active existing (do
    insert_alert env (record {
      tenant_id = tenant;
      node_id = some node;
      alert_type = "policy_failed";
      severity = "warning";
      title = "策略下发失败";
      message =
          str_append "策略 "
            (str_append domain (str_append "/" (str_append ref (str_append " 下发失败: " error))));
      context =
          ("policy_domain", text domain)
          ∷ ("policy_ref", text ref)
          ∷ ("command_id", text command_id)
          ∷ ("error", text error)
          ∷ [];
    })
    attempt (create_audit_event (system_event tenant node "alert_created" "告警创建: 策略下发失败")))

-- The certificate alerts: expiring, expired and renewal failed. `when` is the end of the validity, formatted by RFC 3339.
abbrev pub certificate_alert : Uuid → Uuid → String → String → String → String → Params → NewAlert
certificate_alert tenant node kind severity title message context = record {
  tenant_id = tenant;
  node_id = some node;
  alert_type = kind;
  severity = severity;
  title = title;
  message = message;
  context = context;
}

unfoldable pub generate_certificate_expiring_alert :
    Env → Uuid → Uuid → String → String → Exec Tables (Unit {0})
unfolding generate_alert
generate_certificate_expiring_alert env tenant node hostname when = generate_alert env tenant node (
    certificate_alert tenant node "certificate_expiring" "warning" "节点证书即将到期"
      (str_append "节点 " (str_append hostname (str_append " 的客户端证书将在 " (str_append when " 过期"))))
      (("hostname", text hostname) ∷ ("not_after", text when) ∷ []))

unfoldable pub generate_certificate_expired_alert :
    Env → Uuid → Uuid → String → String → Exec Tables (Unit {0})
unfolding generate_alert
generate_certificate_expired_alert env tenant node hostname when = generate_alert env tenant node (
    certificate_alert tenant node "certificate_expired" "critical" "节点证书已过期"
      (str_append "节点 " (str_append hostname (str_append " 的客户端证书已于 " (str_append when " 过期"))))
      (("hostname", text hostname) ∷ ("not_after", text when) ∷ []))

unfoldable pub generate_certificate_renew_failed_alert :
    Env → Uuid → Uuid → String → String → Exec Tables (Unit {0})
unfolding generate_alert
generate_certificate_renew_failed_alert env tenant node hostname error =
    generate_alert env tenant node (
      certificate_alert tenant node "certificate_renew_failed" "warning" "节点证书续签失败"
        (str_append "节点 " (str_append hostname (str_append " 的客户端证书续签失败: " error)))
        (("hostname", text hostname) ∷ ("error", text error) ∷ []))

-- the common body of ResolveCertificateExpiringAlert and ResolveCertificateRenewFailedAlert
unfoldable pub resolve_found : Env → Option Alert → Exec Tables (Unit {0})
unfolding resolve_alert
resolve_found env none = pure tt
resolve_found env (some a) = do resolve_alert env a.id; pure tt

unfoldable pub resolve_certificate_alert : Env → Uuid → Uuid → String → Exec Tables (Unit {0})
unfolding get_active_alert_by_node_and_type resolve_found
resolve_certificate_alert env tenant node kind = do
  existing ← get_active_alert_by_node_and_type tenant node kind
  resolve_found env existing

-- ResolveNodeOfflineAlert
unfoldable pub resolve_offline : Env → Uuid → Uuid → Option Alert → Exec Tables (Unit {0})
unfolding resolve_alert create_audit_event
resolve_offline env tenant node none = pure tt
resolve_offline env tenant node (some a) = do
  resolve_alert env a.id
  attempt (create_audit_event (system_event tenant node "alert_resolved" "告警解除: 节点离线告警已自动解除"))

unfoldable pub resolve_node_offline_alert : Env → Uuid → Uuid → Exec Tables (Unit {0})
unfolding get_active_alert_by_node_and_type resolve_offline
resolve_node_offline_alert env tenant node = do
  existing ← get_active_alert_by_node_and_type tenant node "node_offline"
  resolve_offline env tenant node existing
