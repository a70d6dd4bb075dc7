-- ===== src/Storage/Alerts.antt =====
-- pkg/controllerstorage/alerts.go, alert_generator.go and the insertion of audit_events.go.
use aria.Prelude.{
  ℕ, String, ℤ, Bool, true, false, Option, none, some, List, [], ◌∷◌, ◌++◌, ◌==◌, ◌&&◌, ltb, lezb,
  pos, str_eq, ltzb, pos_part, if◌then◌else◌, update_where, count_where, find_where, rows_where,
  order_by, take, trim,
}
use aria.Sql.{no_rows, Exec, ok, err, statement, run, query}
use aria.Storage.{Uuid, Params, AuditEvent, Alert, Tables, Env}

-- CreateAuditEvent
unfoldable pub create_audit_event : AuditEvent → Exec Tables (Unit {0})
create_audit_event e = run (λ db. (tt, record db { audit_events = db.audit_events ++ e ∷ [] }))

-- the fields that a caller of CreateAlert sets
pub record NewAlert : Type 0 where
  pub tenant_id : Uuid
  pub node_id : Option Uuid
  pub alert_type : String
  pub severity : String
  pub title : String
  pub message : String
  pub context : Params

abbrev pub inserted_alert : Env → Uuid → NewAlert → Alert
inserted_alert env id a = record {
  id = id;
  tenant_id = a.tenant_id;
  node_id = a.node_id;
  alert_type = a.alert_type;
  severity = a.severity;
  title = a.title;
  message = a.message;
  context = a.context;
  active = true;
  created_at = env.now;
  resolved_at = none;
}

unfoldable pub create_alert : Env → NewAlert → Exec Tables Alert
create_alert env a = run (λ db.
    let row = inserted_alert env (env.alert_id db.alerts) a in
    (row, record db { alerts = db.alerts ++ row ∷ [] }))

abbrev pub is_active_alert : Uuid → Alert → Bool
is_active_alert id a = a.id == id && a.active

abbrev pub resolved : ℕ → Alert → Alert
resolved now a = record a { active = false; resolved_at = some now }

-- ResolveAlert: no active row with the identifier is sql.ErrNoRows
unfoldable pub resolve_alert : Env → Uuid → Exec Tables Alert
resolve_alert env id = statement (λ db. elim (find_where (is_active_alert id) db.alerts) [
  | none ↦ (err no_rows, db)
  | some a ↦ (
    ok (resolved env.now a),
    record db { alerts = update_where (is_active_alert id) (resolved env.now) db.alerts },
  )
])

abbrev pub same_node : Option Uuid → Uuid → Bool
same_node none n = false
same_node (some m) n = m == n

-- an active alert of the type for the node
abbrev pub is_active_for : Uuid → Uuid → String → Alert → Bool
is_active_for tenant node kind a =
    a.tenant_id == tenant && (same_node a.node_id node && (str_eq a.alert_type kind && a.active))

unfoldable pub get_active_alert_by_node_and_type : Uuid → Uuid → String → Exec Tables (Option Alert)
get_active_alert_by_node_and_type tenant node kind =
    query (λ db. find_where (is_active_for tenant node kind) db.alerts)

-- CountActiveAlerts
unfoldable pub count_active_alerts : Uuid → Exec Tables ℕ
count_active_alerts tenant =
    query (λ db. count_where (λ a. a.tenant_id == tenant && a.active) db.alerts)

-- ListRecentNodeAlerts: the limit is 10 by default and 200 at most, the status `active` by default
abbrev pub clamp_limit : ℤ → ℕ
clamp_limit limit =
    if lezb limit (pos 0) then 10 else if ltzb (pos 200) limit then 200 else pos_part limit

abbrev pub alert_status : Alert → String
alert_status a = if a.active then "active" else "resolved"

unfoldable pub list_recent_node_alerts : Uuid → Uuid → String → ℤ → Exec Tables (List Alert)
list_recent_node_alerts tenant node status limit =
    let wanted = if str_eq (trim status) "" then "active" else trim status in
    query (λ db. take (clamp_limit limit) (
      order_by (λ (a b : Alert). ltb b.created_at a.created_at)
        (rows_where
          (λ (a : Alert).
            a.tenant_id == tenant && (str_eq (alert_status a) wanted && same_node a.node_id node))
          db.alerts)))
