-- ===== src/Storage/Keeps.antt =====
-- The audit, alert, delivery and control-state writes leave the commands alone.
use aria.Prelude.{
  String, ◌≡◌, refl, Option, none, some, List, [], ◌∷◌, Option-cases, Bool-cases, is_some, inl, inr,
  find_where,
}
use aria.Sql.{Exec, query}
use aria.Sql.Rules.{
  Rel, Same, Same-Preorder, rel_rules, Rel-run, Rel-statement, Rel-bind, Rel-then, Rel-query,
  Rel-pure, Rel-handle,
}
use aria.Storage.{
  Uuid, Params, Texts, CommandStatus, pending, AgentCommand, PolicyDelivery, NodeControlState, Node,
  AuditEvent, Alert, Tables, Env,
}
use aria.Storage.ControlState.{
  NodeControlStateReport, upsert_state, report_node_control_state, sync_report, store_report,
  reported_row, merge_report, sync_node_control_state_for_command, command_with_node,
  upsert_node_desired_state, of_node_id,
}
use aria.Storage.Alerts.{
  create_audit_event, create_alert, get_active_alert_by_node_and_type, NewAlert,
}
use aria.Storage.Generators.{
  generate_sync_failed_alert, generate_policy_failed_alert, unless_active, lookup_or_none,
}
use aria.Storage.Notify.{
  emit_for_delivery, emit_for_deliveries, emit_for_command, emit_found,
  emit_command_alert_and_audit,
}
use aria.Storage.Report.{update_policy_delivery_status_by_command}

abbrev commands_of : Tables → List AgentCommand
commands_of db = db.commands

abbrev pub KeepsCommands : {A : Type 0} → Exec Tables A → Type 0
KeepsCommands m = Rel (Same (λ (db : Tables). db.commands)) m

pub create_audit_event-keeps : (e : AuditEvent) → KeepsCommands (create_audit_event e)
unfolding create_audit_event
create_audit_event-keeps e = Rel-run (Same-Preorder commands_of) _ (λ s. refl)

upsert_state-keeps :
    (n : Uuid) (row : NodeControlState) (f : NodeControlState → NodeControlState) (db : Tables)
    → (upsert_state n row f db).1.commands ≡ db.commands
upsert_state-keeps n row f db = elim (Option-cases (find_where (of_node_id n) db.states)) [
  | inl e ↦ rw (e, upsert_state)
  | inr (s, e) ↦ rw (e, upsert_state)
]

-- what an upsert of a control state leaves alone, a report leaves alone
pub store_report-keeps :
    {A : Type 0} (f : Tables → A)
    → ((n : Uuid) (row : NodeControlState) (change : NodeControlState → NodeControlState)
          (db : Tables)
        → f (upsert_state n row change db).1 ≡ f db)
    → (env : Env) (n : Uuid) (row : NodeControlState) (db : Tables)
    → f (store_report env n row db).1 ≡ f db
store_report-keeps f keeps env n row db = elim (Bool-cases (is_some row.observed_state)) [
  | inl e ↦ rw e (keeps n row (merge_report env row) db)
  | inr e ↦ rw e refl
]

pub report_node_control_state-keeps :
    (env : Env) (t n : Uuid) (r : NodeControlStateReport)
    → KeepsCommands (report_node_control_state env t n r)
unfolding report_node_control_state
report_node_control_state-keeps env t n r =
    Rel-statement (Same-Preorder commands_of) _
      (store_report-keeps commands_of upsert_state-keeps env n (reported_row env t n r))

pub upsert_node_desired_state-keeps :
    (env : Env) (t n : Uuid) (v : String) (m : Params)
    → KeepsCommands (upsert_node_desired_state env t n v m)
unfolding upsert_node_desired_state
upsert_node_desired_state-keeps env t n v m =
    Rel-run (Same-Preorder commands_of) _ (upsert_state-keeps n _ _)

pub sync_node_control_state-keeps :
    (env : Env) (id : String) (st : CommandStatus) (note : String) (r : Texts)
    → KeepsCommands (sync_node_control_state_for_command env id st note r)
unfolding sync_node_control_state_for_command
sync_node_control_state-keeps env id st note r =
    Rel-bind (Same-Preorder commands_of) (query (command_with_node id)) (sync_report env st note r)
      (Rel-query (Same-Preorder commands_of) (command_with_node id)) part
  where
    part : (o : Option (AgentCommand × Node)) → KeepsCommands (sync_report env st note r o)
    part none = Rel-pure (Same-Preorder commands_of) tt
    part (some (c, n)) =
        Rel-then (Same-Preorder commands_of) _ _
          (report_node_control_state-keeps env n.tenant_id n.id _)
          (Rel-pure (Same-Preorder commands_of) tt)

pub delivery_status-keeps :
    (env : Env) (id : String) (st : CommandStatus) (note : String)
    → KeepsCommands (update_policy_delivery_status_by_command env id st note)
unfolding update_policy_delivery_status_by_command
delivery_status-keeps env id st note = Rel-run (Same-Preorder commands_of) _ (λ s. refl)

get_active_alert-keeps :
    (t n : Uuid) (k : String) → KeepsCommands (get_active_alert_by_node_and_type t n k)
unfolding get_active_alert_by_node_and_type
get_active_alert-keeps t n k = Rel-query (Same-Preorder commands_of) _

create_alert-keeps : (env : Env) (a : NewAlert) → KeepsCommands (create_alert env a)
unfolding create_alert
create_alert-keeps env a = Rel-run (Same-Preorder commands_of) _ (λ s. refl)

ruleset keeps_rules = (
  rel_rules, Same-Preorder, create_audit_event-keeps, report_node_control_state-keeps,
  sync_node_control_state-keeps, delivery_status-keeps, get_active_alert-keeps, create_alert-keeps,
)

unless_active-keeps :
    (o : Option Alert) (m : Exec Tables (Unit {0}))
    → KeepsCommands m
    → KeepsCommands (unless_active o m)
unless_active-keeps none m h = h
unless_active-keeps (some a) m h = Rel-pure (Same-Preorder commands_of) tt

lookup_or_none-keeps : (t n : Uuid) (k : String) → KeepsCommands (lookup_or_none t n k)
lookup_or_none-keeps t n k =
    Rel-handle (Same-Preorder commands_of) (get_active_alert_by_node_and_type t n k) _
      (get_active_alert-keeps t n k) (λ e. Rel-pure (Same-Preorder commands_of) none)

generate_sync_failed_alert-keeps :
    (env : Env) (t n : Uuid) (id e : String)
    → KeepsCommands (generate_sync_failed_alert env t n id e)
unfolding generate_sync_failed_alert
generate_sync_failed_alert-keeps env t n id e =
    search (keeps_rules, unless_active-keeps, lookup_or_none-keeps)

generate_policy_failed_alert-keeps :
    (env : Env) (t n : Uuid) (domain ref id e : String)
    → KeepsCommands (generate_policy_failed_alert env t n domain ref id e)
unfolding generate_policy_failed_alert
generate_policy_failed_alert-keeps env t n domain ref id e =
    search (keeps_rules, unless_active-keeps, lookup_or_none-keeps)

ruleset emit_rules =
    (keeps_rules, generate_sync_failed_alert-keeps, generate_policy_failed_alert-keeps)

emit_for_delivery-keeps :
    (env : Env) (n : Node) (id : String) (st : CommandStatus) (e : String) (d : PolicyDelivery)
    → KeepsCommands (emit_for_delivery env n id st e d)
emit_for_delivery-keeps env n id pending e d = unfold emit_for_delivery in search emit_rules
emit_for_delivery-keeps env n id st e d = unfold emit_for_delivery in search emit_rules

emit_for_deliveries-keeps :
    (env : Env) (n : Node) (id : String) (st : CommandStatus) (e : String)
    (ds : List PolicyDelivery)
    → KeepsCommands (emit_for_deliveries env n id st e ds)
unfolding emit_for_deliveries
emit_for_deliveries-keeps env n id st e [] = search emit_rules
emit_for_deliveries-keeps env n id st e (d ∷ ds) =
    Rel-then (Same-Preorder commands_of) _ _ (emit_for_delivery-keeps env n id st e d)
      (emit_for_deliveries-keeps env n id st e ds)

emit_for_command-keeps :
    (env : Env) (n : Node) (c : AgentCommand) (st : CommandStatus) (e : String)
    → KeepsCommands (emit_for_command env n c st e)
emit_for_command-keeps env n c pending e = unfold emit_for_command in search emit_rules
emit_for_command-keeps env n c st e = unfold emit_for_command in search emit_rules

emit_found-keeps :
    (env : Env) (st : CommandStatus) (e : String) (o : Option (AgentCommand × Node))
    → KeepsCommands (emit_found env st e o)
emit_found-keeps env st e none = unfold emit_found in search emit_rules
emit_found-keeps env st e (some (c, n)) =
    unfold emit_found in search (emit_rules, emit_for_command-keeps, emit_for_deliveries-keeps)

pub emit-keeps :
    (env : Env) (id : String) (st : CommandStatus) (e : String)
    → KeepsCommands (emit_command_alert_and_audit env id st e)
unfolding emit_command_alert_and_audit
emit-keeps env id st e = search (emit_rules, emit_found-keeps)
