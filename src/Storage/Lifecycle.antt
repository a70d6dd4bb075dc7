-- ===== src/Storage/Lifecycle.antt =====
-- pkg/controllerstorage/node_lifecycle.go: a change of the status of a node, with what it stops.
use aria.Prelude.{
  ℕ, String, Bool, Option, none, some, [], ◌∷◌, ◌++◌, ltb, ◌||◌, str_eq, str_append, if◌then◌else◌,
  update_where, find_where, trim, to_lower,
}
use aria.Sql.{
  no_rows, message, Result, ok, err, Exec, pure, statement, run, ◌>>=◌, ◌>>◌, unless, Outcome,
  commit, transaction,
}
use aria.Storage.{text, other, Params, Node, Tables, Env}
use aria.Storage.Alerts.{create_audit_event}
use aria.Storage.Certificates.{revoke_node_certificates_tx}
use aria.Storage.Failing.{fail_incomplete_tx}

pub record NodeLifecycleTransition : Type 0 where
  pub target_status : String
  pub revoke_reason : String
  pub audit_event_type : String
  pub audit_actor : String
  pub audit_summary : String
  pub audit_detail : Params

-- nodeStatusStopsCommands
unfoldable pub node_status_stops_commands : String → Bool
unfolding trim to_lower
node_status_stops_commands status =
    let s = to_lower (trim status) in
    str_eq s "deleted" || (str_eq s "suspended" || str_eq s "banned")

-- nodeStatusRequiresCertificateRevoke
unfoldable pub node_status_requires_certificate_revoke : String → Bool
unfolding node_status_stops_commands
node_status_requires_certificate_revoke status = node_status_stops_commands status

abbrev pub has_public_key : String → Node → Bool
has_public_key key n = str_eq n.public_key key

abbrev pub with_status : ℕ → String → Node → Node
with_status now s n = record n { status = some s; updated_at = now }

-- SELECT ... FOR UPDATE
abbrev pub found_or_no_rows : Option Node → Result Node
found_or_no_rows none = err no_rows
found_or_no_rows (some n) = ok n

abbrev pub lock_node : String → Exec Tables Node
lock_node key = statement (λ db. (found_or_no_rows (find_where (has_public_key key) db.nodes), db))

-- createLifecycleCertificateRevokedAuditEventTx
unfoldable pub create_lifecycle_certificate_revoked_audit_event_tx :
    Env → Node → NodeLifecycleTransition → String → String → ℕ → Exec Tables (Unit {0})
unfolding create_audit_event trim
create_lifecycle_certificate_revoked_audit_event_tx env n tr target reason count =
    create_audit_event (record {
      tenant_id = n.tenant_id;
      node_id = some n.id;
      event_type = "cert.revoked";
      actor = if str_eq (trim tr.audit_actor) "" then "system" else trim tr.audit_actor;
      summary = "Node certificate revoked due to node lifecycle change";
      detail =
          ("public_key", text n.public_key)
          ∷ ("hostname", text n.hostname)
          ∷ ("node_status", text target)
          ∷ ("reason", text reason)
          ∷ ("revoked_cert_count", other (env.decimal count))
          ∷ [];
    })

-- the certificates of a node that is stopped
unfoldable pub revoke_on_stop :
    Env → Node → NodeLifecycleTransition → String → Exec Tables (Unit {0})
unfolding node_status_requires_certificate_revoke trim revoke_node_certificates_tx
    create_lifecycle_certificate_revoked_audit_event_tx
revoke_on_stop env n tr target =
    let reason =
      if str_eq (trim tr.revoke_reason) ""
      then str_append "node " target
      else trim tr.revoke_reason in
    if node_status_requires_certificate_revoke target
    then (do
      revoked ← revoke_node_certificates_tx env n.id reason
      if ltb 0 revoked
          then create_lifecycle_certificate_revoked_audit_event_tx env n tr target reason revoked
          else pure tt)
    else pure tt

-- the commands of a node that is stopped
unfoldable pub stop_commands : Env → String → String → Exec Tables (Unit {0})
unfolding node_status_stops_commands fail_incomplete_tx
stop_commands env key target =
    if node_status_stops_commands target
    then fail_incomplete_tx env key (str_append "node status changed to " target)
    else pure tt

-- the audit event of the transition; a key of the caller's detail goes before the same key of the code
unfoldable pub audit_transition : Node → NodeLifecycleTransition → String → Exec Tables (Unit {0})
unfolding create_audit_event
audit_transition n tr target =
    if str_eq tr.audit_event_type ""
    then pure tt
    else create_audit_event (record {
      tenant_id = n.tenant_id;
      node_id = some n.id;
      event_type = tr.audit_event_type;
      actor = tr.audit_actor;
      summary = tr.audit_summary;
      detail =
          tr.audit_detail
          ++ ("public_key", text n.public_key)
            ∷ ("hostname", text n.hostname)
            ∷ ("target_status", text target)
            ∷ [];
    })

-- the transaction's body
unfoldable pub apply_to_node :
    Env → String → NodeLifecycleTransition → String → Exec Tables (Outcome Node)
unfolding revoke_on_stop stop_commands audit_transition
apply_to_node env key tr target = do
  n ← lock_node key
  run (λ db. (
    tt,
    record db { nodes = update_where (has_public_key key) (with_status env.now target) db.nodes },
  ))
  revoke_on_stop env n tr target
  stop_commands env key target
  audit_transition n tr target
  pure (commit (record n { status = some target }))

-- ApplyNodeLifecycleTransition
unfoldable pub apply_node_lifecycle_transition :
    Env → String → NodeLifecycleTransition → Exec Tables Node
unfolding trim to_lower apply_to_node
apply_node_lifecycle_transition env key tr =
    let target = to_lower (trim tr.target_status) in
    do
      unless (str_eq target "") (message "target status is required")
      transaction (apply_to_node env key tr target)
