-- ===== src/Storage/SyncMoves.antt =====
-- pkg/controllerstorage/policy_sync.go and node_lifecycle.go: their writes move commands forward as well.
use aria.Prelude.{
  ℕ, String, ◌≡◌, refl, true, none, some, [], ◌∷◌, ◌++◌, arith, if◌then◌else◌, update_where,
  find_where, str_eq, str_append, trim, to_lower, ltb,
}
use aria.Sql.{Result, ok, err, pure, run, ◌>>=◌, ◌>>◌, commit}
use aria.Sql.Rules.{
  Rel, Preorder, Rel-run, Rel-bind, Rel-then, Rel-pure, Rel-fail, Rel-transaction, Rel-if,
  Rel-unless, Rel-statement, Rel-attempt, Same-Preorder,
}
use aria.Storage.{AgentCommand, PolicyDelivery, AuditEvent, Node, Tables, Env, stale}
use aria.Storage.Alerts.{create_audit_event}
use aria.Storage.Certificates.{revoke_node_certificates_tx}
use aria.Storage.Lifecycle.{
  NodeLifecycleTransition, node_status_stops_commands, node_status_requires_certificate_revoke,
  has_public_key, with_status, lock_node, create_lifecycle_certificate_revoked_audit_event_tx,
  revoke_on_stop, stop_commands, audit_transition, apply_to_node, apply_node_lifecycle_transition,
  found_or_no_rows,
}
use aria.Storage.PolicySync.{
  PolicySyncRequest, normalize_policy_sync_request, is_superseded, stale_command, stale_delivery,
  is_open_delivery, mark_superseded_policy_syncs_tx, new_delivery, create_policy_delivery, deliver,
  queue_normalized, on_result, queue_policy_sync_tx, record_command_queued_audit,
  queue_in_transaction, queue_policy_sync,
}
use aria.Storage.Evolution.{Advances, All-of, Tracks, Tracks-Preorder, Same-Tracks, update-Tracks}
use aria.Storage.Keeps.{create_audit_event-keeps, upsert_node_desired_state-keeps}
use aria.Storage.Moves.{
  IsFresh, keeps-moves, queue-moves, deliveries-moves, fail_incomplete_tx-moves,
}

abbrev tracking : Preorder Tracks
tracking = Tracks-Preorder

superseded-moves :
    (now : ℕ) (note : String) (r : PolicySyncRequest)
    → Rel Tracks (
        run (λ (db : Tables). (
          tt {0},
          record db {
            commands =
                update_where (is_superseded r db.deliveries) (stale_command now note) db.commands;
          },
        )))
superseded-moves now note r =
    Rel-run tracking
      (λ (db : Tables). (
        tt {0},
        record db {
          commands =
              update_where (is_superseded r db.deliveries) (stale_command now note) db.commands;
        },
      ))
      (λ db.
        update-Tracks (is_superseded r db.deliveries) (stale_command now note) (λ c. refl)
          (λ c. refl) db
          (λ d.
            All-of (λ c. is_superseded r db.deliveries c ≡ true → Advances c.status stale)
              db.commands (λ c e. ground arith)))

mark_superseded-moves :
    (env : Env) (r : PolicySyncRequest) → Rel Tracks (mark_superseded_policy_syncs_tx env r)
unfolding mark_superseded_policy_syncs_tx
mark_superseded-moves env r = Rel-then tracking _ _ (superseded-moves env.now _ r) (
    deliveries-moves (λ db.
      update_where (is_open_delivery r.tenant_id r.node_id)
        (stale_delivery env.now (str_append "superseded by desired state " r.desired_state_version))
        db.deliveries))

create_delivery-moves : (d : PolicyDelivery) → Rel Tracks (create_policy_delivery d)
unfolding create_policy_delivery
create_delivery-moves d =
    Rel-run tracking (λ (db : Tables). (d, record db { deliveries = db.deliveries ++ d ∷ [] }))
      (λ db. Same-Tracks db (record db { deliveries = db.deliveries ++ d ∷ [] }) refl)

deliver-moves :
    (env : Env) (r : PolicySyncRequest) (c : AgentCommand) → Rel Tracks (deliver env r c)
unfolding deliver
deliver-moves env r c = Rel-if tracking (str_eq r.policy_ref "") _ _ (Rel-pure tracking none) (
    Rel-bind tracking _ _ (create_delivery-moves (new_delivery env r c))
      (λ d. Rel-pure tracking (some d)))

queue_normalized-moves :
    (env : Env) (r : PolicySyncRequest) → IsFresh env → Rel Tracks (queue_normalized env r)
unfolding queue_normalized
queue_normalized-moves env r new =
    Rel-bind tracking _ _
      (keeps-moves _ (
        upsert_node_desired_state-keeps env r.tenant_id r.node_id r.desired_state_version
          r.desired_metadata))
      (λ state. Rel-then tracking _ _ (mark_superseded-moves env r) (
        Rel-bind tracking _ _
          (queue-moves env r.node_public_key "sync" r.command_params r.priority r.timeout_seconds
            new)
          (λ c. Rel-bind tracking _ _ (deliver-moves env r c) (λ d. Rel-pure tracking _))))

queue_policy_sync_tx-moves :
    (env : Env) (r : PolicySyncRequest) → IsFresh env → Rel Tracks (queue_policy_sync_tx env r)
unfolding queue_policy_sync_tx
queue_policy_sync_tx-moves env request new = on (normalize_policy_sync_request env request)
  where
    on : (x : Result PolicySyncRequest) → Rel Tracks (on_result x (queue_normalized env))
    on (ok r) = queue_normalized-moves env r new
    on (err e) = Rel-fail tracking e

audit-moves : (e : AuditEvent) → Rel Tracks (create_audit_event e)
audit-moves e = keeps-moves _ (create_audit_event-keeps e)

pub queue_policy_sync-moves :
    (env : Env) (request : PolicySyncRequest)
    → IsFresh env
    → Rel Tracks (queue_policy_sync env request)
unfolding queue_policy_sync queue_in_transaction record_command_queued_audit
queue_policy_sync-moves env request new = on (normalize_policy_sync_request env request)
  where
    on :
        (x : Result PolicySyncRequest)
        → Rel Tracks (
            on_result x (λ r. queue_in_transaction env r >>= λ result.
            record_command_queued_audit r result.command >> pure result))
    on (err e) = Rel-fail tracking e
    on (ok r) =
        Rel-bind tracking _ _
          (Rel-transaction tracking _ (
            Rel-bind tracking _ _ (queue_policy_sync_tx-moves env r new)
              (λ x. Rel-pure tracking (commit x))))
          (λ result.
            Rel-then tracking _ _ (Rel-attempt tracking _ (audit-moves _))
              (Rel-pure tracking result))

-- the writes of a lifecycle transition that leave the commands alone
set_status-moves :
    (key target : String) (now : ℕ)
    → Rel Tracks (
        run (λ (db : Tables). (
          tt {0},
          record db { nodes = update_where (has_public_key key) (with_status now target) db.nodes },
        )))
set_status-moves key target now =
    Rel-run tracking
      (λ (db : Tables). (
        tt {0},
        record db { nodes = update_where (has_public_key key) (with_status now target) db.nodes },
      ))
      (λ db.
        Same-Tracks db
          (record db {
            nodes = update_where (has_public_key key) (with_status now target) db.nodes;
          })
          refl)

lock_node-moves : (key : String) → Rel Tracks (lock_node key)
lock_node-moves key =
    Rel-statement tracking
      (λ (db : Tables). (found_or_no_rows (find_where (has_public_key key) db.nodes), db))
      (λ db. tracking.here db)

revoke-moves :
    (env : Env) (n : ℕ) (reason : String) → Rel Tracks (revoke_node_certificates_tx env n reason)
unfolding revoke_node_certificates_tx
revoke-moves env n reason =
    keeps-moves _ (Rel-run (Same-Preorder (λ (db : Tables). db.commands)) _ (λ s. refl))

revoked_event-moves :
    (env : Env) (n : Node) (tr : NodeLifecycleTransition) (target reason : String) (c : ℕ)
    → Rel Tracks (create_lifecycle_certificate_revoked_audit_event_tx env n tr target reason c)
unfolding create_lifecycle_certificate_revoked_audit_event_tx
revoked_event-moves env n tr target reason c = audit-moves _

revoke_on_stop-moves :
    (env : Env) (n : Node) (tr : NodeLifecycleTransition) (target : String)
    → Rel Tracks (revoke_on_stop env n tr target)
unfolding revoke_on_stop
revoke_on_stop-moves env n tr target =
    Rel-if tracking (node_status_requires_certificate_revoke target) _ _
      (Rel-bind tracking _ _
        (revoke-moves env n.id (
          if str_eq (trim tr.revoke_reason) ""
          then str_append "node " target
          else trim tr.revoke_reason))
        (λ c.
          Rel-if tracking (ltb 0 c) _ _
            (revoked_event-moves env n tr target
              (if str_eq (trim tr.revoke_reason) ""
                then str_append "node " target
                else trim tr.revoke_reason)
              c)
            (Rel-pure tracking tt)))
      (Rel-pure tracking tt)

stop_commands-moves : (env : Env) (key target : String) → Rel Tracks (stop_commands env key target)
unfolding stop_commands
stop_commands-moves env key target =
    Rel-if tracking (node_status_stops_commands target) _ _
      (fail_incomplete_tx-moves env key (str_append "node status changed to " target))
      (Rel-pure tracking tt)

audit_transition-moves :
    (n : Node) (tr : NodeLifecycleTransition) (target : String)
    → Rel Tracks (audit_transition n tr target)
unfolding audit_transition
audit_transition-moves n tr target =
    Rel-if tracking (str_eq tr.audit_event_type "") _ _ (Rel-pure tracking tt) (audit-moves _)

pub transition-moves :
    (env : Env) (key : String) (tr : NodeLifecycleTransition)
    → Rel Tracks (apply_node_lifecycle_transition env key tr)
unfolding apply_node_lifecycle_transition apply_to_node
transition-moves env key tr =
    let target = to_lower (trim tr.target_status) in
    Rel-then tracking _ _ (Rel-unless tracking _ _) (
      Rel-transaction tracking _ (
        Rel-bind tracking _ _ (lock_node-moves key) (λ n.
          Rel-then tracking _ _ (set_status-moves key target env.now) (
            Rel-then tracking _ _ (revoke_on_stop-moves env n tr target) (
              Rel-then tracking _ _ (stop_commands-moves env key target) (
                Rel-then tracking _ _ (audit_transition-moves n tr target)
                  (Rel-pure tracking _)))))))
