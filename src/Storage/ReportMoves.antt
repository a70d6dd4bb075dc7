-- ===== src/Storage/ReportMoves.antt =====
-- pkg/controllerstorage/agent_commands.go: a status report moves a command forward.
use aria.Prelude.{
  ℕ, String, ◌≡◌, refl, sym, subst, true, false, none, some, List, [], ◌∷◌, arith, inl, inr,
  Bool-cases, Option-cases, if◌then◌else◌, update_where, count_where, All, ◌||◌, find_where, ◌==◌,
}
use aria.Sql.{Result, ok, err, World, Exec, pure, fail, ◌>>=◌, ◌>>◌, handle, commit}
use aria.Sql.Rules.{
  Rel, Preorder, Rel-bind, Rel-then, Rel-pure, Rel-transaction, Rel-if, Rel-read-bind, run-then-at,
  Reads, Reads-statement, Reads-rename, Rel-statement,
}
use aria.Storage.{
  Texts, CommandStatus, pending, sent, acknowledged, completed, failed, stale, command_status_eq,
  AgentCommand, Tables, Env,
}
use aria.Storage.ControlState.{sync_node_control_state_for_command}
use aria.Storage.Report.{
  is_target, is_updatable, reported, validate_transition, write_report, accept_report,
  report_in_transaction, look, update_status, update_agent_command_status_for_node, current_status,
  status_of, not_updated, not_found_error, update_policy_delivery_status_by_command,
}
use aria.Storage.Notify.{emit_command_alert_and_audit}
use aria.Storage.Keeps.{sync_node_control_state-keeps, delivery_status-keeps, emit-keeps}
use aria.Storage.Evolution.{Advances, Tracks, Tracks-Preorder, update-Tracks, found_only}
use aria.Storage.Moves.{keeps-moves, move_rules}

-- what validateAgentCommandStatusTransition lets through moves a command forward
pub validate_transition-Advances :
    (current next : CommandStatus)
    → command_status_eq current stale ≡ false
    → validate_transition current next ≡ none
    → Advances current next
unfolding validate_transition
validate_transition-Advances pending sent s h = ground arith
validate_transition-Advances pending failed s h = ground arith
validate_transition-Advances sent acknowledged s h = ground arith
validate_transition-Advances sent completed s h = ground arith
validate_transition-Advances sent failed s h = ground arith
validate_transition-Advances acknowledged completed s h = ground arith
validate_transition-Advances acknowledged failed s h = ground arith
validate_transition-Advances _ _ s h = cc

-- the row that the lock read is the one that the update fits
update_report-Tracks :
    (env : Env) (id key : String) (next : CommandStatus) (note : String) (result : Texts)
    (db : Tables) (c : AgentCommand)
    → find_where (is_target id key) db.commands ≡ some c
    → Advances c.status next
    → Tracks db (record db {
      commands = update_where (is_updatable id key) (reported env.now next note result) db.commands;
    })
update_report-Tracks env id key next note result db c found step =
    update-Tracks (is_updatable id key) (reported env.now next note result) (λ d. refl) (λ d. refl)
      db
      (λ dist. weaken db.commands (
        found_only (is_target id key) id (λ d g. ground arith) (λ d. Advances d.status next)
          db.commands dist c found step))
  where
    weaken :
        (cs : List AgentCommand)
        → All (λ d. is_target id key d ≡ true → Advances d.status next) cs
        → All (λ d. is_updatable id key d ≡ true → Advances d.status next) cs
    weaken [] h = tt
    weaken (d ∷ cs) h = (λ g. h.0 (ground arith), weaken cs h.1)

not_updated-moves : (key : String) (r : Result CommandStatus) → Rel Tracks (not_updated key r)
unfolding not_updated
not_updated-moves key (ok c) = search move_rules
not_updated-moves key (err e) = search move_rules

abbrev tracking : Preorder Tracks
tracking = Tracks-Preorder

look-moves : {A : Type 0} (m : Exec Tables A) → Rel Tracks m → Rel Tracks (look m)
look-moves m h = record { at = λ w. h.at w }

current_status-moves : (id key : String) → Rel Tracks (current_status id key)
unfolding current_status
current_status-moves id key =
    Rel-statement tracking
      (λ (db : Tables). (status_of (find_where (is_target id key) db.commands), db))
      (λ db. tracking.here db)

-- after the update: refuse, or go on to the deliveries and the control state
after_update-moves :
    (env : Env) (id key : String) (next : CommandStatus) (note : String) (result : Texts)
    (affected : ℕ)
    → Rel Tracks (
        if affected == 0
        then (look (current_status id key) >>= not_updated key)
        else (update_policy_delivery_status_by_command env id next note
            >> (sync_node_control_state_for_command env id next note result >> pure (commit true))))
after_update-moves env id key next note result affected =
    let deliveries = keeps-moves _ (delivery_status-keeps env id next note) in
    let states = keeps-moves _ (sync_node_control_state-keeps env id next note result) in
    Rel-if tracking (affected == 0) _ _
      (Rel-bind tracking _ _ (look-moves _ (current_status-moves id key)) (not_updated-moves key))
      (Rel-then tracking _ _ deliveries
        (Rel-then tracking _ _ states (Rel-pure tracking (commit true))))

write_report-Tracks :
    (env : Env) (id key : String) (next : CommandStatus) (note : String) (result : Texts)
    (w : World Tables) (c : AgentCommand)
    → find_where (is_target id key) w.db.commands ≡ some c
    → Advances c.status next
    → Tracks w.db (write_report env id key next note result w).1.db
unfolding write_report
write_report-Tracks env id key next note result w c found step =
    run-then-at tracking
      (λ db. (
        count_where (is_updatable id key) db.commands,
        record db {
          commands =
              update_where (is_updatable id key) (reported env.now next note result) db.commands;
        },
      ))
      _ w (update_report-Tracks env id key next note result w.db c found step)
      (after_update-moves env id key next note result)

-- what the lock read: the status of the command, where it is found
abbrev pub Locked : String → String → CommandStatus → Tables → Type 0
Locked id key current db = status_of (find_where (is_target id key) db.commands) ≡ ok current

pub current_status-Reads :
    (id key : String)
    → Reads (Locked id key) (handle (current_status id key) (λ e. fail (not_found_error key e)))
unfolding current_status
current_status-Reads id key =
    Reads-rename (Locked id key) (current_status id key) (not_found_error key)
      (Reads-statement (λ (db : Tables). status_of (find_where (is_target id key) db.commands)))

accept_report-Tracks :
    (env : Env) (id key : String) (next : CommandStatus) (note : String) (result : Texts)
    (current : CommandStatus) (w : World Tables)
    → Locked id key current w.db
    → Tracks w.db (accept_report env id key next note result current w).1.db
unfolding accept_report
accept_report-Tracks env id key next note result current w locked =
    elim (Bool-cases (command_status_eq current stale || command_status_eq current next)) [
      | inl e ↦ rw e (tracking.here w.db)
      | inr e ↦ elim (Option-cases (validate_transition current next)) [
        | inr (x, g) ↦ rw (e, g) (tracking.here w.db)
        | inl g ↦ rw (e, g) (written g (ground arith))
      ]
    ]
  where
    written :
        validate_transition current next ≡ none
        → command_status_eq current stale ≡ false
        → Tracks w.db (write_report env id key next note result w).1.db
    written g s = elim (Option-cases (find_where (is_target id key) w.db.commands)) [
      | inl f ↦ cc (rw (f, status_of) at locked)
      | inr (c, f) ↦
          let mine : c.status ≡ current = cc (rw (f, status_of) at locked) in
          write_report-Tracks env id key next note result w c f (
            subst (λ x. Advances x next) (sym mine) (validate_transition-Advances current next s g))
    ]

pub report_in_transaction-moves :
    (env : Env) (id key : String) (next : CommandStatus) (note : String) (result : Texts)
    → Rel Tracks (report_in_transaction env id key next note result)
unfolding report_in_transaction
report_in_transaction-moves env id key next note result = Rel-transaction tracking _ (
    Rel-read-bind Tracks tracking (Locked id key)
      (handle (current_status id key) (λ e. fail (not_found_error key e)))
      (accept_report env id key next note result) (current_status-Reads id key)
      (accept_report-Tracks env id key next note result))

alerts-moves :
    (env : Env) (id : String) (next : CommandStatus) (note : String)
    → Rel Tracks (emit_command_alert_and_audit env id next note)
alerts-moves env id next note = keeps-moves _ (emit-keeps env id next note)

pub update_status-moves :
    (env : Env) (id key status note : String) (result : Texts)
    → Rel Tracks (update_status env id key status note result)
unfolding update_status
update_status-moves env id key status note result =
    search (move_rules, report_in_transaction-moves, alerts-moves) depth 9

pub update_for_node-moves :
    (env : Env) (id key status note : String) (result : Texts)
    → Rel Tracks (update_agent_command_status_for_node env id key status note result)
unfolding update_agent_command_status_for_node
update_for_node-moves env id key status note result = search (move_rules, update_status-moves)
