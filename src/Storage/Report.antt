-- ===== src/Storage/Report.antt =====
-- pkg/controllerstorage/agent_commands.go: an agent reports the status of a command. The report moves
-- the command, its policy deliveries and the control state of the node in one transaction; alerts and
-- audit events follow the commit and never fail the report.
use aria.Prelude.{
  ℕ, String, Bool, true, false, Option, none, some, ◌==◌, ◌&&◌, ◌||◌, not, str_eq, if◌then◌else◌,
  update_where, count_where, find_where, trim, is_some,
}
use aria.Sql.{
  Error, no_rows, wrong_node, unsupported_status, message, Result, ok, err, Exec, pure, fail,
  statement, run, ◌>>=◌, ◌>>◌, unless, handle, Outcome, commit, rollback, transaction,
}
use aria.Storage.{
  Texts, CommandStatus, pending, sent, acknowledged, completed, failed, stale, unknown,
  command_status_eq, AgentCommand, PolicyDelivery, Tables, Env, add_secs,
}
use aria.Storage.Command.{of_node, has_command_id}
use aria.Storage.ControlState.{sync_node_control_state_for_command}
use aria.Storage.Notify.{of_command, emit_command_alert_and_audit}

abbrev pub read_status : String → CommandStatus
read_status s =
    if str_eq s "pending"
    then pending
    else if str_eq s "sent"
    then sent
    else if str_eq s "acknowledged"
    then acknowledged
    else if str_eq s "completed"
    then completed
    else if str_eq s "failed"
    then failed
    else if str_eq s "stale"
    then stale
    else unknown s

-- isAgentCommandReportStatus
unfoldable pub is_agent_command_report_status : CommandStatus → Bool
is_agent_command_report_status sent = true
is_agent_command_report_status acknowledged = true
is_agent_command_report_status completed = true
is_agent_command_report_status failed = true
is_agent_command_report_status _ = false

abbrev pub invalid : Error
invalid = message "invalid agent command status transition"

-- validateAgentCommandStatusTransition
unfoldable pub validate_transition : CommandStatus → CommandStatus → Option Error
validate_transition completed next =
    some (message "terminal agent command status cannot transition")
validate_transition failed next = some (message "terminal agent command status cannot transition")
validate_transition pending sent = none
validate_transition pending failed = none
validate_transition pending _ = some invalid
validate_transition sent acknowledged = none
validate_transition sent completed = none
validate_transition sent failed = none
validate_transition sent _ = some invalid
validate_transition acknowledged completed = none
validate_transition acknowledged failed = none
validate_transition acknowledged _ = some invalid
validate_transition stale next = none
validate_transition (unknown s) next = some (message "unsupported current agent command status")

abbrev pub is_terminal_report : CommandStatus → Bool
is_terminal_report completed = true
is_terminal_report failed = true
is_terminal_report _ = false

abbrev pub is_live_report : CommandStatus → Bool
is_live_report sent = true
is_live_report acknowledged = true
is_live_report _ = false

-- the SET clause of the UPDATE
abbrev pub reported : ℕ → CommandStatus → String → Texts → AgentCommand → AgentCommand
reported now status note result c = record c {
  status = status;
  message = note;
  result = result;
  updated_at = now;
  acknowledged_at =
      if command_status_eq status acknowledged && not (is_some c.acknowledged_at)
      then some now
      else c.acknowledged_at;
  completed_at = if is_terminal_report status then some now else c.completed_at;
  deadline_at =
      if is_live_report status then some (add_secs now c.timeout_seconds) else c.deadline_at;
}

-- id = $1, and node_public_key = $5 where a node is given
abbrev pub is_target : String → String → AgentCommand → Bool
is_target id key c = has_command_id id c && (str_eq key "" || of_node key c)

abbrev pub is_updatable : String → String → AgentCommand → Bool
is_updatable id key c = is_target id key c && not (command_status_eq c.status stale)

-- lockAgentCommandStatusTx and currentAgentCommandStatusTx
unfoldable pub status_of : Option AgentCommand → Result CommandStatus
status_of none = err no_rows
status_of (some c) = ok c.status

unfoldable pub current_status : String → String → Exec Tables CommandStatus
unfolding status_of
current_status id key =
    statement (λ db. (status_of (find_where (is_target id key) db.commands), db))

-- how a delivery follows its command: the UPDATE here and in UpdatePolicyDeliveryStatusByCommand
abbrev pub delivery_reported : ℕ → CommandStatus → String → PolicyDelivery → PolicyDelivery
delivery_reported now status note d = record d {
  command_status = status;
  last_error =
      if command_status_eq status failed
      then note
      else if command_status_eq status completed
      then ""
      else d.last_error;
  updated_at = now;
  completed_at = if is_terminal_report status then some now else d.completed_at;
}

unfoldable pub update_policy_delivery_status_by_command :
    Env → String → CommandStatus → String → Exec Tables (Unit {0})
update_policy_delivery_status_by_command env id status note = run (λ db. (
  tt,
  record db {
    deliveries = update_where (of_command id) (delivery_reported env.now status note) db.deliveries;
  },
))

abbrev pub not_found_error : String → Error → Error
not_found_error key e = if str_eq key "" then e else wrong_node

-- the update fitted no row
unfoldable pub not_updated : String → Result CommandStatus → Exec Tables (Outcome Bool)
not_updated key (ok current) =
    if command_status_eq current stale
    then pure (rollback false)
    else fail (not_found_error key (message "agent command was not updated"))
not_updated key (err e) = fail (not_found_error key e)

abbrev pub look : {A : Type 0} → Exec Tables A → Exec Tables (Result A)
look m w = let out = m w in (ok out.0, out.1)

-- the writes of an accepted report
unfoldable pub write_report :
    Env → String → String → CommandStatus → String → Texts → Exec Tables (Outcome Bool)
unfolding current_status not_updated update_policy_delivery_status_by_command
    sync_node_control_state_for_command
write_report env id key status note result = do
  affected ← run (λ db. (
    count_where (is_updatable id key) db.commands,
    record db {
      commands =
          update_where (is_updatable id key) (reported env.now status note result) db.commands;
    },
  ))
  if affected == 0
      then (do current ← look (current_status id key); not_updated key current)
      else (do
        update_policy_delivery_status_by_command env id status note
        sync_node_control_state_for_command env id status note result
        pure (commit true))

-- a stale command, and a repeated status, change nothing
unfoldable pub accept_report :
    Env
    → String
    → String
    → CommandStatus
    → String
    → Texts
    → CommandStatus
    → Exec Tables (Outcome Bool)
unfolding validate_transition write_report
accept_report env id key status note result current =
    if command_status_eq current stale || command_status_eq current status
    then pure (rollback false)
    else elim (validate_transition current status) [
      | some e ↦ fail e
      | none ↦ write_report env id key status note result
    ]

-- the transaction; true when it was committed
unfoldable pub report_in_transaction :
    Env → String → String → CommandStatus → String → Texts → Exec Tables Bool
unfolding current_status accept_report
report_in_transaction env id key status note result = transaction (do
  current ← handle (current_status id key) (λ e. fail (not_found_error key e))
  accept_report env id key status note result current)

-- updateAgentCommandStatus; the key is "" where the caller names no node
unfoldable pub update_status :
    Env → String → String → String → String → Texts → Exec Tables (Unit {0})
unfolding trim is_agent_command_report_status report_in_transaction emit_command_alert_and_audit
update_status env id key status note result =
    let next = read_status (trim status) in
    do
      unless (str_eq id "") (message "command id is required")
      unless (str_eq (trim status) "") (message "status is required")
      unless (not (is_agent_command_report_status next)) (unsupported_status (trim status))
      changed ← report_in_transaction env id key next note result
      if changed && is_terminal_report next
          then emit_command_alert_and_audit env id next note
          else pure tt

unfoldable pub update_agent_command_status :
    Env → String → String → String → Texts → Exec Tables (Unit {0})
unfolding update_status
update_agent_command_status env id status note result = update_status env id "" status note result

unfoldable pub update_agent_command_status_for_node :
    Env → String → String → String → String → Texts → Exec Tables (Unit {0})
unfolding update_status
update_agent_command_status_for_node env id key status note result = do
  unless (str_eq key "") (message "node public key is required")
  update_status env id key status note result
