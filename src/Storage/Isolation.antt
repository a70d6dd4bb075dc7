-- ===== src/Storage/Isolation.antt =====
-- pkg/controllerstorage/agent_commands.go: an agent reaches the commands of its own node alone.
use aria.Prelude.{
  String, ◌≡◌, refl, Bool, true, false, Option, none, some, List, arith, update_where, count_where,
  rows_where, rows_where-update_where, str_eq, ◌||◌, find_where, ◌==◌, not, ap,
}
use aria.Sql.{Error, Result, ok, err, World, Exec, fail, run, commit, rollback, message}
use aria.Sql.Rules.{
  Rel, Preorder, rel_rules, Rel-run, Rel-bind, Rel-then, Rel-pure, Rel-if, Rel-statement, Same,
  Same-Preorder, Rel-transaction, Rel-handle, Rel-fail, unless-then-at,
}
use aria.Storage.{Texts, CommandStatus, stale, command_status_eq, AgentCommand, Tables, Env}
use aria.Storage.Command.{of_node}
use aria.Storage.Notify.{emit_command_alert_and_audit}
use aria.Storage.Report.{
  is_target, is_updatable, reported, validate_transition, write_report, accept_report,
  report_in_transaction, look, update_status, update_agent_command_status_for_node, current_status,
  status_of, not_updated,
}
use aria.Storage.Keeps.{
  KeepsCommands, sync_node_control_state-keeps, delivery_status-keeps, emit-keeps,
}

-- the commands of the other nodes
abbrev pub foreign : String → Tables → List AgentCommand
foreign key db = rows_where (λ c. not (of_node key c)) db.commands

abbrev Apart : String → Tables → Tables → Type 0
Apart key = Same (foreign key)

same : (key : String) → Preorder (Apart key)
same key = Same-Preorder (foreign key)

keeps-Apart : {A : Type 0} (key : String) (m : Exec Tables A) → KeepsCommands m → Rel (Apart key) m
keeps-Apart key m h = record { at = λ w. ap (rows_where (λ c. not (of_node key c))) (h.at w) }

update-Apart :
    {A : Type 0} (key : String) (p : AgentCommand → Bool) (f : AgentCommand → AgentCommand)
    (out : Tables → A)
    → ((c : AgentCommand) → p c ≡ true → (of_node key c ≡ true) × (of_node key (f c) ≡ true))
    → Rel
        (Apart key)
        (run (λ (db : Tables). (out db, record db { commands = update_where p f db.commands })))
update-Apart key p f out mine =
    Rel-run (same key)
      (λ (db : Tables). (out db, record db { commands = update_where p f db.commands }))
      (λ db.
        rows_where-update_where (λ c. not (of_node key c)) p f
          (λ c e. (ap not (mine c e).0, ap not (mine c e).1)) db.commands)

module _ (env : Env) (id key : String) (given : str_eq key "" ≡ false) where
  write-Apart :
      (next : CommandStatus) (note : String) (result : Texts)
      → Rel (Apart key) (
          run (λ (db : Tables). (
            count_where (is_updatable id key) db.commands,
            record db {
              commands =
                  update_where
                    (is_updatable id key)
                    (reported env.now next note result)
                    db.commands;
            },
          )))
  write-Apart next note result =
      update-Apart key (is_updatable id key) (reported env.now next note result)
        (λ db. count_where (is_updatable id key) db.commands)
        (λ c e. (ground (arith, given), ground (arith, given)))

  read-Apart : Rel (Apart key) (current_status id key)
  unfolding current_status
  read-Apart =
      Rel-statement (same key)
        (λ (db : Tables). (status_of (find_where (is_target id key) db.commands), db)) (λ db. refl)

  not_updated-Apart : (r : Result CommandStatus) → Rel (Apart key) (not_updated key r)
  not_updated-Apart (ok c) = unfold not_updated in search (rel_rules, same)
  not_updated-Apart (err e) = unfold not_updated in search (rel_rules, same)

  write_report-Apart :
      (next : CommandStatus) (note : String) (result : Texts)
      → Rel (Apart key) (write_report env id key next note result)
  unfolding write_report
  write_report-Apart next note result =
      let deliveries = keeps-Apart key _ (delivery_status-keeps env id next note) in
      let states = keeps-Apart key _ (sync_node_control_state-keeps env id next note result) in
      let reading : Rel (Apart key) (look (current_status id key)) = record {
        at = λ w. read-Apart.at w;
      } in
      Rel-bind (same key) _ _ (write-Apart next note result) (λ affected.
        Rel-if (same key) (affected == 0) _ _ (Rel-bind (same key) _ _ reading not_updated-Apart) (
          Rel-then (same key) _ _ deliveries
            (Rel-then (same key) _ _ states (Rel-pure (same key) (commit true)))))

  accept_report-Apart :
      (next : CommandStatus) (note : String) (result : Texts) (current : CommandStatus)
      → Rel (Apart key) (accept_report env id key next note result current)
  unfolding accept_report
  accept_report-Apart next note result current =
      Rel-if (same key) (command_status_eq current stale || command_status_eq current next) _ _
        (Rel-pure (same key) (rollback false)) (checked (validate_transition current next))
    where
      checked :
          (v : Option Error)
          → Rel
              (Apart key)
              (elim v [ some e ↦ fail e | none ↦ write_report env id key next note result ])
      checked (some e) = Rel-fail (same key) e
      checked none = write_report-Apart next note result

  report_in_transaction-Apart :
      (next : CommandStatus) (note : String) (result : Texts)
      → Rel (Apart key) (report_in_transaction env id key next note result)
  unfolding report_in_transaction
  report_in_transaction-Apart next note result = Rel-transaction (same key) _ (
      Rel-bind (same key) _ _ (Rel-handle (same key) _ _ read-Apart (λ e. Rel-fail (same key) _))
        (accept_report-Apart next note result))

  alerts-Apart :
      (next : CommandStatus) (note : String)
      → Rel (Apart key) (emit_command_alert_and_audit env id next note)
  alerts-Apart next note = keeps-Apart key _ (emit-keeps env id next note)

  update_status-Apart :
      (status note : String) (result : Texts)
      → Rel (Apart key) (update_status env id key status note result)
  unfolding update_status
  update_status-Apart status note result =
      search (rel_rules, same, report_in_transaction-Apart, alerts-Apart) depth 9

-- A report that names its node leaves the commands of every other node as they are, whatever it says, whatever
-- command it names, and whatever statements fail.
pub report_for_node-isolated :
    (env : Env) (id key status note : String) (result : Texts) (w : World Tables)
    → foreign key (update_agent_command_status_for_node env id key status note result w).1.db
      ≡ foreign key w.db
unfolding update_agent_command_status_for_node
report_for_node-isolated env id key status note result w =
    unless-then-at (same key) (str_eq key "") (message "node public key is required")
      (update_status env id key status note result) w
      (λ e. (update_status-Apart env id key e status note result).at w)
