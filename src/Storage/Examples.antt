-- ===== src/Storage/Examples.antt =====
-- The storage layer on concrete tables: a node with a pending command, its delivery and its control state.
use aria.Prelude.{
  ℕ, pos, ◌≡◌, refl, suc, ◌⊎◌, true, false, none, some, List, [], ◌∷◌, arith, find_where,
  update_where, count_where, trim, longest, longest-Others, All,
}
use aria.Sql.{World, ok}
use aria.Storage.{
  pending, sent, completed, failed, AgentCommand, PolicyDelivery, NodeControlState, Node, Tables,
  Env,
}
use aria.Storage.Command.{
  has_command_id, get_next_pending_agent_command, is_pending_of, delivered, marked_sent,
  new_command,
}
use aria.Storage.ControlState.{
  converged, diverged, get_convergence_status, merge_report, reported_row, command_report,
  blank_state, desire,
}
use aria.Storage.Report.{report_in_transaction, update_agent_command_status_for_node}
use aria.Storage.Failing.{
  fail_incomplete_agent_commands_for_node, fail_timed_out_agent_commands_for_node,
  count_incomplete_agent_commands, is_incomplete_of, is_timed_out_of,
}
use aria.Storage.Evolution.{Advances, id_of}
use aria.Storage.Moves.{IsFresh}
use aria.Storage.History.{Call, queue, get_next, report_for_node, after_calls, commands_advance}
use aria.Storage.Isolation.{foreign, report_for_node-isolated}
use aria.Storage.Atomic.{Written, report_in_transaction-atomic}
use aria.Storage.GiveUp.{GivenUp, reason, fail_incomplete-clears, fail_timed_out-counts}
use aria.Storage.Delivery.{IsAhead, put_back_overdue, get_next-first, get_next-none}
use aria.Storage.Convergence.{failed-diverged, completed-converged}
use aria.Storage.Alerts.{is_active_for}
use aria.Storage.Generators.{generate_node_offline_alert, generate_sync_failed_alert}
use aria.Storage.Deduplication.{OneEach, node_offline-OneEach, sync_failed-repeated}

abbrev env_at : ℕ → Env
env_at t = record {
  now = t;
  clock = t;
  command_id = longest id_of;
  alert_id = λ t. 7;
  version = "v1";
  decimal = λ n. "1";
}

ids-IsFresh : (t : ℕ) → IsFresh (env_at t)
ids-IsFresh t cs = longest-Others id_of cs

abbrev sync_command : AgentCommand
sync_command = new_command (env_at 10) "c1" "k1" "sync" [] (pos 1) (pos 30)

abbrev urgent_command : AgentCommand
urgent_command = new_command (env_at 20) "c2" "k1" "health_check" [] (pos 5) (pos 30)

abbrev foreign_command : AgentCommand
foreign_command = new_command (env_at 20) "c3" "k2" "sync" [] (pos 9) (pos 30)

abbrev delivery : PolicyDelivery
delivery = record {
  tenant_id = 1;
  node_id = 4;
  policy_domain = "acl";
  policy_ref = "p";
  policy_name = "";
  action = "apply";
  command_id = "c1";
  command_status = pending;
  last_error = "";
  metadata = [];
  created_at = 10;
  updated_at = 10;
  completed_at = none;
}

abbrev node : Node
node = record {
  id = 4;
  tenant_id = 1;
  public_key = "k1";
  hostname = "h";
  status = some "active";
  runtime_token_version = none;
  updated_at = 1;
}

abbrev tables : Tables
tables = record {
  commands = sync_command ∷ urgent_command ∷ foreign_command ∷ [];
  deliveries = delivery ∷ [];
  states = [];
  nodes = node ∷ [];
  tenants = [];
  users = [];
  certificates = [];
  audit_events = [];
  alerts = [];
}

abbrev world : World Tables
world = record { db = tables; faults = [] }

abbrev failed_command_tables : Tables
failed_command_tables = record tables {
  commands = record sync_command { status = failed } ∷ foreign_command ∷ [];
}

abbrev calls : List Call
calls =
    record { env = env_at 30; faults = []; operation = queue "k1" "sync" [] (pos 0) (pos 0) }
    ∷ record { env = env_at 31; faults = []; operation = get_next "k1" }
    ∷ record {
      env = env_at 32;
      faults = [];
      operation = report_for_node "c1" "k1" "completed" "" [];
    }
    ∷ []

commands_advance_example :
    (d : AgentCommand) × (find_where
        (has_command_id "c1")
        (after_calls calls failed_command_tables).commands
      ≡ some d)
    × (d.node_public_key ≡ "k1")
    × Advances failed d.status
commands_advance_example =
    commands_advance calls failed_command_tables "c1" (record sync_command { status = failed })
      (ids-IsFresh 30, (ids-IsFresh 31, (ids-IsFresh 32, tt))) ((refl, tt), (tt, tt)) refl

report_for_node-isolated_example :
    foreign "k2"
      (update_agent_command_status_for_node (env_at 40) "c1" "k2" "failed" "" [] world).1.db
    ≡ foreign "k2" tables
report_for_node-isolated_example =
    report_for_node-isolated (env_at 40) "c1" "k2" "failed" "" [] world

report_in_transaction-atomic_example :
    ((report_in_transaction (env_at 40) "c1" "k1" sent "" [] world).1.db ≡ tables)
    ⊎ (((report_in_transaction (env_at 40) "c1" "k1" sent "" [] world).0 ≡ ok true)
        × Written
            (env_at 40)
            "c1"
            "k1"
            sent
            ""
            []
            tables
            (report_in_transaction (env_at 40) "c1" "k1" sent "" [] world).1.db)
report_in_transaction-atomic_example =
    report_in_transaction-atomic (env_at 40) "c1" "k1" sent "" [] world

-- the same report commits
report_commits : (report_in_transaction (env_at 40) "c1" "k1" sent "" [] world).0 ≡ ok true
unfolding report_in_transaction trim
report_commits = refl

fail_incomplete-clears_example :
    GivenUp 40
      (reason "gone")
      (is_incomplete_of "k1")
      tables
      (fail_incomplete_agent_commands_for_node (env_at 40) "k1" "gone" world).1.db
    × ((count_incomplete_agent_commands "k1" (record {
      db = (fail_incomplete_agent_commands_for_node (env_at 40) "k1" "gone" world).1.db;
      faults = [];
    })).0
        ≡ ok 0)
unfolding fail_incomplete_agent_commands_for_node
fail_incomplete-clears_example = fail_incomplete-clears (env_at 40) "k1" "gone" world refl

abbrev late : ℕ
late = 100000000

fail_timed_out-counts_example :
    (2 ≡ count_where (is_timed_out_of late "k1") tables.commands)
    × GivenUp late "command timed out waiting for agent result"
        (is_timed_out_of late "k1")
        tables
        (fail_timed_out_agent_commands_for_node (env_at late) "k1" world).1.db
    × (count_where
          (is_timed_out_of late "k1")
          (fail_timed_out_agent_commands_for_node (env_at late) "k1" world).1.db.commands
        ≡ 0)
unfolding fail_timed_out_agent_commands_for_node
fail_timed_out-counts_example = fail_timed_out-counts (env_at late) "k1" world 2 refl

get_next-first_example :
    (c : AgentCommand) × IsAhead "k1" c (put_back_overdue (env_at 40) "k1" tables.commands)
    × (delivered 40 urgent_command ≡ delivered 40 c)
    × ((get_next_pending_agent_command (env_at 40) "k1" world).1.db.commands
        ≡ update_where
            (has_command_id c.id)
            (marked_sent 40)
            (put_back_overdue (env_at 40) "k1" tables.commands))
unfolding get_next_pending_agent_command
get_next-first_example = get_next-first (env_at 40) "k1" world (delivered 40 urgent_command) refl

get_next-none_example :
    ((get_next_pending_agent_command (env_at 40) "k9" world).1.db ≡ tables)
    × All (λ r. is_pending_of "k9" r ≡ false) (put_back_overdue (env_at 40) "k9" tables.commands)
unfolding get_next_pending_agent_command
get_next-none_example = get_next-none (env_at 40) "k9" world refl

abbrev desired_state : NodeControlState
desired_state = desire (env_at 5) 1 "v7" [] (blank_state (env_at 5) 1 4)

failed-diverged_example :
    get_convergence_status true (
      merge_report
        (env_at 40)
        (reported_row (env_at 40) 1 4 (command_report (env_at 40) "sync" [] failed "no route" []))
        desired_state)
    ≡ diverged
unfolding trim
failed-diverged_example = failed-diverged (env_at 40) 1 4 "sync" [] "no route" [] desired_state refl

completed-converged_example :
    get_convergence_status true (
      merge_report
        (env_at 40)
        (reported_row (env_at 40) 1 4 (
          command_report (env_at 40) "sync" [] completed "" (("applied_state_version", "v7") ∷ [])))
        desired_state)
    ≡ converged
unfolding trim
completed-converged_example =
    completed-converged (env_at 40) 1 4 [] "" (("applied_state_version", "v7") ∷ []) desired_state
      refl refl

node_offline-OneEach_example : OneEach (generate_node_offline_alert (env_at 40) 1 4 "h" world).1.db
node_offline-OneEach_example = node_offline-OneEach (env_at 40) 1 4 "h" world (λ t n k. omega arith)

sync_failed-repeated_example :
    count_where
      (is_active_for 1 4 "sync_failed")
      (generate_sync_failed_alert
        (env_at 40)
        1
        4
        "c1"
        "e"
        (record { db = tables; faults = true ∷ [] })).1.db.alerts
    ≡ suc (count_where (is_active_for 1 4 "sync_failed") tables.alerts)
sync_failed-repeated_example = sync_failed-repeated (env_at 40) 1 4 "c1" "e" tables
