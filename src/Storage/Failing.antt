-- ===== src/Storage/Failing.antt =====
-- pkg/controllerstorage/agent_commands.go: the commands of a node that can no longer be carried out, and
-- the counts and lists of a node's commands.
use aria.Prelude.{
  ℕ, String, ℤ, pos, lezb, pos_part, Bool, true, false, Option, none, some, List, [], ◌∷◌, ltb,
  ◌&&◌, str_eq, if◌then◌else◌, update_where, count_where, rows_where, first_where, order_by, take,
}
use aria.Sql.{message, Exec, pure, run, query, ◌>>=◌, ◌>>◌, unless, commit, transaction}
use aria.Storage.{failed, is_incomplete, AgentCommand, PolicyDelivery, Tables, Env}
use aria.Storage.Command.{of_node, is_overdue}

abbrev pub failed_command : ℕ → String → AgentCommand → AgentCommand
failed_command now note c = record c {
  status = failed;
  message = note;
  updated_at = now;
  completed_at = some now;
}

abbrev pub failed_delivery : ℕ → String → PolicyDelivery → PolicyDelivery
failed_delivery now note d = record d {
  command_status = failed;
  last_error = note;
  updated_at = now;
  completed_at = some now;
}

-- command_id IN (SELECT id FROM agent_commands WHERE fits)
abbrev pub delivers : (AgentCommand → Bool) → List AgentCommand → PolicyDelivery → Bool
delivers fits [] d = false
delivers fits (c ∷ cs) d =
    let rest = delivers fits cs d in if fits c && str_eq d.command_id c.id then true else rest

-- the two UPDATEs: the deliveries first, while the commands still fit; then the commands, counted
abbrev pub fail_commands : ℕ → String → (AgentCommand → Bool) → Exec Tables ℕ
fail_commands now note fits = do
  run (λ db. (
    tt,
    record db {
      deliveries =
          update_where (delivers fits db.commands) (failed_delivery now note) db.deliveries;
    },
  ))
  run (λ db. (
    count_where fits db.commands,
    record db { commands = update_where fits (failed_command now note) db.commands },
  ))

abbrev pub is_incomplete_of : String → AgentCommand → Bool
is_incomplete_of key c = of_node key c && is_incomplete c.status

abbrev pub is_timed_out_of : ℕ → String → AgentCommand → Bool
is_timed_out_of now key c = is_incomplete_of key c && is_overdue now c

-- failTimedOutAgentCommandsForNodeTx
unfoldable pub fail_timed_out_tx : Env → String → Exec Tables ℕ
fail_timed_out_tx env key = do
  unless (str_eq key "") (message "node public key is required")
  fail_commands env.now "command timed out waiting for agent result" (is_timed_out_of env.now key)

-- failIncompleteAgentCommandsForNodeTx
unfoldable pub fail_incomplete_tx : Env → String → String → Exec Tables (Unit {0})
fail_incomplete_tx env key note = do
  unless (str_eq key "") (message "node public key is required")
  fail_commands env.now (if str_eq note "" then "node is no longer active" else note)
      (is_incomplete_of key)
  pure tt

unfoldable pub fail_incomplete_agent_commands_for_node :
    Env → String → String → Exec Tables (Unit {0})
unfolding fail_incomplete_tx
fail_incomplete_agent_commands_for_node env key note =
    transaction (do fail_incomplete_tx env key note; pure (commit tt))

unfoldable pub fail_timed_out_agent_commands_for_node : Env → String → Exec Tables ℕ
unfolding fail_timed_out_tx
fail_timed_out_agent_commands_for_node env key =
    transaction (do n ← fail_timed_out_tx env key; pure (commit n))

-- CountIncompleteAgentCommands
unfoldable pub count_incomplete_agent_commands : String → Exec Tables ℕ
count_incomplete_agent_commands key = query (λ db. count_where (is_incomplete_of key) db.commands)

-- ORDER BY created_at DESC
abbrev pub newer : AgentCommand → AgentCommand → Bool
newer a b = ltb b.created_at a.created_at

-- GetLastAgentCommand; GetLastAgentCommandID returns its identifier, or ""
unfoldable pub get_last_agent_command : String → Exec Tables (Option AgentCommand)
get_last_agent_command key = query (λ db. first_where newer (of_node key) db.commands)

abbrev pub id_or_empty : Option AgentCommand → String
id_or_empty none = ""
id_or_empty (some c) = c.id

unfoldable pub get_last_agent_command_id : String → Exec Tables String
get_last_agent_command_id key =
    query (λ db. id_or_empty (first_where newer (of_node key) db.commands))

unfoldable pub list_recent_agent_commands : String → ℤ → Exec Tables (List AgentCommand)
list_recent_agent_commands key limit =
    let n = if lezb limit (pos 0) then 10 else pos_part limit in
    query (λ db. take n (order_by newer (rows_where (of_node key) db.commands)))
