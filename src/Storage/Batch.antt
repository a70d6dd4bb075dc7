-- ===== src/Storage/Batch.antt =====
-- pkg/controllerstorage/agent_commands.go: QueueAgentCommands, one INSERT for several nodes.
use aria.Prelude.{
  String, ℤ, Bool, false, Option, none, some, List, [], ◌∷◌, ◌||◌, not, str_eq, if◌then◌else◌, trim,
}
use aria.Sql.{
  unsupported_command, message, Result, ok, err, Exec, pure, fail, run, ◌>>=◌, ◌>>◌, unless,
}
use aria.Storage.{Params, AgentCommand, Tables, Env}
use aria.Storage.Command.{is_allowed_agent_command, default_timeout, insert_command, of_node}

-- the INSERT with a row for each target, and its RETURNING
unfoldable pub insert_commands :
    Env → List String → String → Params → ℤ → ℤ → Tables → List AgentCommand × Tables
insert_commands env [] command params priority timeout db = ([], db)
insert_commands env (key ∷ keys) command params priority timeout db =
    let first = insert_command env key command params priority timeout db in
    let rest = insert_commands env keys command params priority timeout first.1 in
    (first.0 ∷ rest.0, rest.1)

-- the map byNode: a later row of a node takes the place of an earlier one
abbrev pub by_node : String → List AgentCommand → Option AgentCommand
by_node key [] = none
by_node key (c ∷ cs) = elim (by_node key cs) [
  | some d ↦ some d
  | none ↦ if of_node key c then some c else none
]

abbrev pub add_found : Option AgentCommand → Result (List AgentCommand) → Result (List AgentCommand)
add_found none rest = err (message "queued agent command missing for node")
add_found (some c) (ok cs) = ok (c ∷ cs)
add_found (some c) (err e) = err e

-- the last loop: the commands in the order of the targets
unfoldable pub in_order : List String → List AgentCommand → Result (List AgentCommand)
in_order [] rows = ok []
in_order (key ∷ keys) rows = add_found (by_node key rows) (in_order keys rows)

abbrev pub has_blank : List String → Bool
has_blank [] = false
has_blank (key ∷ keys) = str_eq key "" || has_blank keys

abbrev pub returned : {A : Type 0} → Result A → Exec Tables A
returned (ok a) = pure a
returned (err e) = fail e

-- QueueAgentCommands
unfoldable pub queue_agent_commands :
    Env → List String → String → Params → ℤ → ℤ → Exec Tables (List AgentCommand)
unfolding is_allowed_agent_command insert_commands in_order
queue_agent_commands env [] command params priority timeout = pure []
queue_agent_commands env (key ∷ keys) command params priority timeout = do
  unless (str_eq (trim command) "") (message "command is required")
  unless (not (is_allowed_agent_command (trim command))) (unsupported_command (trim command))
  unless (has_blank (key ∷ keys)) (message "node public key is required")
  rows ←
      run
        (insert_commands env (key ∷ keys) (trim command) params priority (default_timeout timeout))
  returned (in_order (key ∷ keys) rows)
