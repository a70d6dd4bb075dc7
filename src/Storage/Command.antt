-- ===== src/Storage/Command.antt =====
-- pkg/controllerstorage/agent_commands.go: queueing, delivery and the status machine of commands.
use aria.Prelude.{
  ℕ, String, ℤ, pos, ltzb, lezb, Bool, true, false, Option, none, some, [], ◌∷◌, ◌++◌, ltb, ◌==◌,
  ◌&&◌, ◌||◌, not, str_eq, if◌then◌else◌, update_where, count_where, first_where, trim,
}
use aria.Sql.{
  unsupported_command, message, Exec, pure, run, query, ◌>>=◌, ◌>>◌, unless, Outcome, commit,
  rollback, transaction,
}
use aria.Storage.{
  Value, null, text, flag, other, Params, Texts, pending, sent, command_status_eq, AgentCommand,
  Tables, Env, add_secs,
}

-- allowedAgentCommands, IsAllowedAgentCommand
unfoldable pub is_allowed_agent_command : String → Bool
unfolding trim
is_allowed_agent_command command =
    let c = trim command in str_eq c "sync" || str_eq c "health_check" || str_eq c "config_reload"

-- stringifyCommandParams, one value
abbrev pub stringify : Value → String
stringify null = ""
stringify (text s) = s
stringify (flag true) = "true"
stringify (flag false) = "false"
stringify (other s) = s

unfoldable pub stringify_command_params : Params → Texts
stringify_command_params [] = []
stringify_command_params ((k, v) ∷ m) = (k, stringify v) ∷ stringify_command_params m

-- AgentCommand.Params
abbrev pub command_params : AgentCommand → Texts
command_params c = stringify_command_params c.raw_params

-- if timeoutSeconds <= 0 { timeoutSeconds = 30 }
abbrev pub default_timeout : ℤ → ℤ
default_timeout n = if lezb n (pos 0) then pos 30 else n

-- the row that the INSERT makes
abbrev pub new_command : Env → String → String → String → Params → ℤ → ℤ → AgentCommand
new_command env id key command params priority timeout = record {
  id = id;
  node_public_key = key;
  command = command;
  raw_params = params;
  status = pending;
  message = "";
  priority = priority;
  timeout_seconds = timeout;
  created_at = env.now;
  updated_at = env.now;
  sent_at = none;
  acknowledged_at = none;
  completed_at = none;
  deadline_at = some (add_secs env.now timeout);
  result = [];
}

-- the INSERT
abbrev pub insert_command : Env → String → String → Params → ℤ → ℤ → Tables → AgentCommand × Tables
insert_command env key command params priority timeout db =
    let c = new_command env (env.command_id db.commands) key command params priority timeout in
    (c, record db { commands = db.commands ++ c ∷ [] })

-- queueAgentCommand, QueueAgentCommand
unfoldable pub queue_agent_command :
    Env → String → String → Params → ℤ → ℤ → Exec Tables AgentCommand
unfolding is_allowed_agent_command
queue_agent_command env key command params priority timeout = do
  unless (str_eq key "") (message "node public key is required")
  unless (str_eq (trim command) "") (message "command is required")
  unless (not (is_allowed_agent_command (trim command))) (unsupported_command (trim command))
  run (insert_command env key (trim command) params priority (default_timeout timeout))

abbrev pub of_node : String → AgentCommand → Bool
of_node key c = str_eq c.node_public_key key

-- deadline_at IS NOT NULL AND deadline_at < NOW()
abbrev pub is_overdue : ℕ → AgentCommand → Bool
is_overdue now c = elim c.deadline_at [ none ↦ false | some d ↦ ltb d now ]

-- the commands that GetNextPendingAgentCommand puts back
abbrev pub to_requeue : ℕ → String → AgentCommand → Bool
to_requeue now key c = of_node key c && (command_status_eq c.status sent && is_overdue now c)

abbrev pub requeued : ℕ → AgentCommand → AgentCommand
requeued now c = record c {
  status = pending;
  message = "command delivery timed out; requeued";
  sent_at = none;
  updated_at = now;
}

abbrev pub is_pending_of : String → AgentCommand → Bool
is_pending_of key c = of_node key c && command_status_eq c.status pending

-- ORDER BY priority DESC, created_at ASC
abbrev pub goes_first : AgentCommand → AgentCommand → Bool
goes_first a b =
    ltzb b.priority a.priority
    || (not (ltzb a.priority b.priority) && ltb a.created_at b.created_at)

abbrev pub has_command_id : String → AgentCommand → Bool
has_command_id i c = str_eq c.id i

abbrev pub marked_sent : ℕ → AgentCommand → AgentCommand
marked_sent t c = record c {
  status = sent;
  sent_at = some t;
  deadline_at = some (add_secs t c.timeout_seconds);
  updated_at = t;
}

-- the command that the caller gets: the row that was read, with three fields set
abbrev pub delivered : ℕ → AgentCommand → AgentCommand
delivered t c = record c { status = sent; sent_at = some t; updated_at = t }

unfoldable pub send_next : Env → Option AgentCommand → Exec Tables (Outcome (Option AgentCommand))
send_next env none = pure (rollback none)
send_next env (some c) = do
  run (λ db. (
    tt,
    record db { commands = update_where (has_command_id c.id) (marked_sent env.clock) db.commands },
  ))
  pure (commit (some (delivered env.clock c)))

unfoldable pub get_next_pending_agent_command : Env → String → Exec Tables (Option AgentCommand)
unfolding send_next
get_next_pending_agent_command env key = transaction (do
  run (λ db. (
    tt,
    record db { commands = update_where (to_requeue env.now key) (requeued env.now) db.commands },
  ))
  next ← query (λ db. first_where goes_first (is_pending_of key) db.commands)
  send_next env next)

-- RequeueSentAgentCommand
abbrev pub is_sent_of : String → String → AgentCommand → Bool
is_sent_of id key c = has_command_id id c && (of_node key c && command_status_eq c.status sent)

abbrev pub put_back : ℕ → String → AgentCommand → AgentCommand
put_back now note c = record c {
  status = pending;
  message = note;
  sent_at = none;
  deadline_at = some (add_secs now c.timeout_seconds);
  updated_at = now;
}

unfoldable pub requeue_sent_agent_command : Env → String → String → String → Exec Tables (Unit {0})
requeue_sent_agent_command env id key note = do
  unless (str_eq id "") (message "command id is required")
  unless (str_eq key "") (message "node public key is required")
  affected ← run (λ db. (
    count_where (is_sent_of id key) db.commands,
    record db {
      commands =
          update_where (is_sent_of id key)
            (put_back env.now
              (if str_eq note "" then "command delivery failed; requeued" else note))
            db.commands;
    },
  ))
  unless (affected == 0) (message "sent agent command was not requeued for node")
