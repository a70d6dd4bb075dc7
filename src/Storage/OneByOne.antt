-- ===== src/Storage/OneByOne.antt =====
-- pkg/controllerstorage/agent_commands.go: a batch of commands against queueing them one by one.
use aria.Prelude.{
  String, ℤ, true, false, Option, none, some, List, [], ◌∷◌, ◌≡◌, refl, inl, inr, str_eq, eq_iff,
  eq_refl, if◌then◌else◌, Bool-cases, trim, arith,
}
use aria.Sql.{unsupported_command, message, ok, err, Exec, World, pure, ◌>>=◌}
use aria.Storage.{Params, AgentCommand, Tables, Env}
use aria.Storage.Command.{
  is_allowed_agent_command, default_timeout, insert_command, of_node, queue_agent_command,
}
use aria.Storage.Batch.{insert_commands, by_node, in_order, has_blank, queue_agent_commands}

-- no node is there twice
abbrev pub NotAmong : String → List String → Type 0
NotAmong key [] = Unit
NotAmong key (k ∷ ks) = (str_eq key k ≡ false) × NotAmong key ks

abbrev pub AllDifferent : List String → Type 0
AllDifferent [] = Unit
AllDifferent (k ∷ ks) = NotAmong k ks × AllDifferent ks

-- QueueAgentCommand for each node in turn
abbrev pub queue_each :
    Env → List String → String → Params → ℤ → ℤ → Exec Tables (List AgentCommand)
queue_each env [] command params priority timeout = pure []
queue_each env (key ∷ keys) command params priority timeout = do
  c ← queue_agent_command env key command params priority timeout
  cs ← queue_each env keys command params priority timeout
  pure (c ∷ cs)

-- a run in which no statement fails
abbrev pub calm : Tables → World Tables
calm db = record { db = db; faults = [] }

by_node-other :
    (key : String) (keys : List String) (rows : List AgentCommand) (c : AgentCommand)
    → NotAmong c.node_public_key keys
    → in_order keys (c ∷ rows) ≡ in_order keys rows
unfolding in_order
by_node-other key [] rows c h = refl
by_node-other key (k ∷ ks) rows c h =
    rw (same (by_node k rows), by_node-other key ks rows c h.1) refl
  where
    same :
        (o : Option AgentCommand)
        → elim o [ some d ↦ some d | none ↦ if of_node k c then some c else none ] ≡ o
    same none = rw h.0 refl
    same (some d) = refl

module _ (env : Env) (command : String) (params : Params) (priority timeout : ℤ) where
  by_node-none :
      (key : String) (keys : List String) (db : Tables)
      → NotAmong key keys
      → by_node key (insert_commands env keys command params priority timeout db).0 ≡ none
  unfolding insert_commands
  by_node-none key [] db h = refl
  by_node-none key (k ∷ ks) db h =
      let other : str_eq k key ≡ false = ground (arith, h.0, eq_iff k key, eq_iff key k) in
      rw
        (by_node-none key ks (insert_command env k command params priority timeout db).1 h.1, other)
        refl

  in_order-insert :
      (keys : List String) (db : Tables)
      → AllDifferent keys
      → in_order keys (insert_commands env keys command params priority timeout db).0
        ≡ ok (insert_commands env keys command params priority timeout db).0
  unfolding insert_commands in_order
  in_order-insert [] db h = refl
  in_order-insert (k ∷ ks) db h =
      let first = insert_command env k command params priority timeout db in
      rw
        (
          by_node-none k ks first.1 h.0,
          eq_refl k,
          by_node-other k ks (insert_commands env ks command params priority timeout first.1).0
              first.0 h.0,
          in_order-insert ks first.1 h.1,
        )
        refl

queue_each-run :
    (env : Env) (command : String) (params : Params) (priority timeout : ℤ) (keys : List String)
    (db : Tables)
    → has_blank keys ≡ false
    → str_eq (trim command) "" ≡ false
    → is_allowed_agent_command (trim command) ≡ true
    → let out =
        insert_commands env keys (trim command) params priority (default_timeout timeout) db in
      queue_each env keys command params priority timeout (calm db) ≡ (ok out.0, calm out.1)
unfolding queue_agent_command insert_commands
queue_each-run env command params priority timeout [] db b h a = refl
queue_each-run env command params priority timeout (k ∷ ks) db b h a =
    let named : str_eq k "" ≡ false = ground (arith, b) in
    let others : has_blank ks ≡ false = ground (arith, b) in
    let first = insert_command env k (trim command) params priority (default_timeout timeout) db in
    rw (named, h, a, queue_each-run env command params priority timeout ks first.1 others h a) refl

-- the errors that queueing one command refuses it with
module _ (env : Env) (key command : String) (params : Params) (priority timeout : ℤ)
    (db : Tables) where
  queue_agent_command-blank :
      str_eq key "" ≡ false
      → str_eq (trim command) "" ≡ true
      → queue_agent_command env key command params priority timeout (calm db)
        ≡ (err (message "command is required"), calm db)
  unfolding queue_agent_command
  queue_agent_command-blank n h = rw (n, h) refl

  queue_agent_command-unsupported :
      str_eq key "" ≡ false
      → str_eq (trim command) "" ≡ false
      → is_allowed_agent_command (trim command) ≡ false
      → queue_agent_command env key command params priority timeout (calm db)
        ≡ (err (unsupported_command (trim command)), calm db)
  unfolding queue_agent_command
  queue_agent_command-unsupported n h a = rw (n, h, a) refl

-- With no statement failing, a batch of commands for nodes that all differ, each with a key, does what queueing a
-- command for each of them in turn does: the same commands or the same error, and the same tables.
pub queue_agent_commands-queue_each :
    (env : Env) (keys : List String) (command : String) (params : Params) (priority timeout : ℤ)
    (db : Tables)
    → AllDifferent keys
    → has_blank keys ≡ false
    → queue_agent_commands env keys command params priority timeout (calm db)
      ≡ queue_each env keys command params priority timeout (calm db)
unfolding queue_agent_commands
queue_agent_commands-queue_each env [] command params priority timeout db d b = refl
queue_agent_commands-queue_each env (k ∷ ks) command params priority timeout db d b =
    let named : str_eq k "" ≡ false = ground (arith, b) in
    elim (Bool-cases (str_eq (trim command) "")) [
      | inl h ↦
          rw (queue_agent_command-blank env k command params priority timeout db named h, h) refl
      | inr h ↦ elim (Bool-cases (is_allowed_agent_command (trim command))) [
        | inl a ↦
            rw
              (
                queue_each-run env command params priority timeout (k ∷ ks) db b h a,
                h,
                a,
                b,
                in_order-insert env (trim command) params priority (default_timeout timeout)
                    (k ∷ ks) db d,
              )
              refl
        | inr a ↦
            rw
              (
                queue_agent_command-unsupported env k command params priority timeout db named h a,
                h,
                a,
              )
              refl
      ]
    ]
