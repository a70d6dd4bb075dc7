-- ===== src/Storage/Moves.antt =====
-- pkg/controllerstorage/agent_commands.go: every operation moves commands forward.
use aria.Prelude.{
  ℕ, String, ℤ, ◌≡◌, refl, Bool, true, Option, none, some, List, [], ◌∷◌, ◌++◌, arith, inl, inr,
  Bool-cases, if◌then◌else◌, update_where, count_where, str_eq, Distinct, Others, eq_iff,
  first_where, eq_refl, first_where-some,
}
use aria.Sql.{commit, World, Exec, fault, run, query, ◌>>=◌}
use aria.Sql.Rules.{
  Rel, Preorder, Same, Same-Preorder, rel_rules, Rel-run, Rel-statement, Rel-bind, Rel-then,
  Rel-query, Rel-pure, Rel-fail, Rel-handle, Rel-transaction, Rel-if, Rel-unless, Rel-read-bind,
  Reads-query,
}
use aria.Storage.{Params, sent, is_incomplete, AgentCommand, PolicyDelivery, Tables, Env}
use aria.Storage.Command.{
  new_command, insert_command, queue_agent_command, get_next_pending_agent_command,
  requeue_sent_agent_command, send_next, to_requeue, requeued, has_command_id, marked_sent,
  is_pending_of, goes_first, is_sent_of, put_back,
}
use aria.Storage.Failing.{
  fail_commands, failed_command, delivers, failed_delivery, is_incomplete_of, is_timed_out_of,
  fail_timed_out_agent_commands_for_node, fail_incomplete_agent_commands_for_node,
  fail_incomplete_tx, fail_timed_out_tx,
}
use aria.Storage.Keeps.{KeepsCommands}
use aria.Storage.Evolution.{
  Advances, Evolves, Evolves-refl, Evolves-append, All-of, Tracks, Tracks-Preorder, Same-Tracks,
  update-Tracks, id_of, found_only, fitting_only,
}

-- an identifier that gen_random_uuid() gives is on no row yet
abbrev pub IsFresh : Env → Type 0
IsFresh env = (cs : List AgentCommand) → Others id_of (env.command_id cs) cs

tracking : Preorder Tracks
tracking = Tracks-Preorder

-- one UPDATE of commands that advances every row it fits
pub update-moves :
    {A : Type 0} (p : AgentCommand → Bool) (f : AgentCommand → AgentCommand) (out : Tables → A)
    → ((c : AgentCommand) → (f c).id ≡ c.id)
    → ((c : AgentCommand) → (f c).node_public_key ≡ c.node_public_key)
    → ((c : AgentCommand) → p c ≡ true → Advances c.status (f c).status)
    → Rel Tracks
        (run (λ (db : Tables). (out db, record db { commands = update_where p f db.commands })))
update-moves p f out ids keys step =
    Rel-run tracking
      (λ (db : Tables). (out db, record db { commands = update_where p f db.commands }))
      (λ db.
        update-Tracks p f ids keys db
          (λ d. All-of (λ c. p c ≡ true → Advances c.status (f c).status) db.commands step))

pub keeps-moves : {A : Type 0} (m : Exec Tables A) → KeepsCommands m → Rel Tracks m
keeps-moves m h = record { at = λ w. Same-Tracks w.db (m w).1.db (h.at w) }

Distinct-insert :
    (cs : List AgentCommand) (c : AgentCommand)
    → Distinct id_of cs
    → Others id_of c.id cs
    → Distinct id_of (cs ++ c ∷ [])
Distinct-insert [] c d o = (tt, tt)
Distinct-insert (r ∷ cs) c d o = (Others-insert cs d.0, Distinct-insert cs c d.1 o.1)
  where
    Others-insert :
        (cs : List AgentCommand) → Others id_of r.id cs → Others id_of r.id (cs ++ c ∷ [])
    Others-insert [] h = (ground (arith, o.0, eq_iff r.id c.id, eq_iff c.id r.id), tt)
    Others-insert (u ∷ cs) h = (h.0, Others-insert cs h.1)

pub insert-moves :
    (env : Env) (key command : String) (params : Params) (priority timeout : ℤ)
    → IsFresh env
    → Rel Tracks (run (insert_command env key command params priority timeout))
insert-moves env key command params priority timeout new =
    Rel-run tracking (insert_command env key command params priority timeout) (λ db d.
      let c = new_command env (env.command_id db.commands) key command params priority timeout in
      (Evolves-append db.commands (c ∷ []), Distinct-insert db.commands c d (new db.commands)))

pub ruleset move_rules = (rel_rules, Tracks-Preorder, insert-moves)

pub queue-moves :
    (env : Env) (key command : String) (params : Params) (priority timeout : ℤ)
    → IsFresh env
    → Rel Tracks (queue_agent_command env key command params priority timeout)
unfolding queue_agent_command
queue-moves env key command params priority timeout new = search move_rules

requeue_overdue-moves :
    (env : Env) (key : String)
    → Rel Tracks (
        run (λ (db : Tables). (
          tt {0},
          record db {
            commands = update_where (to_requeue env.now key) (requeued env.now) db.commands;
          },
        )))
requeue_overdue-moves env key =
    update-moves (to_requeue env.now key) (requeued env.now) (λ db. tt) (λ c. refl) (λ c. refl)
      (λ c e. ground arith)

is_pending-Advances :
    (key : String) (c : AgentCommand) → is_pending_of key c ≡ true → Advances c.status sent
is_pending-Advances key c e = ground arith

-- the row that was read is pending, so marking it moves it on
mark_sent-Tracks :
    (env : Env) (key : String) (db : Tables) (c : AgentCommand)
    → first_where goes_first (is_pending_of key) db.commands ≡ some c
    → Tracks db (record db {
      commands = update_where (has_command_id c.id) (marked_sent env.clock) db.commands;
    })
mark_sent-Tracks env key db c found =
    update-Tracks (has_command_id c.id) (marked_sent env.clock) (λ d. refl) (λ d. refl) db
      (λ dist.
        let (row, e) = first_where-some goes_first (is_pending_of key) db.commands found in
        fitting_only (has_command_id c.id) c.id (λ d g. g) (λ d. Advances d.status sent) db.commands
          dist c row (eq_refl c.id) (is_pending-Advances key c e))

send_next-moves :
    (env : Env) (key : String)
    → Rel Tracks (
        query (λ (db : Tables). first_where goes_first (is_pending_of key) db.commands)
        >>= send_next env)
send_next-moves env key =
    Rel-read-bind Tracks tracking
      (λ found db. first_where goes_first (is_pending_of key) db.commands ≡ found)
      (query (λ (db : Tables). first_where goes_first (is_pending_of key) db.commands))
      (send_next env)
      (Reads-query (λ (db : Tables). first_where goes_first (is_pending_of key) db.commands)) marks
  where
    marks :
        (found : Option AgentCommand) (w : World Tables)
        → first_where goes_first (is_pending_of key) w.db.commands ≡ found
        → Tracks w.db (send_next env found w).1.db
    marks none w h = unfold send_next in tracking.here w.db
    marks (some c) w h =
        unfold send_next in
        elim (Bool-cases (fault w.faults)) [
          | inl e ↦ rw e (tracking.here w.db)
          | inr e ↦ rw e (mark_sent-Tracks env key w.db c h)
        ]

pub get_next-moves :
    (env : Env) (key : String) → Rel Tracks (get_next_pending_agent_command env key)
unfolding get_next_pending_agent_command
get_next-moves env key = search (move_rules, requeue_overdue-moves, send_next-moves)

put_back-moves :
    (env : Env) (id key note : String)
    → Rel Tracks (
        run (λ (db : Tables). (
          count_where (is_sent_of id key) db.commands,
          record db {
            commands = update_where (is_sent_of id key) (put_back env.now note) db.commands;
          },
        )))
put_back-moves env id key note =
    update-moves (is_sent_of id key) (put_back env.now note)
      (λ db. count_where (is_sent_of id key) db.commands) (λ c. refl) (λ c. refl)
      (λ c e. ground arith)

pub requeue_sent-moves :
    (env : Env) (id key note : String) → Rel Tracks (requeue_sent_agent_command env id key note)
unfolding requeue_sent_agent_command
requeue_sent-moves env id key note = search (move_rules, put_back-moves)

-- a statement that only writes the deliveries
pub deliveries-moves :
    (f : Tables → List PolicyDelivery)
    → Rel Tracks (run (λ (db : Tables). (tt {0}, record db { deliveries = f db })))
deliveries-moves f =
    Rel-run tracking (λ (db : Tables). (tt {0}, record db { deliveries = f db }))
      (λ db. Same-Tracks db (record db { deliveries = f db }) refl)

-- failing commands that are still incomplete
fail_commands-moves :
    (now : ℕ) (note : String) (fits : AgentCommand → Bool)
    → ((c : AgentCommand) → fits c ≡ true → is_incomplete c.status ≡ true)
    → Rel Tracks (fail_commands now note fits)
fail_commands-moves now note fits open_ =
    Rel-then tracking _ _
      (deliveries-moves
        (λ db. update_where (delivers fits db.commands) (failed_delivery now note) db.deliveries))
      (update-moves fits (failed_command now note) (λ db. count_where fits db.commands) (λ c. refl)
        (λ c. refl) (λ c e. let h = open_ c e in ground arith))

pub fail_timed_out-moves :
    (env : Env) (key : String) → Rel Tracks (fail_timed_out_agent_commands_for_node env key)
unfolding fail_timed_out_agent_commands_for_node fail_timed_out_tx
fail_timed_out-moves env key =
    let writes =
      fail_commands-moves env.now "command timed out waiting for agent result"
        (is_timed_out_of env.now key) (λ c e. ground arith) in
    Rel-transaction tracking _ (
      Rel-bind tracking _ _ (Rel-then tracking _ _ (Rel-unless tracking _ _) writes)
        (λ n. Rel-pure tracking _))

pub fail_incomplete_tx-moves :
    (env : Env) (key note : String) → Rel Tracks (fail_incomplete_tx env key note)
unfolding fail_incomplete_tx
fail_incomplete_tx-moves env key note =
    let writes =
      fail_commands-moves env.now (if str_eq note "" then "node is no longer active" else note)
        (is_incomplete_of key) (λ c e. ground arith) in
    Rel-then tracking _ _ (Rel-unless tracking _ _)
      (Rel-then tracking _ _ writes (Rel-pure tracking tt))

pub fail_incomplete-moves :
    (env : Env) (key note : String)
    → Rel Tracks (fail_incomplete_agent_commands_for_node env key note)
unfolding fail_incomplete_agent_commands_for_node
fail_incomplete-moves env key note =
    Rel-transaction tracking _ (
      Rel-then tracking _ _ (fail_incomplete_tx-moves env key note) (Rel-pure tracking (commit tt)))
