-- ===== src/Storage/History.antt =====
-- pkg/controllerstorage/agent_commands.go: what a sequence of calls does to the commands. Each call has its
-- own clock, identifiers and statement failures; transactions make the calls a sequence.
use aria.Prelude.{
  String, ℤ, ◌≡◌, subst, ◌∙◌, Bool, true, false, some, List, [], ◌∷◌, inl, inr, Bool-cases, str_eq,
  All, find_where, Distinct, ap,
}
use aria.Sql.{Exec}
use aria.Storage.{Params, Texts, AgentCommand, Tables, Env}
use aria.Storage.Command.{
  queue_agent_command, get_next_pending_agent_command, requeue_sent_agent_command, has_command_id,
}
use aria.Storage.Failing.{
  fail_timed_out_agent_commands_for_node, fail_incomplete_agent_commands_for_node,
}
use aria.Storage.Report.{update_status, update_agent_command_status_for_node}
use aria.Storage.Evolution.{Advances, Evolves, Tracks, Tracks-Preorder, id_of}
use aria.Storage.Moves.{
  IsFresh, queue-moves, get_next-moves, requeue_sent-moves, fail_timed_out-moves,
  fail_incomplete-moves,
}
use aria.Storage.Lifecycle.{NodeLifecycleTransition, apply_node_lifecycle_transition}
use aria.Storage.PolicySync.{PolicySyncRequest, queue_policy_sync}
use aria.Storage.SyncMoves.{queue_policy_sync-moves, transition-moves}
use aria.Storage.ReportMoves.{update_status-moves, update_for_node-moves}

-- the calls that write commands
pub data Operation : Type 0 where
  queue : String → String → Params → ℤ → ℤ → Operation
  get_next : String → Operation
  requeue : String → String → String → Operation
  report : String → String → String → Texts → Operation
  report_for_node : String → String → String → String → Texts → Operation
  time_out : String → Operation
  give_up : String → String → Operation
  sync : PolicySyncRequest → Operation
  transition : String → NodeLifecycleTransition → Operation

pub record Call : Type 0 where
  pub env : Env
  pub faults : List Bool
  pub operation : Operation

abbrev tables_after : {A : Type 0} → Exec Tables A → List Bool → Tables → Tables
tables_after m faults db = (m (record { db = db; faults = faults })).1.db

-- the tables after a call, whatever it returned
unfoldable pub perform : Env → Operation → List Bool → Tables → Tables
perform env (queue key command params priority timeout) =
    tables_after (queue_agent_command env key command params priority timeout)
perform env (get_next key) = tables_after (get_next_pending_agent_command env key)
perform env (requeue id key note) = tables_after (requeue_sent_agent_command env id key note)
perform env (report id status note result) =
    tables_after (update_status env id "" status note result)
perform env (report_for_node id key status note result) =
    tables_after (update_agent_command_status_for_node env id key status note result)
perform env (time_out key) = tables_after (fail_timed_out_agent_commands_for_node env key)
perform env (give_up key note) = tables_after (fail_incomplete_agent_commands_for_node env key note)
perform env (sync request) = tables_after (queue_policy_sync env request)
perform env (transition key t) = tables_after (apply_node_lifecycle_transition env key t)

unfoldable pub after_calls : List Call → Tables → Tables
unfolding perform
after_calls [] db = db
after_calls (c ∷ cs) db = after_calls cs (perform c.env c.operation c.faults db)

perform-Tracks :
    (env : Env) (o : Operation) (faults : List Bool) (db : Tables)
    → IsFresh env
    → Tracks db (perform env o faults db)
unfolding perform
perform-Tracks env (queue key command params priority timeout) faults db new =
    (queue-moves env key command params priority timeout new).at
      (record { db = db; faults = faults })
perform-Tracks env (get_next key) faults db new =
    (get_next-moves env key).at (record { db = db; faults = faults })
perform-Tracks env (requeue id key note) faults db new =
    (requeue_sent-moves env id key note).at (record { db = db; faults = faults })
perform-Tracks env (report id status note result) faults db new =
    (update_status-moves env id "" status note result).at (record { db = db; faults = faults })
perform-Tracks env (report_for_node id key status note result) faults db new =
    (update_for_node-moves env id key status note result).at (record { db = db; faults = faults })
perform-Tracks env (time_out key) faults db new =
    (fail_timed_out-moves env key).at (record { db = db; faults = faults })
perform-Tracks env (give_up key note) faults db new =
    (fail_incomplete-moves env key note).at (record { db = db; faults = faults })
perform-Tracks env (sync request) faults db new =
    (queue_policy_sync-moves env request new).at (record { db = db; faults = faults })
perform-Tracks env (transition key t) faults db new =
    (transition-moves env key t).at (record { db = db; faults = faults })

after_calls-Tracks :
    (calls : List Call) (db : Tables)
    → All (λ c. IsFresh c.env) calls
    → Tracks db (after_calls calls db)
unfolding after_calls
after_calls-Tracks [] db new = Tracks-Preorder.here db
after_calls-Tracks (c ∷ cs) db new =
    let next = perform c.env c.operation c.faults db in
    Tracks-Preorder.then_to db next (after_calls cs next)
      (perform-Tracks c.env c.operation c.faults db new.0) (after_calls-Tracks cs next new.1)

-- the row of a command stays where it is found
found-Evolves :
    (id : String) (cs ds : List AgentCommand) (c : AgentCommand)
    → Evolves cs ds
    → find_where (has_command_id id) cs ≡ some c
    → (d : AgentCommand) × (find_where (has_command_id id) ds ≡ some d)
      × (d.node_public_key ≡ c.node_public_key)
      × Advances c.status d.status
found-Evolves id [] ds c e h = cc h
found-Evolves id (r ∷ cs) [] c e h = absurd e
found-Evolves id (r ∷ cs) (s ∷ ds) c e h = elim (Bool-cases (has_command_id id r)) [
  | inl g ↦
      let same : r ≡ c = cc (rw g at h) in
      let hit : has_command_id id s ≡ true = ap (λ x. str_eq x id) e.0 ∙ g in
      (
        s,
        rw hit,
        e.1 ∙ ap (λ x. x.node_public_key) same,
        subst (λ x. Advances x.status s.status) same e.2,
      )
  | inr g ↦
      let miss : has_command_id id s ≡ false = ap (λ x. str_eq x id) e.0 ∙ g in
      rw miss (found-Evolves id cs ds c e.3 (rw g at h))
]

-- From tables whose command identifiers are distinct, and when every generated identifier is new, a command
-- that is in the tables is still there after any sequence of calls (queueing, delivery, requeueing, reports,
-- time-outs, giving up, policy syncs, transitions of nodes), whatever statements failed: it belongs to the same
-- node, its status has not gone back from acknowledged, and a status at its end (completed, failed, stale, or a
-- text that is none of the constants) is unchanged.
pub commands_advance :
    (calls : List Call) (db : Tables) (id : String) (c : AgentCommand)
    → All (λ call. IsFresh call.env) calls
    → Distinct id_of db.commands
    → find_where (has_command_id id) db.commands ≡ some c
    → (d : AgentCommand) × (find_where (has_command_id id) (after_calls calls db).commands ≡ some d)
      × (d.node_public_key ≡ c.node_public_key)
      × Advances c.status d.status
commands_advance calls db id c new dist found =
    found-Evolves id db.commands (after_calls calls db).commands c
      ((after_calls-Tracks calls db new dist).0) found
