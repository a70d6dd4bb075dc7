-- ===== src/Storage/ControlState.antt =====
-- pkg/controllerstorage/node_control_states.go: the desired and the applied state of a node.
use aria.Prelude.{
  ℕ, String, Bool, true, false, Option, none, some, [], ◌∷◌, ◌++◌, ◌==◌, ◌&&◌, ◌||◌, not, str_eq,
  if◌then◌else◌, update_where, find_where, trim, is_some, get_or,
}
use aria.Sql.{db_failure, Result, ok, err, Exec, pure, statement, run, query, ◌>>=◌, ◌>>◌}
use aria.Storage.{
  Uuid, Value, text, Params, Texts, value_at, text_at, CommandStatus, sent, acknowledged, completed,
  failed, AgentCommand, NodeControlState, Node, Tables, Env,
}

pub data ConvergenceStatus : Type 0 where
  converged pending diverged offline : ConvergenceStatus

-- COALESCE of two nullable values; NULLIF(v, '')
abbrev pub coalesce {ℓ} : {A : Type ℓ} → Option A → Option A → Option A
coalesce none b = b
coalesce (some a) b = some a

abbrev pub null_if_empty : Option String → Option String
null_if_empty none = none
null_if_empty (some s) = if str_eq s "" then none else some s

-- a column as scanNodeControlState reads it: COALESCE(v, '')
abbrev pub read_text : Option String → String
read_text v = get_or v ""

-- GetConvergenceStatus
unfoldable pub get_convergence_status : Bool → NodeControlState → ConvergenceStatus
get_convergence_status is_online s =
    if not is_online
    then offline
    else if not (str_eq (read_text s.last_sync_error) "")
    then diverged
    else if str_eq (read_text s.desired_state_version) ""
        || str_eq (read_text s.desired_state_version) (read_text s.applied_state_version)
    then converged
    else pending

pub record NodeControlStateReport : Type 0 where
  pub applied_state_version : String
  pub observed_state : String
  pub observed_message : String
  pub last_sync_at : Option ℕ
  pub last_sync_error : String

abbrev pub of_node_id : Uuid → NodeControlState → Bool
of_node_id n s = s.node_id == n

-- INSERT ... ON CONFLICT (node_id) DO UPDATE ... RETURNING the row
abbrev pub upsert_state :
    Uuid
    → NodeControlState
    → (NodeControlState → NodeControlState)
    → Tables
    → NodeControlState × Tables
upsert_state node row change db = elim (find_where (of_node_id node) db.states) [
  | none ↦ (row, record db { states = db.states ++ row ∷ [] })
  | some old ↦ (change old, record db { states = update_where (of_node_id node) change db.states })
]

-- GetNodeControlState
unfoldable pub get_node_control_state : Uuid → Uuid → Exec Tables (Option NodeControlState)
get_node_control_state tenant node =
    query (λ db. find_where (λ s. s.tenant_id == tenant && s.node_id == node) db.states)

-- the columns that an INSERT leaves out have their defaults; observed_state is NOT NULL DEFAULT 'idle'
abbrev pub blank_state : Env → Uuid → Uuid → NodeControlState
blank_state env tenant node = record {
  tenant_id = tenant;
  node_id = node;
  desired_state_version = none;
  desired_state_metadata = [];
  desired_state_updated_at = none;
  applied_state_version = none;
  applied_state_updated_at = none;
  observed_state = some "idle";
  observed_message = none;
  observed_at = none;
  last_sync_at = none;
  last_sync_error = none;
  created_at = env.now;
  updated_at = env.now;
}

-- the right-hand sides of the two branches of the upsert
abbrev pub desire : Env → Uuid → String → Params → NodeControlState → NodeControlState
desire env tenant version metadata s = record s {
  tenant_id = tenant;
  desired_state_version = some version;
  desired_state_metadata = metadata;
  desired_state_updated_at = some env.now;
  updated_at = env.now;
}

-- upsertNodeDesiredState; a blank version is replaced by a generated one
unfoldable pub upsert_node_desired_state :
    Env → Uuid → Uuid → String → Params → Exec Tables NodeControlState
upsert_node_desired_state env tenant node version metadata =
    let v = if str_eq (trim version) "" then env.version else version in
    run (
      upsert_state node (desire env tenant v metadata (blank_state env tenant node))
        (desire env tenant v metadata))

-- the row that a report inserts, EXCLUDED in its ON CONFLICT branch
abbrev pub reported_row : Env → Uuid → Uuid → NodeControlStateReport → NodeControlState
reported_row env tenant node r =
    let version = null_if_empty (some r.applied_state_version) in
    let state = null_if_empty (some r.observed_state) in
    let note = null_if_empty (some r.observed_message) in
    record (blank_state env tenant node) {
      applied_state_version = version;
      applied_state_updated_at = if is_some version then some env.now else none;
      observed_state = state;
      observed_message = note;
      observed_at = if is_some state || is_some note then some env.now else none;
      last_sync_at = r.last_sync_at;
      last_sync_error = null_if_empty (some r.last_sync_error);
    }

abbrev pub merge_report : Env → NodeControlState → NodeControlState → NodeControlState
merge_report env x s = record s {
  tenant_id = x.tenant_id;
  applied_state_version = coalesce (null_if_empty x.applied_state_version) s.applied_state_version;
  applied_state_updated_at =
      if is_some (null_if_empty x.applied_state_version)
      then some env.now
      else s.applied_state_updated_at;
  observed_state = coalesce (null_if_empty x.observed_state) s.observed_state;
  observed_message =
      if is_some (null_if_empty x.observed_message)
      then x.observed_message
      else if is_some x.last_sync_at && not (is_some (null_if_empty x.last_sync_error))
      then some ""
      else s.observed_message;
  observed_at =
      if is_some (null_if_empty x.observed_state)
        || is_some (null_if_empty x.observed_message)
        || is_some x.last_sync_at
      then some env.now
      else s.observed_at;
  last_sync_at = coalesce x.last_sync_at s.last_sync_at;
  last_sync_error =
      if is_some x.last_sync_at || is_some (null_if_empty x.last_sync_error)
      then coalesce (null_if_empty x.last_sync_error) (some "")
      else s.last_sync_error;
  updated_at = env.now;
}

-- The INSERT of a report. observed_state is NOT NULL, which PostgreSQL tests on the row to be inserted before it looks
-- for a conflict: a report without one is refused.
abbrev pub store_report : Env → Uuid → NodeControlState → Tables → Result NodeControlState × Tables
store_report env node row db =
    let out = upsert_state node row (merge_report env row) db in
    if is_some row.observed_state then (ok out.0, out.1) else (err db_failure, db)

-- reportNodeControlState
unfoldable pub report_node_control_state :
    Env → Uuid → Uuid → NodeControlStateReport → Exec Tables NodeControlState
report_node_control_state env tenant node r =
    statement (store_report env node (reported_row env tenant node r))

-- firstString of two values
abbrev pub first_string : String → String → String
first_string a b = if str_eq (trim a) "" then trim b else trim a

-- stringValue
abbrev pub string_value : Value → String
string_value (text s) = s
string_value _ = ""

abbrev pub or_else : String → String → String
or_else s d = if str_eq s "" then d else s

-- the state that a status stands for, where the agent reported none
abbrev pub default_observed : CommandStatus → String → String → String
default_observed completed command applied =
    if str_eq command "sync" && not (str_eq applied "") then "applied" else "healthy"
default_observed failed command applied = "error"
default_observed acknowledged command applied = "in_progress"
default_observed sent command applied = "in_progress"
default_observed _ command applied = ""

abbrev pub completes_sync : CommandStatus → String → Bool
completes_sync completed command = str_eq command "sync"
completes_sync _ command = false

abbrev pub is_failed : CommandStatus → Bool
is_failed failed = true
is_failed _ = false

-- the report that a command's status makes of its node
unfoldable pub command_report :
    Env → String → Params → CommandStatus → String → Texts → NodeControlStateReport
command_report env command params status note result =
    let desired = trim (
      first_string (text_at "desired_state_version" result)
        (string_value (value_at "desired_state_version" params))) in
    let reported = trim (text_at "applied_state_version" result) in
    let applied =
      if completes_sync status command && str_eq reported "" then desired else reported in
    let observed =
      or_else (trim (text_at "observed_state" result)) (default_observed status command applied) in
    let remark = or_else (trim (text_at "observed_message" result)) (trim note) in
    record {
      applied_state_version = applied;
      observed_state = observed;
      observed_message = remark;
      last_sync_at = some env.clock;
      last_sync_error =
          if str_eq observed "error" || is_failed status
          then first_string remark (trim note)
          else "";
    }

-- JOIN nodes n ON n.public_key = ac.node_public_key WHERE ac.id = $1
abbrev pub command_with_node : String → Tables → Option (AgentCommand × Node)
command_with_node id db = elim (find_where (λ (c : AgentCommand). str_eq c.id id) db.commands) [
  | none ↦ none
  | some c ↦ elim (find_where (λ (n : Node). str_eq n.public_key c.node_public_key) db.nodes) [
    | none ↦ none
    | some n ↦ some (c, n)
  ]
]

-- syncNodeControlStateForCommandTx
unfoldable pub sync_report :
    Env → CommandStatus → String → Texts → Option (AgentCommand × Node) → Exec Tables (Unit {0})
unfolding command_report report_node_control_state
sync_report env status note result none = pure tt
sync_report env status note result (some (c, n)) = do
  report_node_control_state env n.tenant_id n.id
      (command_report env c.command c.raw_params status note result)
  pure tt

unfoldable pub sync_node_control_state_for_command :
    Env → String → CommandStatus → String → Texts → Exec Tables (Unit {0})
unfolding sync_report
sync_node_control_state_for_command env id status note result = do
  found ← query (command_with_node id)
  sync_report env status note result found
