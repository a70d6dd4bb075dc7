-- ===== src/Storage.antt =====
-- pkg/controllerstorage: the tables that the command, policy, certificate and lifecycle code works on.
-- Surrogate keys that nothing reads are left out of the rows. A `uuid.UUID` is a number, and uuid.Nil
-- is 0; an identifier that the code keeps as text is a text. Times count microseconds.
pub mod Command
pub mod ControlState
pub mod Alerts
pub mod Generators
pub mod Notify
pub mod Report
pub mod Failing
pub mod Evolution
pub mod Keeps
pub mod Moves
pub mod ReportMoves
pub mod SyncMoves
pub mod History
pub mod Isolation
pub mod Atomic
pub mod GiveUp
pub mod Delivery
pub mod Convergence
pub mod Deduplication
pub mod Certificates
pub mod Lifecycle
pub mod PolicySync
pub mod Superseding
pub mod Normalizing
pub mod Suspension
pub mod Expiry
pub mod Batch
pub mod OneByOne
mod Examples
mod LifecycleExamples
use aria.Prelude.{
  ℕ, zero, suc, String, ℤ, pos, negsuc, pos_part, Bool, true, false, Option, none, some, List, [],
  ◌∷◌, ◌+◌, ◌*◌, str_eq, if◌then◌else◌,
}

abbrev pub Uuid : Type 0
Uuid = ℕ

-- A decoded JSON value. `other` keeps the text that json.Marshal gives for it.
pub data Value : Type 0 where
  null : Value
  text : String → Value
  flag : Bool → Value
  other : String → Value

-- map[string]interface{} and map[string]string
abbrev pub Params : Type 0
Params = List (String × Value)

abbrev pub Texts : Type 0
Texts = List (String × String)

-- m[k], with the zero value for a missing key
abbrev pub value_at : String → Params → Value
value_at k [] = null
value_at k ((j, v) ∷ m) = if str_eq j k then v else value_at k m

abbrev pub text_at : String → Texts → String
text_at k [] = ""
text_at k ((j, v) ∷ m) = if str_eq j k then v else text_at k m

-- The statuses of commands and deliveries. `unknown` is any text that is none of the constants.
pub data CommandStatus : Type 0 where
  pending sent acknowledged completed failed stale : CommandStatus
  unknown : String → CommandStatus

abbrev pub command_status_eq : CommandStatus → CommandStatus → Bool
command_status_eq pending pending = true
command_status_eq sent sent = true
command_status_eq acknowledged acknowledged = true
command_status_eq completed completed = true
command_status_eq failed failed = true
command_status_eq stale stale = true
command_status_eq (unknown a) (unknown b) = str_eq a b
command_status_eq _ _ = false

-- status IN ('pending', 'sent', 'acknowledged')
abbrev pub is_incomplete : CommandStatus → Bool
is_incomplete pending = true
is_incomplete sent = true
is_incomplete acknowledged = true
is_incomplete _ = false

-- agent_commands.go: AgentCommand, with the column deadline_at
pub record AgentCommand : Type 0 where
  pub id : String
  pub node_public_key : String
  pub command : String
  pub raw_params : Params
  pub status : CommandStatus
  pub message : String
  pub priority : ℤ
  pub timeout_seconds : ℤ
  pub created_at : ℕ
  pub updated_at : ℕ
  pub sent_at : Option ℕ
  pub acknowledged_at : Option ℕ
  pub completed_at : Option ℕ
  pub deadline_at : Option ℕ
  pub result : Texts

-- policy_deliveries.go: PolicyDelivery
pub record PolicyDelivery : Type 0 where
  pub tenant_id : Uuid
  pub node_id : Uuid
  pub policy_domain : String
  pub policy_ref : String
  pub policy_name : String
  pub action : String
  pub command_id : String
  pub command_status : CommandStatus
  pub last_error : String
  pub metadata : Params
  pub created_at : ℕ
  pub updated_at : ℕ
  pub completed_at : Option ℕ

-- node_control_states.go: NodeControlState; a nullable column is an option
pub record NodeControlState : Type 0 where
  pub tenant_id : Uuid
  pub node_id : Uuid
  pub desired_state_version : Option String
  pub desired_state_metadata : Params
  pub desired_state_updated_at : Option ℕ
  pub applied_state_version : Option String
  pub applied_state_updated_at : Option ℕ
  pub observed_state : Option String
  pub observed_message : Option String
  pub observed_at : Option ℕ
  pub last_sync_at : Option ℕ
  pub last_sync_error : Option String
  pub created_at : ℕ
  pub updated_at : ℕ

-- postgres.go: the columns of nodes, tenants and users that this code touches
pub record Node : Type 0 where
  pub id : Uuid
  pub tenant_id : Uuid
  pub public_key : String
  pub hostname : String
  pub status : Option String
  pub runtime_token_version : Option ℕ
  pub updated_at : ℕ

pub record Tenant : Type 0 where
  pub id : Uuid
  pub status : String
  pub updated_at : ℕ

pub record User : Type 0 where
  pub tenant_id : Uuid
  pub token_version : Option ℕ
  pub updated_at : ℕ

pub data CertStatus : Type 0 where
  issued cert_revoked cert_expired : CertStatus

abbrev pub cert_status_eq : CertStatus → CertStatus → Bool
cert_status_eq issued issued = true
cert_status_eq cert_revoked cert_revoked = true
cert_status_eq cert_expired cert_expired = true
cert_status_eq _ _ = false

-- certificates.go: NodeCertificate
pub record NodeCertificate : Type 0 where
  pub tenant_id : Uuid
  pub node_id : Uuid
  pub serial_number : String
  pub cert_pem : String
  pub ca_pem : String
  pub not_before : ℕ
  pub not_after : ℕ
  pub status : CertStatus
  pub issued_at : ℕ
  pub revoked_at : Option ℕ
  pub revoke_reason : String
  pub renewed_from : Option Uuid
  pub updated_at : ℕ

-- audit_events.go: AuditEvent
pub record AuditEvent : Type 0 where
  pub tenant_id : Uuid
  pub node_id : Option Uuid
  pub event_type : String
  pub actor : String
  pub summary : String
  pub detail : Params

-- alerts.go: Alert; `active` stands for status = 'active', else it is resolved
pub record Alert : Type 0 where
  pub id : Uuid
  pub tenant_id : Uuid
  pub node_id : Option Uuid
  pub alert_type : String
  pub severity : String
  pub title : String
  pub message : String
  pub context : Params
  pub active : Bool
  pub created_at : ℕ
  pub resolved_at : Option ℕ

pub record Tables : Type 0 where
  pub commands : List AgentCommand
  pub deliveries : List PolicyDelivery
  pub states : List NodeControlState
  pub nodes : List Node
  pub tenants : List Tenant
  pub users : List User
  pub certificates : List NodeCertificate
  pub audit_events : List AuditEvent
  pub alerts : List Alert

-- What the code takes from outside at one call: NOW() of the database, time.Now() of the program, and
-- the identifiers and the version text that are generated, and the JSON text of a number.
pub record Env : Type 0 where
  pub now : ℕ
  pub clock : ℕ
  pub command_id : List AgentCommand → String
  pub alert_id : List Alert → Uuid
  pub version : String
  pub decimal : ℕ → String

-- t + make_interval(secs => n)
abbrev pub add_secs : ℕ → ℤ → ℕ
add_secs t n = t + pos_part n * 1000000
