-- ===== src/Snapshot.antt =====
-- internal/controller/grpc/policy_snapshot.go: the policy that an agent gets, compiled from the rules of its node.
-- The messages are those of pkg/grpc/agentpb/aria_agent.proto.
pub mod Normalize
pub mod Compile
pub mod Build
pub mod Inversion
pub mod Forms
pub mod Fixed
pub mod Groups
pub mod FixedQos
pub mod Whole
mod Examples
use aria.Prelude.{ℕ, String, List}

-- agentpb.ACLRule
pub record PbAclRule : Type 0 where
  pub id : String
  pub src_net : String
  pub dst_net : String
  pub protocol : ℕ
  pub min_port : ℕ
  pub max_port : ℕ
  pub action : String
  pub direction : String
  pub ports : String
  pub src_group_id : String
  pub dst_group_id : String
  pub priority : ℕ

-- agentpb.QoSRule
pub record PbQosRule : Type 0 where
  pub id : String
  pub src_ip : String
  pub dst_ip : String
  pub src_port : ℕ
  pub dst_port : ℕ
  pub protocol : ℕ
  pub bandwidth_mbps : ℕ
  pub direction : String
  pub rate_bps : ℕ
  pub burst_bytes : ℕ
  pub priority : ℕ
  pub mode : String
  pub group_id : String

-- agentpb.BlacklistRule
pub record PbBlacklistRule : Type 0 where
  pub scope : String
  pub cidr : String
  pub port : ℕ

-- agentpb.IPGroup
pub record PbIpGroup : Type 0 where
  pub id : String
  pub name : String
  pub cidrs : List String
  pub kind : String

-- agentPolicySnapshot; the builders leave its list of blacklist rules empty
pub record AgentPolicySnapshot : Type 0 where
  pub ip_groups : List PbIpGroup
  pub acl_rules : List PbAclRule
  pub qos_rules : List PbQosRule
  pub blacklist_rules : List PbBlacklistRule

-- why a rule is refused
pub data PolicyError : Type 0 where
  invalid_acl_action invalid_policy_direction invalid_qos_mode unsupported_scope :
      String → PolicyError
  acl_port_range_too_large source_requires_cidr destination_requires_cidr : PolicyError
  invalid_acl_port_range : ℕ → ℕ → PolicyError
  acl_protocol_exceeds_uint8 acl_ports_need_tcp_or_udp qos_priority_exceeds_uint8 : ℕ → PolicyError
  port_out_of_range qos_requires_rate : PolicyError
  invalid_normalized_direction : String → PolicyError
  missing_ip_group : PolicyError

-- a value or an error
pub data Compiled {ℓ} (A : Type ℓ) : Type ℓ where
  compiled : A → Compiled A
  refused : PolicyError → Compiled A

module _ {ℓ} {A B : Type ℓ} where
  infixl 10 ◌>>=◌
  abbrev pub ◌>>=◌ : Compiled A → (A → Compiled B) → Compiled B
  compiled a >>= f = f a
  refused e >>= f = refused e
