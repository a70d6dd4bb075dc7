-- ===== src/Policy.antt =====
-- pkg/controllerstorage/network_policy.go: the rules of a node's network policy. The fields that only a
-- response fills (statistics and delivery history) are left out.
pub mod Prefix
pub mod Ports
pub mod Conflict
pub mod Symmetry
pub mod PortSets
pub mod Overlap
pub mod Pairwise
pub mod Clear
pub mod Columns
pub mod Store
pub mod QosStore
pub mod Mutation
pub mod OtherNodes
pub mod Writes
pub mod AllOrNothing
pub mod Desired
pub mod HalfDone
pub mod ReadBack
pub mod Groups
pub mod Members
mod Examples
mod StoreExamples
use aria.Prelude.{
  ℕ, String, ℤ, pos, Uuid, Bool, true, false, Option, none, some, List, [], ◌∷◌, ltzb, not, ◌&&◌,
}

-- IPGroupMemberRecord
pub record IpGroupMember : Type 0 where
  pub id : Uuid
  pub group_id : Uuid
  pub cidr : String
  pub note : String

-- IPGroupRecord
pub record IpGroup : Type 0 where
  pub id : Uuid
  pub tenant_id : Uuid
  pub name : String
  pub description : String
  pub kind : String
  pub created_by : Option String
  pub members : List IpGroupMember
  pub created_at : ℕ
  pub updated_at : ℕ

-- QoSRuleRecord
pub record QosRule : Type 0 where
  pub id : Uuid
  pub tenant_id : Uuid
  pub node_id : Uuid
  pub src_cidr : String
  pub dst_cidr : String
  pub group_id : Option Uuid
  pub group : Option IpGroup
  pub src_port : ℤ
  pub dst_port : ℤ
  pub protocol : ℤ
  pub bandwidth_mbps : ℤ
  pub direction : String
  pub rate_bps : ℕ
  pub burst_bytes : ℕ
  pub priority : ℤ
  pub mode : String
  pub enabled : Bool
  pub description : String
  pub created_at : ℕ
  pub updated_at : ℕ

-- ACLRuleRecord
pub record AclRule : Type 0 where
  pub id : Uuid
  pub tenant_id : Uuid
  pub node_id : Uuid
  pub name : String
  pub action : String
  pub src_cidr : String
  pub dst_cidr : String
  pub src_group_id : Option Uuid
  pub dst_group_id : Option Uuid
  pub src_group : Option IpGroup
  pub dst_group : Option IpGroup
  pub dst_port : ℤ
  pub protocol : ℤ
  pub direction : String
  pub ports : String
  pub priority : ℤ
  pub enabled : Bool
  pub description : String
  pub created_at : ℕ
  pub updated_at : ℕ

-- BlacklistRuleRecord
pub record BlacklistRule : Type 0 where
  pub id : Uuid
  pub tenant_id : Uuid
  pub node_id : Uuid
  pub scope : String
  pub cidr : String
  pub port : ℤ
  pub enabled : Bool
  pub description : String
  pub created_at : ℕ
  pub updated_at : ℕ

-- a == b of two ints
abbrev pub eqzb : ℤ → ℤ → Bool
eqzb a b = not (ltzb a b) && not (ltzb b a)
