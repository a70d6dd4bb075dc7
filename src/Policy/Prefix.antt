-- ===== src/Policy/Prefix.antt =====
-- pkg/controllerstorage/network_policy.go: address prefixes and how specific one is against another.
-- The parsers of net/netip are parameters; a prefix is its family, its address as a number and its length.
use aria.Prelude.{
  ℕ, String, Bool, true, false, Option, none, some, ◌&&◌, ◌||◌, not, str_eq, ◌-◌, ◌*◌, ◌/◌, ◌^◌,
  ◌==◌, leb, ltb, if◌then◌else◌, trim, to_lower,
}

-- netip.Prefix
pub record Prefix : Type 0 where
  pub is4 : Bool
  pub addr : ℕ
  pub bits : ℕ

-- netip.Addr: its family and its number
pub record Addr : Type 0 where
  pub is4 : Bool
  pub value : ℕ

-- netip.ParsePrefix and netip.ParseAddr
pub record Netip : Type 0 where
  pub parse_prefix : String → Option Prefix
  pub parse_addr : String → Option Addr

abbrev pub width : Bool → ℕ
width true = 32
width false = 128

-- the size of the block of a prefix, 2 ^ (width - bits)
abbrev pub block : Prefix → ℕ
block p = 2 ^ (width p.is4 - p.bits)

abbrev pub same_family : Bool → Bool → Bool
same_family true b = b
same_family false b = not b

-- Prefix.Contains
abbrev pub contains : Prefix → Addr → Bool
contains p a = same_family p.is4 a.is4 && a.value / block p == p.addr / block p

abbrev pub address : Prefix → Addr
address p = record { is4 = p.is4; value = p.addr }

-- Prefix.Masked
abbrev pub masked : Prefix → Prefix
masked p = record p { addr = p.addr / block p * block p }

-- prefixContains
unfoldable pub prefix_contains : Prefix → Prefix → Bool
prefix_contains parent child = contains parent (address child) && leb parent.bits child.bits

-- prefixesOverlap
unfoldable pub prefixes_overlap : Prefix → Prefix → Bool
unfolding prefix_contains
prefixes_overlap left right = prefix_contains left right || prefix_contains right left

-- policyCIDRIsAny
unfoldable pub policy_cidr_is_any : String → Bool
unfolding trim to_lower
policy_cidr_is_any value =
    let t = to_lower (trim value) in
    str_eq t "" || (str_eq t "any" || (str_eq t "0" || (str_eq t "0.0.0.0/0" || str_eq t "::/0")))

-- what a policy's text stands for
pub data Target : Type 0 where
  anywhere : Target
  within : Prefix → Target

abbrev pub from_addr : Option Addr → Option Target
from_addr none = none
from_addr (some a) = some (within (record { is4 = a.is4; addr = a.value; bits = width a.is4 }))

abbrev pub from_prefix : Option Prefix → Option Target → Option Target
from_prefix none other = other
from_prefix (some p) other = some (within (masked p))

-- cidrRelation
pub record CidrRelation : Type 0 where
  pub candidate_strict : Bool
  pub existing_strict : Bool

abbrev pub relation : Bool → Bool → CidrRelation
relation c e = record { candidate_strict = c; existing_strict = e }

abbrev pub prefix_relation : Prefix → Prefix → Option CidrRelation
prefix_relation c e =
    if not (same_family c.is4 e.is4)
    then none
    else if not (prefixes_overlap c e)
    then none
    else if prefix_contains e c && ltb e.bits c.bits
    then some (relation true false)
    else if prefix_contains c e && ltb c.bits e.bits
    then some (relation false true)
    else some (relation false false)

abbrev pub target_relation : Option Target → Option Target → Option CidrRelation
target_relation none e = none
target_relation (some c) none = none
target_relation (some anywhere) (some anywhere) = some (relation false false)
target_relation (some anywhere) (some (within e)) = some (relation false true)
target_relation (some (within c)) (some anywhere) = some (relation true false)
target_relation (some (within c)) (some (within e)) = prefix_relation c e

-- relationStrictlyMoreSpecific of two relations
abbrev pub strictly_more_specific : CidrRelation → CidrRelation → Bool
strictly_more_specific a b =
    if a.existing_strict
    then false
    else if b.existing_strict
    then false
    else a.candidate_strict || b.candidate_strict

-- relationStrictlyLessSpecific of two relations
abbrev pub strictly_less_specific : CidrRelation → CidrRelation → Bool
strictly_less_specific a b =
    if a.candidate_strict
    then false
    else if b.candidate_strict
    then false
    else a.existing_strict || b.existing_strict

module _ (ip : Netip) where
  -- parsePolicyPrefix
  unfoldable pub parse_policy_prefix : String → Option Target
  unfolding trim policy_cidr_is_any
  parse_policy_prefix value =
      let t = trim value in
      if policy_cidr_is_any t
      then some anywhere
      else from_prefix (ip.parse_prefix t) (from_addr (ip.parse_addr t))

  -- cidrSpecificityRelation
  unfoldable pub cidr_specificity_relation : String → String → Option CidrRelation
  unfolding parse_policy_prefix prefixes_overlap
  cidr_specificity_relation candidate existing =
      target_relation (parse_policy_prefix candidate) (parse_policy_prefix existing)
