-- ===== src/Policy/Groups.antt =====
-- pkg/controllerstorage/ip_groups.go: the normal form of an address group. The printer of net/netip for prefixes
-- is a parameter beside its parsers.
use Prim.Native.String.{compare as compare_text}
use Prim.Native.Nat.{Ordering}
use aria.Prelude.{
  String, Bool, true, false, Option, none, some, List, [], ◌∷◌, ◌&&◌, ◌||◌, not, str_eq, ◌==◌,
  if◌then◌else◌, trim, to_lower, order_by,
}
use aria.Sql.{message, Result, ok, err}
use aria.Policy.{IpGroup, IpGroupMember}
use aria.Policy.Prefix.{Prefix, Addr, Netip, width, masked}

-- a check that seen has a text
abbrev pub has_text : String → List String → Bool
has_text x [] = false
has_text x (y ∷ ys) = let rest = has_text x ys in if str_eq y x then true else rest

abbrev pub then_ok {ℓ} : {A B : Type ℓ} → Result A → (A → Result B) → Result B
then_ok (ok a) f = f a
then_ok (err e) f = err e

abbrev pub member_before : IpGroupMember → IpGroupMember → Bool
member_before a b = elim (compare_text a.cidr b.cidr) [ Ordering.lt ↦ true | _ ↦ false ]

-- normalizeIPGroupKind
unfoldable pub normalize_ip_group_kind : String → String
unfolding trim to_lower
normalize_ip_group_kind kind =
    if str_eq (to_lower (trim kind)) "" then "custom" else to_lower (trim kind)

-- validateIPGroupKind
unfoldable pub validate_ip_group_kind : String → Bool
validate_ip_group_kind kind = str_eq kind "custom" || (str_eq kind "inline" || str_eq kind "system")

module _ (ip : Netip) (prefix_string : Prefix → String) where
  abbrev pub of_addr : Option Addr → Result String
  of_addr none = err (message "invalid CIDR")
  of_addr (some a) = ok (prefix_string (record { is4 = a.is4; addr = a.value; bits = width a.is4 }))

  abbrev pub of_prefix : Option Prefix → Result String → Result String
  of_prefix none other = other
  of_prefix (some p) other = ok (prefix_string (masked p))

  -- normalizeCIDR
  unfoldable pub normalize_cidr : String → Result String
  unfolding trim to_lower
  normalize_cidr value =
      let t = trim value in
      if str_eq t "" || (str_eq (to_lower t) "any" || str_eq t "0")
      then ok "0.0.0.0/0"
      else of_prefix (ip.parse_prefix t) (of_addr (ip.parse_addr t))

  -- the loop of normalizeIPGroupMembers, with the texts seen so far
  unfoldable pub collect_members : List String → List IpGroupMember → Result (List IpGroupMember)
  unfolding normalize_cidr trim
  collect_members seen [] = ok []
  collect_members seen (m ∷ ms) = then_ok (normalize_cidr m.cidr) (λ cidr.
      then_ok (collect_members (if has_text cidr seen then seen else cidr ∷ seen) ms) (λ rest.
        ok (
          if has_text cidr seen
          then rest
          else record m { cidr = cidr; note = trim m.note } ∷ rest)))

  -- normalizeIPGroupMembers
  unfoldable pub normalize_ip_group_members : List IpGroupMember → Result (List IpGroupMember)
  unfolding collect_members
  normalize_ip_group_members members =
      then_ok (collect_members [] members) (λ out. ok (order_by member_before out))

  -- normalizeIPGroupForWrite
  unfoldable pub normalize_ip_group_for_write : IpGroup → Result IpGroup
  unfolding normalize_ip_group_members normalize_ip_group_kind validate_ip_group_kind trim
  normalize_ip_group_for_write group =
      let name = trim group.name in
      let kind = normalize_ip_group_kind group.kind in
      if group.tenant_id == 0
      then err (message "tenant_id is required")
      else if str_eq name ""
      then err (message "ip group name is required")
      else if not (validate_ip_group_kind kind)
      then err (message "unsupported ip group kind")
      else then_ok (normalize_ip_group_members group.members) (λ members.
        if is_none members && not (str_eq kind "system" && str_eq name "any")
        then err (message "ip group requires at least one CIDR member")
        else ok (record group {
          name = name;
          description = trim group.description;
          kind = kind;
          members = members;
        }))
    where
      is_none : List IpGroupMember → Bool
      is_none [] = true
      is_none (m ∷ ms) = false
