-- ===== src/NodeIdentity/Reported.antt =====
-- internal/nodeidentity/public_network.go: which address a node can be recorded with.
use aria.Prelude.{
  String, Bool, true, false, Option, none, some, ◌≡◌, refl, ◌⊎◌, inl, inr, not, str_eq,
  if◌then◌else◌, trim, Bool-cases,
}
use aria.NodeIdentity.{
  Ipv4, Ip, v4, v6, Net, is_public_ipv4, public_text, host_of, trim_set, is_bracket_or_quote,
  normalize_public_ipv4, normalize_public_endpoint, split_endpoint, address_in,
  normalize_reported_network,
}

-- no address, or the text of a public one
abbrev pub IsRecordable : Net → String → Type 0
IsRecordable net text =
    (text ≡ "") ⊎ ((ip : Ipv4) × (is_public_ipv4 ip ≡ true) × (text ≡ net.ip_string ip))

module _ (net : Net) where
  public_text-IsRecordable : (ip : Option Ip) → IsRecordable net (public_text net ip)
  public_text-IsRecordable none = inl refl
  public_text-IsRecordable (some v6) = inl refl
  public_text-IsRecordable (some (v4 ip)) = elim (Bool-cases (is_public_ipv4 ip)) [
    | inl e ↦ rw e (inr (ip, e, refl))
    | inr e ↦ rw e (inl refl)
  ]

  normalize_public_ipv4-IsRecordable :
      (value : String) → IsRecordable net (normalize_public_ipv4 net value)
  unfolding normalize_public_ipv4
  normalize_public_ipv4-IsRecordable value = elim (Bool-cases (str_eq (trim value) "")) [
    | inl e ↦ rw e (inl refl)
    | inr e ↦ rw e (
        public_text-IsRecordable (
          net.parse_ip (
            trim_set is_bracket_or_quote
              (host_of net (net.split_host_port (trim value)) (trim value)))))
  ]

  address_in-IsRecordable : (p : Option (String × String)) → IsRecordable net (address_in net p)
  address_in-IsRecordable none = inl refl
  address_in-IsRecordable (some (host, port)) = normalize_public_ipv4-IsRecordable host

  either :
      (b : Bool) (x y : String)
      → IsRecordable net x
      → IsRecordable net y
      → IsRecordable net (if b then x else y)
  either true x y h k = h
  either false x y h k = k

  -- The public address that comes of what a node reports is empty or the text of a public address, whatever the
  -- node sends and whatever the parsers make of it.
  pub normalize_reported_network-IsRecordable :
      (public_ip endpoint : String)
      → IsRecordable net (normalize_reported_network net public_ip endpoint).0
  unfolding normalize_reported_network
  normalize_reported_network-IsRecordable public_ip endpoint =
      let p = normalize_public_ipv4 net public_ip in
      let e = normalize_public_endpoint net endpoint p in
      let q = normalize_public_ipv4 net e in
      either (not (str_eq p "")) p
        (if not (str_eq q "") then q else address_in net (split_endpoint net e))
        (normalize_public_ipv4-IsRecordable public_ip)
        (either (not (str_eq q "")) q (address_in net (split_endpoint net e))
          (normalize_public_ipv4-IsRecordable e) (address_in-IsRecordable (split_endpoint net e)))
