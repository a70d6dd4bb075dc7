-- ===== src/NodeIdentity.antt =====
-- internal/nodeidentity/public_network.go: the public address and the endpoint that a node reports.
-- The parsers and printers of package net are a parameter.
pub mod Reserved
pub mod Reported
mod Examples
use Prim.Native.Char.{Char, code}
use Prim.Native.String.{[], ◌∷◌}
use aria.Prelude.{
  ℕ, String, Bool, true, false, Option, none, some, ◌&&◌, ◌||◌, not, str_eq, ◌==◌, leb,
  if◌then◌else◌, trim, to_lower, contains_char, is_empty,
}

-- a net.IP of four bytes
pub record Ipv4 : Type 0 where
  pub first : ℕ
  pub second : ℕ
  pub third : ℕ
  pub fourth : ℕ

-- a net.IP: one that To4 gives, or another
pub data Ip : Type 0 where
  v4 : Ipv4 → Ip
  v6 : Ip

-- net.SplitHostPort, net.ParseIP, IP.String and net.JoinHostPort
pub record Net : Type 0 where
  pub split_host_port : String → Option (String × String)
  pub parse_ip : String → Option Ip
  pub ip_string : Ipv4 → String
  pub join_host_port : String → String → String

-- isPublicIPv4
unfoldable pub is_public_ipv4 : Ipv4 → Bool
is_public_ipv4 ip =
    if ip.first == 0
    then false
    else if ip.first == 10
    then false
    else if ip.first == 100 && (leb 64 ip.second && leb ip.second 127)
    then false
    else if ip.first == 127
    then false
    else if ip.first == 169 && ip.second == 254
    then false
    else if ip.first == 172 && (leb 16 ip.second && leb ip.second 31)
    then false
    else if ip.first == 192 && ip.second == 168
    then false
    else if ip.first == 192 && (ip.second == 0 && ip.third == 0)
    then false
    else if ip.first == 192 && (ip.second == 0 && ip.third == 2)
    then false
    else if ip.first == 198 && (ip.second == 18 || ip.second == 19)
    then false
    else if ip.first == 198 && (ip.second == 51 && ip.third == 100)
    then false
    else if ip.first == 203 && (ip.second == 0 && ip.third == 113)
    then false
    else if leb 224 ip.first
    then false
    else true

-- strings.Trim(s, set) for a set given as a test
trim_set_left : (Char → Bool) → String → String
trim_set_left is_cut [] = []
trim_set_left is_cut (c ∷ s) = let rest = trim_set_left is_cut s in if is_cut c then rest else c ∷ s

trim_set_right : (Char → Bool) → String → String
trim_set_right is_cut [] = []
trim_set_right is_cut (c ∷ s) =
    let rest = trim_set_right is_cut s in if is_cut c && is_empty rest then [] else c ∷ rest

unfoldable pub trim_set : (Char → Bool) → String → String
unfolding trim_set_left trim_set_right
trim_set is_cut s = trim_set_right is_cut (trim_set_left is_cut s)

abbrev pub is_bracket : Char → Bool
is_bracket c = code c == 91 || code c == 93

abbrev pub is_bracket_or_quote : Char → Bool
is_bracket_or_quote c = is_bracket c || (code c == 34 || code c == 39)

-- what stands before and after the last colon
unfoldable pub cut_last_colon : String → Option (String × String)
cut_last_colon [] = none
cut_last_colon (c ∷ s) = elim (cut_last_colon s) [
  | some (a, b) ↦ some (c ∷ a, b)
  | none ↦ if code c == 58 then some ([], s) else none
]

-- splitEndpoint on a text that net.SplitHostPort refuses
unfoldable pub split_loosely : String → Option (String × String)
unfolding cut_last_colon
split_loosely [] = none
split_loosely (c ∷ s) =
    if code c == 58 && not (is_empty s) then some ([], s) else elim (cut_last_colon (c ∷ s)) [
      | none ↦ none
      | some (a, b) ↦ if is_empty a || is_empty b then none else some (a, b)
    ]

module _ (net : Net) where
  -- splitEndpoint; none where it gives back the whole text and false
  unfoldable pub split_endpoint : String → Option (String × String)
  unfolding split_loosely
  split_endpoint endpoint = elim (net.split_host_port endpoint) [
    | some p ↦ some p
    | none ↦ split_loosely endpoint
  ]

  abbrev pub host_of : Option (String × String) → String → String
  host_of none whole = whole
  host_of (some (h, p)) whole = h

  abbrev pub public_text : Option Ip → String
  public_text none = ""
  public_text (some v6) = ""
  public_text (some (v4 ip)) = if not (is_public_ipv4 ip) then "" else net.ip_string ip

  -- NormalizePublicIPv4
  unfoldable pub normalize_public_ipv4 : String → String
  unfolding trim trim_set is_public_ipv4
  normalize_public_ipv4 value =
      let host = trim value in
      if str_eq host ""
      then ""
      else public_text
          (net.parse_ip (trim_set is_bracket_or_quote (host_of (net.split_host_port host) host)))

  -- a name in place of an address
  abbrev pub named_host : String → String → String
  named_host host endpoint = if str_eq (to_lower host) "localhost" then "" else endpoint

  -- an endpoint that is an address alone
  abbrev pub bare_endpoint : String → String → Option Ip → String
  bare_endpoint endpoint public_ip none = named_host endpoint endpoint
  bare_endpoint endpoint public_ip (some v6) = public_ip
  bare_endpoint endpoint public_ip (some (v4 ip)) =
      if is_public_ipv4 ip then net.ip_string ip else public_ip

  abbrev pub joined : String → String → String
  joined public_ip port = if str_eq public_ip "" then "" else net.join_host_port public_ip port

  -- an endpoint with an address and a port
  abbrev pub addressed_endpoint : String → String → String → String → Option Ip → String
  addressed_endpoint endpoint public_ip host port none = named_host host endpoint
  addressed_endpoint endpoint public_ip host port (some v6) = ""
  addressed_endpoint endpoint public_ip host port (some (v4 ip)) =
      if is_public_ipv4 ip
      then net.join_host_port (net.ip_string ip) port
      else joined public_ip port

  abbrev pub split_case : String → String → Option (String × String) → String
  split_case endpoint public_ip none =
      bare_endpoint endpoint public_ip (net.parse_ip (trim_set is_bracket endpoint))
  split_case endpoint public_ip (some (host, port)) =
      if str_eq port ""
      then (if not (str_eq public_ip "") then public_ip else endpoint)
      else if str_eq host ""
      then joined public_ip port
      else addressed_endpoint endpoint public_ip host port (net.parse_ip (trim_set is_bracket host))

  -- NormalizePublicEndpoint
  unfoldable pub normalize_public_endpoint : String → String → String
  unfolding trim trim_set to_lower is_public_ipv4 normalize_public_ipv4 split_endpoint
  normalize_public_endpoint endpoint public_ip =
      let e = trim endpoint in
      if str_eq e "" then "" else split_case e (normalize_public_ipv4 public_ip) (split_endpoint e)

  abbrev pub address_in : Option (String × String) → String
  address_in none = ""
  address_in (some (host, port)) = normalize_public_ipv4 host

  -- NormalizeReportedNetwork
  unfoldable pub normalize_reported_network : String → String → String × String
  unfolding normalize_public_ipv4 normalize_public_endpoint split_endpoint
  normalize_reported_network public_ip endpoint =
      let p = normalize_public_ipv4 public_ip in
      let e = normalize_public_endpoint endpoint p in
      let q = normalize_public_ipv4 e in
      (
        if not (str_eq p "")
            then p
            else if not (str_eq q "")
            then q
            else address_in (split_endpoint e),
        e,
      )
