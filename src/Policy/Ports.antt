-- ===== src/Policy/Ports.antt =====
-- pkg/controllerstorage/network_policy.go: when the port filters of two rules overlap.
use aria.Prelude.{
  String, ℤ, pos, lezb, ltzb, Bool, true, false, Option, none, some, List, [], ◌∷◌, ◌++◌, ◌&&◌,
  ◌||◌, str_eq, if◌then◌else◌, trim, to_lower, split, cut, contains_char, atoi,
}

-- portInterval
pub record PortInterval : Type 0 where
  pub start : ℤ
  pub end : ℤ

-- clampPort
unfoldable pub clamp_port : ℤ → ℤ
clamp_port p = if ltzb p (pos 0) then pos 0 else if ltzb (pos 65535) p then pos 65535 else p

abbrev pub every_port : PortInterval
every_port = record { start = pos 0; end = pos 65535 }

abbrev pub interval : ℤ → ℤ → PortInterval
interval a b = record { start = a; end = b }

-- the text of one part up to its action, as in "80:allow"
abbrev pub without_action : String → String
without_action part = if contains_char b':' part then trim (cut b':' part).0 else part

-- a bound of a range
abbrev pub rest_text : Option String → String
rest_text none = ""
rest_text (some s) = s

abbrev pub range_of : Option ℤ → Option ℤ → List PortInterval
range_of (some a) (some b) = if lezb a b then interval (clamp_port a) (clamp_port b) ∷ [] else []
range_of _ _ = []

abbrev pub single : Option ℤ → List PortInterval
single none = []
single (some p) = interval (clamp_port p) (clamp_port p) ∷ []

-- what one part of the list adds
unfoldable pub part_intervals : String → List PortInterval
unfolding clamp_port trim atoi
part_intervals raw =
    let part = without_action (trim raw) in
    let pieces = cut b'-' part in
    if str_eq (trim raw) ""
    then []
    else if contains_char b'-' part
    then range_of (atoi (trim pieces.0)) (atoi (trim (rest_text pieces.1)))
    else single (atoi part)

unfoldable pub all_intervals : List String → List PortInterval
unfolding part_intervals
all_intervals [] = []
all_intervals (p ∷ ps) = part_intervals p ++ all_intervals ps

abbrev pub or_every_port : List PortInterval → List PortInterval
or_every_port [] = every_port ∷ []
or_every_port (x ∷ xs) = x ∷ xs

-- policyPortIntervals
unfoldable pub policy_port_intervals : String → ℤ → List PortInterval
unfolding all_intervals split trim to_lower
policy_port_intervals ports dst_port =
    if str_eq (trim ports) "" || str_eq (to_lower (trim ports)) "all"
    then (if ltzb (pos 0) dst_port then interval dst_port dst_port ∷ [] else every_port ∷ [])
    else or_every_port (all_intervals (split b',' ports))

-- a.start <= b.end && b.start <= a.end
abbrev pub meet : PortInterval → PortInterval → Bool
meet a b = lezb a.start b.end && lezb b.start a.end

abbrev pub meets_any : PortInterval → List PortInterval → Bool
meets_any a [] = false
meets_any a (b ∷ bs) = let rest = meets_any a bs in if meet a b then true else rest

abbrev pub any_meet : List PortInterval → List PortInterval → Bool
any_meet [] bs = false
any_meet (a ∷ more) bs = let rest = any_meet more bs in if meets_any a bs then true else rest

-- portsOverlap
unfoldable pub ports_overlap : String → ℤ → String → ℤ → Bool
unfolding policy_port_intervals
ports_overlap left left_port right right_port =
    any_meet (policy_port_intervals left left_port) (policy_port_intervals right right_port)
