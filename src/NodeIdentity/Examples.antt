-- ===== src/NodeIdentity/Examples.antt =====
-- Runs on the addresses that a node reports.
use aria.Prelude.{ℕ, none, some, ◌≡◌, ◌==◌, refl, not, str_eq, if◌then◌else◌, str_append, arith}
use aria.NodeIdentity.{Ipv4, v4, Net, is_public_ipv4, normalize_reported_network, split_endpoint}
use aria.NodeIdentity.Reserved.{address, reserved, is_public_ipv4_lem}
use aria.NodeIdentity.Reported.{IsRecordable, normalize_reported_network-IsRecordable}
use aria.Policy.Prefix.{contains}
use aria.Policy.Conflict.{any}

abbrev ip : ℕ → ℕ → ℕ → ℕ → Ipv4
ip a b c d = record { first = a; second = b; third = c; fourth = d }

-- package net on the texts of the runs
abbrev sample_net : Net
sample_net = record {
  split_host_port = λ s. if str_eq s "10.0.0.3:51820" then some ("10.0.0.3", "51820") else none;
  parse_ip = λ s.
      if str_eq s "10.0.0.3"
      then some (v4 (ip 10 0 0 3))
      else if str_eq s "8.8.4.4"
      then some (v4 (ip 8 8 4 4))
      else none;
  ip_string = λ a. if a.first == 10 then "10.0.0.3" else "8.8.4.4";
  join_host_port = λ host port. str_append host (str_append ":" port);
}

private_endpoint_test :
    normalize_reported_network sample_net " 8.8.4.4" "10.0.0.3:51820" ≡ ("8.8.4.4", "8.8.4.4:51820")
unfolding normalize_reported_network
private_endpoint_test = refl

loose_test : split_endpoint sample_net "node-a:51820" ≡ some ("node-a", "51820")
unfolding split_endpoint
loose_test = refl

is_public_ipv4_lem_example :
    is_public_ipv4 (ip 100 127 0 1)
    ≡ not (any (λ p. contains p (address (ip 100 127 0 1))) reserved)
is_public_ipv4_lem_example = is_public_ipv4_lem (ip 100 127 0 1) (record {
  first_byte = omega arith;
  second_byte = omega arith;
  third_byte = omega arith;
  fourth_byte = omega arith;
})

normalize_reported_network-IsRecordable_example :
    IsRecordable sample_net (normalize_reported_network sample_net "" "10.0.0.3:51820").0
normalize_reported_network-IsRecordable_example =
    normalize_reported_network-IsRecordable sample_net "" "10.0.0.3:51820"
