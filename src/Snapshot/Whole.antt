-- ===== src/Snapshot/Whole.antt =====
-- internal/controller/grpc/policy_snapshot.go: what holds of every snapshot.
use aria.Prelude.{
  ℕ, String, Uuid, List, [], ◌∷◌, ◌++◌, ◌≡◌, refl, subst, ap, ◌∙◌, ◌⊎◌, inl, inr, ◌||◌, ◌==◌, ◌≤◌,
  ltb, str_eq, eq_iff, All, Bool-cases, arith,
}
use aria.Policy.{AclRule, QosRule, IpGroup}
use aria.Policy.Pairwise.{All-map}
use aria.Snapshot.{
  PbAclRule, PbQosRule, PbBlacklistRule, AgentPolicySnapshot, Compiled, compiled, refused, ◌>>=◌,
}
use aria.Snapshot.Compile.{
  compile_acl_rule, compile_blacklist_rule, compile_qos_rule, protocols_of, max_uint8,
}
use aria.Snapshot.Build.{
  compile_all, compile_acl_record, compile_qos_record, sorted_acl_rule_records,
  sorted_qos_rule_records, all_acl_refs, all_qos_refs, acl_record_to_proto, qos_record_to_proto,
  compile_referenced_ip_groups, compile_agent_policy_snapshot_with_groups,
}
use aria.Snapshot.Inversion.{value_of, bind-inverse, All-append, compile_all-All}
use aria.Snapshot.Forms.{IsAction, IsDirection}
use aria.Snapshot.Fixed.{
  IsFinal, IsFinal-compile_acl_rule, compile_acl_rule-IsFinal, compile_blacklist_rule-IsFinal,
}
use aria.Snapshot.FixedQos.{compile_qos_rule_fixed}
use aria.Snapshot.Groups.{
  Resolves, AclResolves, all_seen-append, acl_records-AclResolves, qos_records-Resolves,
  compile_blacklist_rule-AclResolves, compile_referenced_ip_groups-all_seen,
}

-- what the parts of a snapshot come from
record Parts (uuid_string : Uuid → String) (groups : List IpGroup) (acls : List AclRule)
    (rules : List QosRule) (blacklist : List PbBlacklistRule) (s : AgentPolicySnapshot)
    : Type 0 where
  acl : List PbAclRule
  black : List PbAclRule
  acl_from :
      compile_all (compile_acl_record uuid_string) (sorted_acl_rule_records acls) ≡ compiled acl
  black_from : compile_all compile_blacklist_rule blacklist ≡ compiled black
  qos_from :
      compile_all (compile_qos_record uuid_string) (sorted_qos_rule_records rules)
      ≡ compiled s.qos_rules
  groups_from :
      compile_referenced_ip_groups uuid_string groups (
        all_acl_refs uuid_string (sorted_acl_rule_records acls)
        ++ all_qos_refs uuid_string (sorted_qos_rule_records rules))
      ≡ compiled s.ip_groups
  together : acl ++ black ≡ s.acl_rules

four_steps :
    {A B C D E : Type 0} (a : Compiled A) (b : Compiled B) (c : Compiled C) (d : Compiled D)
    (f : A → B → C → D → E) (e : E)
    → (a >>= λ x. b >>= λ y. c >>= λ z. d >>= λ w. compiled (f x y z w)) ≡ compiled e
    → (x : A) × (y : B) × (z : C) × (w : D) × (a ≡ compiled x)
      × (b ≡ compiled y)
      × (c ≡ compiled z)
      × (d ≡ compiled w)
      × (f x y z w ≡ e)
four_steps (refused r) b c d f e h = cc h
four_steps (compiled x) (refused r) c d f e h = cc h
four_steps (compiled x) (compiled y) (refused r) d f e h = cc h
four_steps (compiled x) (compiled y) (compiled z) (refused r) f e h = cc h
four_steps (compiled x) (compiled y) (compiled z) (compiled w) f e h =
    (x, y, z, w, refl, refl, refl, refl, value_of h)

-- a rule that an agent can run
pub record IsRunnable (r : PbAclRule) : Type 0 where
  action : IsAction r.action
  direction : IsDirection r.direction
  protocol : r.protocol ≤ 255
  filter : (r.ports ≡ "") ⊎ ((r.protocol ≡ 6) ⊎ (r.protocol ≡ 17))
  no_range : (r.min_port ≡ 0) × (r.max_port ≡ 0)

protocol_small : (p : ℕ) (ports : String) → protocols_of p ports ≡ compiled (p ∷ []) → p ≤ 255
protocol_small p ports h = elim (Bool-cases (ltb max_uint8 p)) [
  | inl e ↦ cc (rw e at h)
  | inr e ↦ ground (arith, e)
]

filter_protocol :
    (p : ℕ) (ports : String)
    → protocols_of p ports ≡ compiled (p ∷ [])
    → (ports ≡ "") ⊎ ((p ≡ 6) ⊎ (p ≡ 17))
filter_protocol p ports h = elim (Bool-cases (str_eq ports "")) [
  | inl e ↦ inl ((eq_iff ports "").0 e)
  | inr e ↦ elim (Bool-cases (ltb max_uint8 p)) [
    | inl g ↦ cc (rw g at h)
    | inr g ↦ elim (Bool-cases (p == 0)) [
      | inl k ↦ cc (rw (g, e, k) at h)
      | inr k ↦ elim (Bool-cases (p == 6 || p == 17)) [
        | inl m ↦ inr (ground (arith, m))
        | inr m ↦ cc (rw (g, e, k, m) at h)
      ]
    ]
  ]
]

IsFinal-IsRunnable : (r : PbAclRule) → IsFinal r → IsRunnable r
IsFinal-IsRunnable r f = record {
  action = f.action_ok;
  direction = f.direction_ok;
  protocol = protocol_small r.protocol r.ports f.protocol_ok;
  filter = filter_protocol r.protocol r.ports f.protocol_ok;
  no_range = (f.min_ok, f.max_ok);
}

module _ (uuid_string : Uuid → String) (groups : List IpGroup) (acls : List AclRule)
    (rules : List QosRule) (blacklist : List PbBlacklistRule) (s : AgentPolicySnapshot)
    (ok : compile_agent_policy_snapshot_with_groups uuid_string groups acls rules blacklist
      ≡ compiled s) where
  parts : Parts uuid_string groups acls rules blacklist s
  unfolding compile_agent_policy_snapshot_with_groups
  parts =
      let (acl, black, qos, ips, a, b, q, g, e) =
        four_steps (compile_all (compile_acl_record uuid_string) (sorted_acl_rule_records acls))
          (compile_all compile_blacklist_rule blacklist)
          (compile_all (compile_qos_record uuid_string) (sorted_qos_rule_records rules))
          (compile_referenced_ip_groups uuid_string groups (
            all_acl_refs uuid_string (sorted_acl_rule_records acls)
            ++ all_qos_refs uuid_string (sorted_qos_rule_records rules)))
          (λ acl black qos ips. record {
            ip_groups = ips;
            acl_rules = acl ++ black;
            qos_rules = qos;
            blacklist_rules = [];
          })
          s ok in
      record {
        acl = acl;
        black = black;
        acl_from = a;
        black_from = b;
        qos_from = q ∙ ap (λ (x : AgentPolicySnapshot). compiled x.qos_rules) e;
        groups_from = g ∙ ap (λ (x : AgentPolicySnapshot). compiled x.ip_groups) e;
        together = ap (λ (x : AgentPolicySnapshot). x.acl_rules) e;
      }

  -- every record and every blacklist rule puts out rules in normal form
  rules-IsFinal : All IsFinal s.acl_rules
  unfolding acl_record_to_proto
  rules-IsFinal =
      subst (λ o. All IsFinal o) parts.together
        (All-append IsFinal parts.acl parts.black
          (compile_all-All IsFinal (compile_acl_record uuid_string) from_record
            (sorted_acl_rule_records acls) parts.acl parts.acl_from)
          (compile_all-All IsFinal compile_blacklist_rule compile_blacklist_rule-IsFinal blacklist
            parts.black parts.black_from))
    where
      from_record :
          (r : AclRule) (out : List PbAclRule)
          → compile_acl_record uuid_string r ≡ compiled out
          → All IsFinal out
      from_record r out h = elim (Bool-cases r.enabled) [
        | inl e ↦ compile_acl_rule-IsFinal (acl_record_to_proto uuid_string r) out (rw e at h)
        | inr e ↦ subst (λ o. All IsFinal o) (value_of (rw e at h)) tt
      ]

  -- The ACL rules of a snapshot, those of the blacklist too, compile to themselves alone, and so do its bandwidth
  -- rules.
  pub snapshot_fixed :
      All (λ r. compile_acl_rule r ≡ compiled (r ∷ [])) s.acl_rules
      × All (λ r. compile_qos_rule r ≡ compiled r) s.qos_rules
  unfolding qos_record_to_proto compile_qos_rule
  snapshot_fixed = (
    All-map IsFinal-compile_acl_rule s.acl_rules rules-IsFinal,
    compile_all-All (λ r. compile_qos_rule r ≡ compiled r) (compile_qos_record uuid_string)
        from_record (sorted_qos_rule_records rules) s.qos_rules parts.qos_from,
  )
    where
      from_record :
          (r : QosRule) (out : List PbQosRule)
          → compile_qos_record uuid_string r ≡ compiled out
          → All (λ c. compile_qos_rule c ≡ compiled c) out
      from_record r out h = elim (Bool-cases r.enabled) [
        | inl e ↦
            let (c, first, last) =
              bind-inverse (compile_qos_rule (qos_record_to_proto uuid_string r)) _ out
                (rw e at h) in
            subst (λ o. All (λ c. compile_qos_rule c ≡ compiled c) o) (value_of last)
              (compile_qos_rule_fixed (qos_record_to_proto uuid_string r) c first, tt)
        | inr e ↦
            subst (λ o. All (λ c. compile_qos_rule c ≡ compiled c) o) (value_of (rw e at h)) tt
      ]

  -- Every ACL rule of a snapshot has the action allow or deny, the direction ingress, egress or both, a protocol of
  -- eight bits, which is TCP or UDP where it filters ports, and no range of ports besides that filter.
  pub snapshot-IsRunnable : All IsRunnable s.acl_rules
  snapshot-IsRunnable = All-map IsFinal-IsRunnable s.acl_rules rules-IsFinal

  -- Each group that a rule of a snapshot names is one of the groups of the snapshot.
  pub snapshot-Resolves :
      All (AclResolves s.ip_groups) s.acl_rules
      × All (λ (r : PbQosRule). Resolves s.ip_groups r.group_id) s.qos_rules
  snapshot-Resolves =
      let seen =
        compile_referenced_ip_groups-all_seen uuid_string groups
          (all_acl_refs uuid_string (sorted_acl_rule_records acls)
            ++ all_qos_refs uuid_string (sorted_qos_rule_records rules))
          s.ip_groups parts.groups_from in
      let (x, y) =
        all_seen-append uuid_string s.ip_groups
          (all_acl_refs uuid_string (sorted_acl_rule_records acls))
          (all_qos_refs uuid_string (sorted_qos_rule_records rules)) seen in
      (
        subst (λ o. All (AclResolves s.ip_groups) o) parts.together
            (All-append (AclResolves s.ip_groups) parts.acl parts.black
              (acl_records-AclResolves uuid_string s.ip_groups (sorted_acl_rule_records acls)
                parts.acl x parts.acl_from)
              (compile_all-All (AclResolves s.ip_groups) compile_blacklist_rule
                (compile_blacklist_rule-AclResolves s.ip_groups) blacklist parts.black
                parts.black_from)),
        qos_records-Resolves uuid_string s.ip_groups (sorted_qos_rule_records rules) s.qos_rules y
            parts.qos_from,
      )
