-- ===== src/Snapshot/Groups.antt =====
-- internal/controller/grpc/policy_snapshot.go: the address groups that the rules of a snapshot name.
use aria.Prelude.{
  ℕ, String, Uuid, Bool, true, Option, none, some, List, [], ◌∷◌, ◌++◌, map, ◌≡◌, refl, sym, subst,
  ap, ◌⊎◌, inl, inr, ◌||◌, str_eq, if◌then◌else◌, All, Bool-cases, arith,
}
use aria.Policy.{AclRule, QosRule, IpGroup}
use aria.Policy.Pairwise.{All-map}
use aria.Snapshot.{
  PbAclRule, PbQosRule, PbBlacklistRule, PbIpGroup, compiled, refused, missing_ip_group,
}
use aria.Snapshot.Normalize.{
  normalize_acl_action, normalize_policy_direction, normalize_acl_ports, normalize_qos_mode,
  inferred_qos_direction,
}
use aria.Snapshot.Compile.{
  compile_acl_rule, acl_entry, protocols_of, compile_blacklist_rule, compile_qos_rule, checked_rate,
  checked_priority, with_peer,
}
use aria.Snapshot.Build.{
  has_text, compile_all, group_text, group_texts, acl_record_to_proto, qos_record_to_proto,
  acl_group_refs, qos_group_refs, all_acl_refs, all_qos_refs, compile_acl_record,
  compile_qos_record, all_seen, compile_referenced_ip_groups,
}
use aria.Snapshot.Fixed.{compile_blacklist_rule-All}
use aria.Snapshot.Inversion.{value_of, bind-inverse, All-append}

-- a rule that names no group, or one of these
abbrev pub Resolves : List PbIpGroup → String → Type 0
Resolves groups id = (id ≡ "") ⊎ (has_text id (map (λ (g : PbIpGroup). g.id) groups) ≡ true)

abbrev pub AclResolves : List PbIpGroup → PbAclRule → Type 0
AclResolves groups r = Resolves groups r.src_group_id × Resolves groups r.dst_group_id

abbrev SameGroups : String → String → PbAclRule → Type 0
SameGroups src dst r = (r.src_group_id ≡ src) × (r.dst_group_id ≡ dst)

entries-SameGroups :
    (r : PbAclRule) (a d p : String) (protocols : List ℕ)
    → All (SameGroups r.src_group_id r.dst_group_id) (map (acl_entry r a d p) protocols)
entries-SameGroups r a d p [] = tt
entries-SameGroups r a d p (q ∷ qs) = ((refl, refl), entries-SameGroups r a d p qs)

compile_acl_rule-SameGroups :
    (r : PbAclRule) (out : List PbAclRule)
    → compile_acl_rule r ≡ compiled out
    → All (SameGroups r.src_group_id r.dst_group_id) out
unfolding compile_acl_rule
compile_acl_rule-SameGroups r out h =
    let (action, a, h1) = bind-inverse (normalize_acl_action r.action) _ out h in
    let (direction, d, h2) =
      bind-inverse (normalize_policy_direction r.direction "ingress") _ out h1 in
    let (ports, p, h3) =
      bind-inverse (normalize_acl_ports r.ports r.min_port r.max_port) _ out h2 in
    let (protocols, q, h4) = bind-inverse (protocols_of r.protocol ports) _ out h3 in
    subst (λ o. All (SameGroups r.src_group_id r.dst_group_id) o) (value_of h4)
      (entries-SameGroups r action direction ports protocols)

compile_qos_rule-group :
    (r c : PbQosRule) → compile_qos_rule r ≡ compiled c → c.group_id ≡ r.group_id
unfolding compile_qos_rule
compile_qos_rule-group r c h =
    let (d, hd, h1) =
      bind-inverse (normalize_policy_direction r.direction (inferred_qos_direction r)) _ c h in
    let (rate, hr, h2) = bind-inverse (checked_rate r) _ c h1 in
    let (priority, hp, h3) = bind-inverse (checked_priority r) _ c h2 in
    let (m, hm, h4) = bind-inverse (normalize_qos_mode r.mode) _ c h3 in entry_group d m h4
  where
    entry_group : (d m : String) → with_peer r d m ≡ compiled c → c.group_id ≡ r.group_id
    entry_group d m e = elim (Bool-cases (str_eq d "ingress")) [
      | inl a ↦ ap (λ (x : PbQosRule). x.group_id) (sym (value_of (rw a at e)))
      | inr a ↦ elim (Bool-cases (str_eq d "egress" || str_eq d "both")) [
        | inl b ↦ ap (λ (x : PbQosRule). x.group_id) (sym (value_of (rw (a, b) at e)))
        | inr b ↦ cc (rw (a, b) at e)
      ]
    ]

-- the entries of a blacklist name no group
pub compile_blacklist_rule-AclResolves :
    (groups : List PbIpGroup) (r : PbBlacklistRule) (out : List PbAclRule)
    → compile_blacklist_rule r ≡ compiled out
    → All (AclResolves groups) out
compile_blacklist_rule-AclResolves groups r out h =
    compile_blacklist_rule-All (AclResolves groups) r out none_named none_named none_named
      none_named h
  where
    none_named : Resolves groups "" × Resolves groups ""
    none_named = (inl refl, inl refl)

module _ (uuid_string : Uuid → String) (groups : List PbIpGroup) where
  pub all_seen-append :
      (xs ys : List String)
      → all_seen uuid_string (xs ++ ys) groups ≡ true
      → (all_seen uuid_string xs groups ≡ true) × (all_seen uuid_string ys groups ≡ true)
  all_seen-append [] ys h = (refl, h)
  all_seen-append (x ∷ xs) ys h = ground (arith, h, all_seen-append xs ys)

  group_text-Resolves :
      (id : Option Uuid)
      → all_seen uuid_string (group_texts uuid_string id) groups ≡ true
      → Resolves groups (group_text uuid_string id)
  group_text-Resolves none h = inl refl
  group_text-Resolves (some id) h = inr (ground (arith, h))

  -- the rules of one record
  compile_acl_record-AclResolves :
      (r : AclRule) (out : List PbAclRule)
      → r.enabled ≡ true
      → all_seen uuid_string (acl_group_refs uuid_string r) groups ≡ true
      → compile_acl_record uuid_string r ≡ compiled out
      → All (AclResolves groups) out
  unfolding acl_record_to_proto
  compile_acl_record-AclResolves r out e s h =
      let (src, dst) =
        all_seen-append (group_texts uuid_string r.src_group_id)
          (group_texts uuid_string r.dst_group_id) s in
      All-map
        (λ (x : PbAclRule) same. (
          subst (λ t. Resolves groups t) (sym same.0) (group_text-Resolves r.src_group_id src),
          subst (λ t. Resolves groups t) (sym same.1) (group_text-Resolves r.dst_group_id dst),
        ))
        out (compile_acl_rule-SameGroups (acl_record_to_proto uuid_string r) out (rw e at h))

  pub acl_records-AclResolves :
      (rs : List AclRule) (out : List PbAclRule)
      → all_seen uuid_string (all_acl_refs uuid_string rs) groups ≡ true
      → compile_all (compile_acl_record uuid_string) rs ≡ compiled out
      → All (AclResolves groups) out
  acl_records-AclResolves [] out s h = subst (λ o. All (AclResolves groups) o) (value_of h) tt
  acl_records-AclResolves (r ∷ rs) out s h =
      let (here, first, rest) = bind-inverse (compile_acl_record uuid_string r) _ out h in
      let (there, others, end) =
        bind-inverse (compile_all (compile_acl_record uuid_string) rs) _ out rest in
      subst (λ o. All (AclResolves groups) o) (value_of end)
        (elim (Bool-cases r.enabled) [
          | inl e ↦
              let (mine, theirs) =
                all_seen-append (acl_group_refs uuid_string r) (all_acl_refs uuid_string rs)
                  (rw e at s) in
              All-append (AclResolves groups) here there
                (compile_acl_record-AclResolves r here e mine first)
                (acl_records-AclResolves rs there theirs others)
          | inr e ↦
              All-append (AclResolves groups) here there
                (subst (λ o. All (AclResolves groups) o) (value_of (rw e at first)) tt)
                (acl_records-AclResolves rs there (rw e at s) others)
        ])

  compile_qos_record-Resolves :
      (r : QosRule) (out : List PbQosRule)
      → r.enabled ≡ true
      → all_seen uuid_string (qos_group_refs uuid_string r) groups ≡ true
      → compile_qos_record uuid_string r ≡ compiled out
      → All (λ (c : PbQosRule). Resolves groups c.group_id) out
  unfolding qos_record_to_proto
  compile_qos_record-Resolves r out e s h =
      let (c, first, last) =
        bind-inverse (compile_qos_rule (qos_record_to_proto uuid_string r)) _ out (rw e at h) in
      subst (λ o. All (λ (c : PbQosRule). Resolves groups c.group_id) o) (value_of last)
        (
          subst (λ t. Resolves groups t)
              (sym (compile_qos_rule-group (qos_record_to_proto uuid_string r) c first))
              (group_text-Resolves r.group_id s),
          tt,
        )

  pub qos_records-Resolves :
      (rs : List QosRule) (out : List PbQosRule)
      → all_seen uuid_string (all_qos_refs uuid_string rs) groups ≡ true
      → compile_all (compile_qos_record uuid_string) rs ≡ compiled out
      → All (λ (c : PbQosRule). Resolves groups c.group_id) out
  qos_records-Resolves [] out s h =
      subst (λ o. All (λ (c : PbQosRule). Resolves groups c.group_id) o) (value_of h) tt
  qos_records-Resolves (r ∷ rs) out s h =
      let P = λ (c : PbQosRule). Resolves groups c.group_id in
      let (here, first, rest) = bind-inverse (compile_qos_record uuid_string r) _ out h in
      let (there, others, end) =
        bind-inverse (compile_all (compile_qos_record uuid_string) rs) _ out rest in
      subst (λ o. All P o) (value_of end)
        (elim (Bool-cases r.enabled) [
          | inl e ↦
              let (mine, theirs) =
                all_seen-append (qos_group_refs uuid_string r) (all_qos_refs uuid_string rs)
                  (rw e at s) in
              All-append P here there (compile_qos_record-Resolves r here e mine first)
                (qos_records-Resolves rs there theirs others)
          | inr e ↦
              All-append P here there (subst (λ o. All P o) (value_of (rw e at first)) tt)
                (qos_records-Resolves rs there (rw e at s) others)
        ])

-- a value that passed a test
checked :
    {A : Type 0} (test : A → Bool) (x y : A)
    → (if test x then compiled x else refused missing_ip_group) ≡ compiled y
    → test y ≡ true
checked test x y h = elim (Bool-cases (test x)) [
  | inl e ↦ subst (λ z. test z ≡ true) (value_of (rw e at h)) e
  | inr e ↦ cc (rw e at h)
]

pub compile_referenced_ip_groups-all_seen :
    (uuid_string : Uuid → String) (groups : List IpGroup) (refs : List String)
    (out : List PbIpGroup)
    → compile_referenced_ip_groups uuid_string groups refs ≡ compiled out
    → all_seen uuid_string refs out ≡ true
unfolding compile_referenced_ip_groups
compile_referenced_ip_groups-all_seen uuid_string groups [] out h = refl
compile_referenced_ip_groups-all_seen uuid_string groups (ref ∷ refs) out h =
    checked (all_seen uuid_string (ref ∷ refs)) _ out h
