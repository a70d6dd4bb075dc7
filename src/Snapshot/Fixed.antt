-- ===== src/Snapshot/Fixed.antt =====
-- internal/controller/grpc/policy_snapshot.go: a compiled rule compiles to itself.
use aria.Prelude.{
  ℕ, String, List, [], ◌∷◌, map, ◌≡◌, refl, sym, subst, ap, ◌⊎◌, inl, inr, ◌||◌, str_eq, ◌==◌, ltb,
  trim, to_lower, decimal, decimal-is_plain, All, Bool-cases,
}
use aria.Snapshot.{PbAclRule, PbBlacklistRule, compiled}
use aria.Snapshot.Normalize.{
  normalize_acl_action, normalize_policy_direction, normalize_acl_ports, acl_net_fallback,
  cidr_or_any, max_uint16,
}
use aria.Snapshot.Compile.{
  max_uint8, protocols_of, acl_entry, compile_acl_rule, deny_entry, compile_blacklist_rule,
}
use aria.Policy.Pairwise.{All-map}
use aria.Snapshot.Inversion.{value_of, bind-inverse}
use aria.Snapshot.Forms.{
  IsAction, IsDirection, normalize_acl_action-IsAction, normalize_acl_action_fixed,
  normalize_policy_direction-IsDirection, normalize_policy_direction_fixed,
  normalize_acl_ports_fixed, plain_fixed, cidr_or_any_fixed, acl_net_fallback_fixed,
}

-- the fields of a rule are in their normal forms
pub record IsFinal (r : PbAclRule) : Type 0 where
  pub action_ok : IsAction r.action
  pub direction_ok : IsDirection r.direction
  pub src_ok : acl_net_fallback r.src_net r.src_group_id ≡ r.src_net
  pub dst_ok : acl_net_fallback r.dst_net r.dst_group_id ≡ r.dst_net
  pub ports_ok : normalize_acl_ports r.ports r.min_port r.max_port ≡ compiled r.ports
  pub protocol_ok : protocols_of r.protocol r.ports ≡ compiled (r.protocol ∷ [])
  pub min_ok : r.min_port ≡ 0
  pub max_ok : r.max_port ≡ 0

-- a rule is its own entry
entry_fixed : (r : PbAclRule) → IsFinal r → acl_entry r r.action r.direction r.ports r.protocol ≡ r
entry_fixed r f = λ i. record {
  id = r.id;
  src_net = f.src_ok i;
  dst_net = f.dst_ok i;
  protocol = r.protocol;
  min_port = (sym f.min_ok) i;
  max_port = (sym f.max_ok) i;
  action = r.action;
  direction = r.direction;
  ports = r.ports;
  src_group_id = r.src_group_id;
  dst_group_id = r.dst_group_id;
  priority = r.priority;
}

pub IsFinal-compile_acl_rule : (r : PbAclRule) → IsFinal r → compile_acl_rule r ≡ compiled (r ∷ [])
unfolding compile_acl_rule
IsFinal-compile_acl_rule r f =
    rw
      (
        normalize_acl_action_fixed r.action f.action_ok,
        normalize_policy_direction_fixed r.direction "ingress" f.direction_ok,
        f.ports_ok,
        f.protocol_ok,
      )
      (ap (λ x. compiled (x ∷ [])) (entry_fixed r f))

-- each protocol that stands for a rule stands for itself
protocols_of_fixed :
    (p : ℕ) (ports : String) (out : List ℕ)
    → protocols_of p ports ≡ compiled out
    → All (λ q. protocols_of q ports ≡ compiled (q ∷ [])) out
protocols_of_fixed p ports out h = elim (Bool-cases (ltb max_uint8 p)) [
  | inl e ↦ cc (rw e at h)
  | inr e ↦ elim (Bool-cases (str_eq ports "")) [
    | inl g ↦
        subst (λ o. All (λ q. protocols_of q ports ≡ compiled (q ∷ [])) o)
          (value_of (rw (e, g) at h)) (rw (e, g) refl, tt)
    | inr g ↦ elim (Bool-cases (p == 0)) [
      | inl k ↦
          subst (λ o. All (λ q. protocols_of q ports ≡ compiled (q ∷ [])) o)
            (value_of (rw (e, g, k) at h)) (rw g refl, (rw g refl, tt))
      | inr k ↦ elim (Bool-cases (p == 6 || p == 17)) [
        | inl m ↦
            subst (λ o. All (λ q. protocols_of q ports ≡ compiled (q ∷ [])) o)
              (value_of (rw (e, g, k, m) at h)) (rw (e, g, k, m) refl, tt)
        | inr m ↦ cc (rw (e, g, k, m) at h)
      ]
    ]
  ]
]

All-map-entries :
    {A B : Type 0} (P : A → Type 0) (Q : B → Type 0) (f : A → B)
    → ((x : A) → P x → Q (f x))
    → (xs : List A) → All P xs
    → All Q (map f xs)
All-map-entries P Q f step [] h = tt
All-map-entries P Q f step (x ∷ xs) h = (step x h.0, All-map-entries P Q f step xs h.1)

pub compile_acl_rule-IsFinal :
    (r : PbAclRule) (out : List PbAclRule) → compile_acl_rule r ≡ compiled out → All IsFinal out
unfolding compile_acl_rule
compile_acl_rule-IsFinal r out h =
    let (action, a, h1) = bind-inverse (normalize_acl_action r.action) _ out h in
    let (direction, d, h2) =
      bind-inverse (normalize_policy_direction r.direction "ingress") _ out h1 in
    let (ports, p, h3) =
      bind-inverse (normalize_acl_ports r.ports r.min_port r.max_port) _ out h2 in
    let (protocols, q, h4) = bind-inverse (protocols_of r.protocol ports) _ out h3 in
    subst (λ o. All IsFinal o) (value_of h4)
      (All-map-entries (λ x. protocols_of x ports ≡ compiled (x ∷ [])) IsFinal
        (acl_entry r action direction ports)
        (λ x e. record {
          action_ok = normalize_acl_action-IsAction r.action action a;
          direction_ok = normalize_policy_direction-IsDirection r.direction "ingress" direction d;
          src_ok = acl_net_fallback_fixed r.src_net r.src_group_id;
          dst_ok = acl_net_fallback_fixed r.dst_net r.dst_group_id;
          ports_ok = normalize_acl_ports_fixed r.ports r.min_port r.max_port ports p;
          protocol_ok = e;
          min_ok = refl;
          max_ok = refl;
        })
        protocols (protocols_of_fixed r.protocol ports protocols q))

-- Every rule that an ACL rule compiles to compiles to itself alone.
pub compile_acl_rule_fixed :
    (r : PbAclRule) (out : List PbAclRule)
    → compile_acl_rule r ≡ compiled out
    → All (λ s. compile_acl_rule s ≡ compiled (s ∷ [])) out
compile_acl_rule_fixed r out h =
    All-map IsFinal-compile_acl_rule out (compile_acl_rule-IsFinal r out h)

-- what a blacklist rule compiles to
denied_IsFinal :
    (src dst : String) (protocol : ℕ) (ports : String)
    → acl_net_fallback src "" ≡ src
    → acl_net_fallback dst "" ≡ dst
    → normalize_acl_ports ports 0 0 ≡ compiled ports
    → protocols_of protocol ports ≡ compiled (protocol ∷ [])
    → IsFinal (deny_entry src dst protocol ports)
denied_IsFinal src dst protocol ports a b c d = record {
  action_ok = inr refl;
  direction_ok = inl refl;
  src_ok = a;
  dst_ok = b;
  ports_ok = c;
  protocol_ok = d;
  min_ok = refl;
  max_ok = refl;
}

tcp_or_udp :
    (p : ℕ) (ports : String) → (p ≡ 6) ⊎ (p ≡ 17) → protocols_of p ports ≡ compiled (p ∷ [])
tcp_or_udp p ports h = elim (Bool-cases (str_eq ports "")) [
  | inl e ↦ elim h [ inl g ↦ rw (g, e) refl | inr g ↦ rw (g, e) refl ]
  | inr e ↦ elim h [ inl g ↦ rw (g, e) refl | inr g ↦ rw (g, e) refl ]
]

net_any : acl_net_fallback "any" "" ≡ "any"
unfolding acl_net_fallback
net_any = refl

net_cidr : (s : String) → acl_net_fallback (cidr_or_any s) "" ≡ cidr_or_any s
unfolding acl_net_fallback
net_cidr s = cidr_or_any_fixed s

-- what holds of each entry that a blacklist rule can have holds of all that it has
pub compile_blacklist_rule-All :
    (P : PbAclRule → Type 0) (r : PbBlacklistRule) (out : List PbAclRule)
    → P (deny_entry (cidr_or_any r.cidr) "any" 0 "")
    → P (deny_entry "any" (cidr_or_any r.cidr) 0 "")
    → P (deny_entry "any" "any" 6 (decimal r.port))
    → P (deny_entry "any" "any" 17 (decimal r.port))
    → compile_blacklist_rule r ≡ compiled out
    → All P out
unfolding compile_blacklist_rule
compile_blacklist_rule-All P r out final_src final_dst tcp udp h =
    elim (Bool-cases (str_eq (to_lower (trim r.scope)) "src")) [
      | inl a ↦ elim (Bool-cases (str_eq (trim r.cidr) "")) [
        | inl e ↦ cc (rw (a, e) at h)
        | inr e ↦ subst (λ o. All P o) (value_of (rw (a, e) at h)) (rw e at final_src, tt)
      ]
      | inr a ↦ elim (Bool-cases (str_eq (to_lower (trim r.scope)) "dst")) [
        | inl b ↦ elim (Bool-cases (str_eq (trim r.cidr) "")) [
          | inl e ↦ cc (rw (a, b, e) at h)
          | inr e ↦ subst (λ o. All P o) (value_of (rw (a, b, e) at h)) (rw e at final_dst, tt)
        ]
        | inr b ↦ elim (Bool-cases (str_eq (to_lower (trim r.scope)) "ports")) [
          | inl c ↦ elim (Bool-cases (r.port == 0 || ltb max_uint16 r.port)) [
            | inl e ↦ cc (rw (a, b, c, e) at h)
            | inr e ↦ subst (λ o. All P o) (value_of (rw (a, b, c, e) at h)) (tcp, (udp, tt))
          ]
          | inr c ↦ cc (rw (a, b, c) at h)
        ]
      ]
    ]

pub compile_blacklist_rule-IsFinal :
    (r : PbBlacklistRule) (out : List PbAclRule)
    → compile_blacklist_rule r ≡ compiled out
    → All IsFinal out
compile_blacklist_rule-IsFinal r out h =
    compile_blacklist_rule-All IsFinal r out
      (denied_IsFinal (cidr_or_any r.cidr) "any" 0 "" (net_cidr r.cidr) net_any
        (plain_fixed "" refl) refl)
      (denied_IsFinal "any" (cidr_or_any r.cidr) 0 "" net_any (net_cidr r.cidr)
        (plain_fixed "" refl) refl)
      (final_port 6 (tcp_or_udp 6 (decimal r.port) (inl refl)))
      (final_port 17 (tcp_or_udp 17 (decimal r.port) (inr refl))) h
  where
    final_port :
        (p : ℕ)
        → protocols_of p (decimal r.port) ≡ compiled (p ∷ [])
        → IsFinal (deny_entry "any" "any" p (decimal r.port))
    final_port p e =
        denied_IsFinal "any" "any" p (decimal r.port) net_any net_any
          (plain_fixed (decimal r.port) (decimal-is_plain r.port)) e
