-- ===== src/Snapshot/FixedQos.antt =====
-- internal/controller/grpc/policy_snapshot.go: a compiled bandwidth rule compiles to itself.
use aria.Prelude.{
  ℕ, String, Bool, true, false, ◌≡◌, refl, ◌⊎◌, sym, subst, ap, ◌∙◌, inl, inr, ◌||◌, not, str_eq,
  ◌==◌, ltb, if◌then◌else◌, trim, trim-trim, to_lower, eq_iff, Bool-cases, arith,
}
use aria.Snapshot.{PbQosRule, compiled}
use aria.Snapshot.Normalize.{
  normalize_policy_direction, inferred_qos_direction, qos_group_for_direction,
  qos_cidr_fallback_for_direction, normalize_qos_mode, default_qos_burst, cidr_or_any,
}
use aria.Snapshot.Compile.{
  compile_qos_rule, rate_of, peer_of, checked_rate, checked_priority, qos_entry, with_peer,
  max_uint8,
}
use aria.Snapshot.Inversion.{value_of, bind-inverse}
use aria.Snapshot.Forms.{
  IsDirection, normalize_policy_direction-IsDirection, normalize_policy_direction_fixed,
  cidr_or_any_fixed,
}

abbrev pub IsMode : String → Type 0
IsMode m = (m ≡ "auto") ⊎ ((m ≡ "policing") ⊎ (m ≡ "shaping"))

normalize_qos_mode-IsMode : (s m : String) → normalize_qos_mode s ≡ compiled m → IsMode m
unfolding normalize_qos_mode
normalize_qos_mode-IsMode s m h = elim (Bool-cases (str_eq (to_lower (trim s)) "")) [
  | inl e ↦ inl (sym (value_of (rw e at h)))
  | inr e ↦ elim (Bool-cases (str_eq (to_lower (trim s)) "auto")) [
    | inl a ↦ inl (sym (value_of (rw (e, a) at h)) ∙ (eq_iff (to_lower (trim s)) "auto").0 a)
    | inr a ↦ elim (Bool-cases (str_eq (to_lower (trim s)) "policing")) [
      | inl b ↦
          inr
            (inl (sym (value_of (rw (e, a, b) at h)) ∙ (eq_iff (to_lower (trim s)) "policing").0 b))
      | inr b ↦ elim (Bool-cases (str_eq (to_lower (trim s)) "shaping")) [
        | inl c ↦ inr (
            inr
              (sym (value_of (rw (e, a, b, c) at h)) ∙ (eq_iff (to_lower (trim s)) "shaping").0 c))
        | inr c ↦ cc (rw (e, a, b, c) at h)
      ]
    ]
  ]
]

normalize_qos_mode_fixed : (m : String) → IsMode m → normalize_qos_mode m ≡ compiled m
unfolding normalize_qos_mode
normalize_qos_mode_fixed m (inl h) = rw h refl
normalize_qos_mode_fixed m (inr (inl h)) = rw h refl
normalize_qos_mode_fixed m (inr (inr h)) = rw h refl

default_qos_burst-positive : (n : ℕ) → (default_qos_burst n == 0) ≡ false
unfolding default_qos_burst
default_qos_burst-positive n = ground arith

-- a rate and a burst that are set stay
rate_fixed :
    (r : PbQosRule) (d m src dst : String)
    → (rate_of r == 0) ≡ false
    → rate_of (qos_entry r d m src dst) ≡ rate_of r
rate_fixed r d m src dst h = rw h refl

or_default : ℕ → ℕ → ℕ
or_default burst rate = if burst == 0 then default_qos_burst rate else burst

or_default_fixed :
    (burst rate : ℕ) → or_default (or_default burst rate) rate ≡ or_default burst rate
unfolding or_default
or_default_fixed burst rate = elim (Bool-cases (burst == 0)) [
  | inl e ↦ rw (e, default_qos_burst-positive rate) refl
  | inr e ↦ rw (e, e) refl
]

entry_fixed :
    (r : PbQosRule) (d m src dst : String)
    → (rate_of r == 0) ≡ false
    → qos_entry (qos_entry r d m src dst) d m src dst ≡ qos_entry r d m src dst
unfolding or_default
entry_fixed r d m src dst h =
    ap
      (λ rate. record (qos_entry r d m src dst) {
        rate_bps = rate;
        burst_bytes = or_default (or_default r.burst_bytes (rate_of r)) rate;
      })
      (rate_fixed r d m src dst h)
    ∙ ap (λ burst. record (qos_entry r d m src dst) { burst_bytes = burst })
        (or_default_fixed r.burst_bytes (rate_of r))

-- the compiler on its own output, given that it leaves the peer alone
entry-compile_qos_rule :
    (r : PbQosRule) (d m src dst : String)
    → IsDirection d
    → IsMode m
    → (rate_of r == 0) ≡ false
    → ltb max_uint8 r.priority ≡ false
    → with_peer (qos_entry r d m src dst) d m ≡ compiled (qos_entry r d m src dst)
    → compile_qos_rule (qos_entry r d m src dst) ≡ compiled (qos_entry r d m src dst)
unfolding compile_qos_rule
entry-compile_qos_rule r d m src dst hd hm h k e =
    let c = qos_entry r d m src dst in
    let rate_still_set : (rate_of c == 0) ≡ false =
      ap (λ n. n == 0) (rate_fixed r d m src dst h) ∙ h in
    rw
      (
        normalize_policy_direction_fixed d (inferred_qos_direction c) hd,
        rate_still_set,
        k,
        normalize_qos_mode_fixed m hm,
      )
      e

ingress_peer :
    (r : PbQosRule) (m : String)
    → peer_of (qos_entry r "ingress" m (peer_of r "ingress") "") "ingress" ≡ peer_of r "ingress"
unfolding qos_group_for_direction qos_cidr_fallback_for_direction
ingress_peer r m = elim (Bool-cases (not (str_eq (trim r.group_id) ""))) [
  | inl e ↦ rw e (trim-trim r.src_ip)
  | inr e ↦ rw e (cidr_or_any_fixed r.src_ip)
]

trim_back : (p : String) → trim p ≡ p → (if not (str_eq (trim p) "") then trim p else trim "") ≡ p
unfolding trim
trim_back p h = elim (Bool-cases (str_eq (trim p) "")) [
  | inl e ↦ rw e (sym (sym h ∙ (eq_iff (trim p) "").0 e))
  | inr e ↦ rw e h
]

blank : cidr_or_any "" ≡ "any"
unfolding cidr_or_any
blank = refl

any_back :
    (p : String)
    → cidr_or_any p ≡ p
    → (if str_eq (cidr_or_any p) "any" then cidr_or_any "" else cidr_or_any p) ≡ p
any_back p h = elim (Bool-cases (str_eq (cidr_or_any p) "any")) [
  | inl e ↦ rw e (blank ∙ sym (sym h ∙ (eq_iff (cidr_or_any p) "any").0 e))
  | inr e ↦ rw e h
]

trim_fallback :
    (r : PbQosRule) (d : String)
    → str_eq d "ingress" ≡ false
    → trim (qos_cidr_fallback_for_direction r d) ≡ qos_cidr_fallback_for_direction r d
unfolding qos_cidr_fallback_for_direction
trim_fallback r d h = elim (Bool-cases (str_eq (trim r.dst_ip) "")) [
  | inl e ↦ rw (h, e) (trim-trim r.src_ip)
  | inr e ↦ rw (h, e) (trim-trim r.dst_ip)
]

cidr_group :
    (r : PbQosRule) (d : String)
    → str_eq d "ingress" ≡ false
    → cidr_or_any (qos_group_for_direction r d) ≡ qos_group_for_direction r d
unfolding qos_group_for_direction
cidr_group r d h = elim (Bool-cases (str_eq (cidr_or_any r.dst_ip) "any")) [
  | inl e ↦ rw (h, e) (cidr_or_any_fixed r.src_ip)
  | inr e ↦ rw (h, e) (cidr_or_any_fixed r.dst_ip)
]

outward_peer :
    (r : PbQosRule) (d m : String)
    → str_eq d "ingress" ≡ false
    → peer_of (qos_entry r d m "" (peer_of r d)) d ≡ peer_of r d
unfolding qos_group_for_direction qos_cidr_fallback_for_direction
outward_peer r d m h = elim (Bool-cases (not (str_eq (trim r.group_id) ""))) [
  | inl e ↦
      rw (e, h)
        (trim_back (if not (str_eq (trim r.dst_ip) "") then trim r.dst_ip else trim r.src_ip)
          (rw h at (trim_fallback r d h)))
  | inr e ↦
      rw (e, h)
        (any_back
          (if str_eq (cidr_or_any r.dst_ip) "any"
            then cidr_or_any r.src_ip
            else cidr_or_any r.dst_ip)
          (rw h at (cidr_group r d h)))
]

rate_set : (r : PbQosRule) (n : ℕ) → checked_rate r ≡ compiled n → (rate_of r == 0) ≡ false
rate_set r n h = elim (Bool-cases (rate_of r == 0)) [ inl e ↦ cc (rw e at h) | inr e ↦ e ]

priority_small :
    (r : PbQosRule) (n : ℕ) → checked_priority r ≡ compiled n → ltb max_uint8 r.priority ≡ false
priority_small r n h = elim (Bool-cases (ltb max_uint8 r.priority)) [
  | inl e ↦ cc (rw e at h)
  | inr e ↦ e
]

-- the answer of the second test
picked :
    {A : Type 0} (p q : Bool) (x y z : A)
    → p ≡ false
    → q ≡ true
    → (if p then x else if q then y else z) ≡ y
picked p q x y z a b = rw (a, b) refl

outward_fixed :
    (r : PbQosRule) (d m : String)
    → IsDirection d
    → IsMode m
    → (rate_of r == 0) ≡ false
    → ltb max_uint8 r.priority ≡ false
    → str_eq d "ingress" ≡ false
    → (str_eq d "egress" || str_eq d "both") ≡ true
    → compile_qos_rule (qos_entry r d m "" (peer_of r d))
      ≡ compiled (qos_entry r d m "" (peer_of r d))
outward_fixed r d m hd hm k p e o = entry-compile_qos_rule r d m "" (peer_of r d) hd hm k p kept
  where
    again :
        qos_entry
          (qos_entry r d m "" (peer_of r d))
          d
          m
          ""
          (peer_of (qos_entry r d m "" (peer_of r d)) d)
        ≡ qos_entry r d m "" (peer_of r d)
    again =
        ap (λ x. qos_entry (qos_entry r d m "" (peer_of r d)) d m "" x) (outward_peer r d m e)
        ∙ entry_fixed r d m "" (peer_of r d) k

    kept :
        with_peer (qos_entry r d m "" (peer_of r d)) d m
        ≡ compiled (qos_entry r d m "" (peer_of r d))
    kept =
        picked (str_eq d "ingress") (str_eq d "egress" || str_eq d "both") _ _ _ e o
        ∙ ap compiled again

-- the last step, for each direction
with_peer_fixed :
    (r c : PbQosRule) (d m : String)
    → IsDirection d
    → IsMode m
    → (rate_of r == 0) ≡ false
    → ltb max_uint8 r.priority ≡ false
    → with_peer r d m ≡ compiled c
    → compile_qos_rule c ≡ compiled c
with_peer_fixed r c d m (inl e) hm k p h =
    subst (λ x. compile_qos_rule x ≡ compiled x) (value_of (rw e at h))
      (entry-compile_qos_rule r "ingress" m (peer_of r "ingress") "" (inl refl) hm k p (
        ap compiled (
          ap (λ x. qos_entry (qos_entry r "ingress" m (peer_of r "ingress") "") "ingress" m x "")
            (ingress_peer r m)
          ∙ entry_fixed r "ingress" m (peer_of r "ingress") "" k)))
with_peer_fixed r c d m (inr (inl e)) hm k p h =
    subst (λ x. compile_qos_rule x ≡ compiled x) (value_of (rw e at h))
      (outward_fixed r "egress" m (inr (inl refl)) hm k p refl refl)
with_peer_fixed r c d m (inr (inr e)) hm k p h =
    subst (λ x. compile_qos_rule x ≡ compiled x) (value_of (rw e at h))
      (outward_fixed r "both" m (inr (inr refl)) hm k p refl refl)

-- Compiling the rule that a bandwidth rule compiles to gives that rule again.
pub compile_qos_rule_fixed :
    (r c : PbQosRule) → compile_qos_rule r ≡ compiled c → compile_qos_rule c ≡ compiled c
unfolding compile_qos_rule
compile_qos_rule_fixed r c h =
    let (d, hd, h1) =
      bind-inverse (normalize_policy_direction r.direction (inferred_qos_direction r)) _ c h in
    let (rate, hr, h2) = bind-inverse (checked_rate r) _ c h1 in
    let (priority, hp, h3) = bind-inverse (checked_priority r) _ c h2 in
    let (m, hm, h4) = bind-inverse (normalize_qos_mode r.mode) _ c h3 in
    with_peer_fixed r c d m
      (normalize_policy_direction-IsDirection r.direction (inferred_qos_direction r) d hd)
      (normalize_qos_mode-IsMode r.mode m hm) (rate_set r rate hr) (priority_small r priority hp) h4
