-- ===== src/Snapshot/Forms.antt =====
-- internal/controller/grpc/policy_snapshot.go: a field in its normal form is left as it is.
use aria.Prelude.{
  ℕ, String, Bool, true, false, ◌≡◌, refl, subst, ◌⊎◌, inl, inr, ◌&&◌, ◌||◌, not, str_eq, eq_iff,
  str_append, ◌==◌, ltb, if◌then◌else◌, trim, trim-trim, to_lower, decimal, decimal-is_plain,
  is_plain, trim-is_plain, to_lower-is_plain, append-is_plain, Bool-cases,
}
use aria.Snapshot.{compiled, refused, PolicyError, invalid_acl_action, invalid_policy_direction}
use aria.Snapshot.Inversion.{value_of}
use aria.Snapshot.Normalize.{
  normalize_acl_action, normalize_policy_direction, normalize_acl_ports, range_text,
  acl_net_fallback, cidr_or_any, max_uint16,
}

abbrev pub IsAction : String → Type 0
IsAction a = (a ≡ "allow") ⊎ (a ≡ "deny")

abbrev pub IsDirection : String → Type 0
IsDirection d = (d ≡ "ingress") ⊎ ((d ≡ "egress") ⊎ (d ≡ "both"))

-- what a chain of tests can answer
of_two :
    (p q : Bool) (x y a : String) (e : PolicyError)
    → (if p then compiled x else if q then compiled y else refused e) ≡ compiled a
    → (a ≡ x) ⊎ (a ≡ y)
of_two true q x y a e h = inl (cc h)
of_two false true x y a e h = inr (cc h)
of_two false false x y a e h = cc h

of_three :
    (p q r : Bool) (x y z a : String) (e : PolicyError)
    → (if p then compiled x else if q then compiled y else if r then compiled z else refused e)
      ≡ compiled a
    → (a ≡ x) ⊎ ((a ≡ y) ⊎ (a ≡ z))
of_three true q r x y z a e h = inl (cc h)
of_three false q r x y z a e h = inr (of_two q r y z a e h)

pub normalize_acl_action-IsAction :
    (s a : String) → normalize_acl_action s ≡ compiled a → IsAction a
unfolding normalize_acl_action
normalize_acl_action-IsAction s a h = of_two _ _ "allow" "deny" a (invalid_acl_action s) h

pub normalize_acl_action_fixed : (a : String) → IsAction a → normalize_acl_action a ≡ compiled a
unfolding normalize_acl_action
normalize_acl_action_fixed a (inl h) = rw h refl
normalize_acl_action_fixed a (inr h) = rw h refl

pub normalize_policy_direction-IsDirection :
    (s f d : String) → normalize_policy_direction s f ≡ compiled d → IsDirection d
unfolding normalize_policy_direction
normalize_policy_direction-IsDirection s f d h =
    of_three _ _ _ "ingress" "egress" "both" d (invalid_policy_direction s) h

pub normalize_policy_direction_fixed :
    (d f : String) → IsDirection d → normalize_policy_direction d f ≡ compiled d
unfolding normalize_policy_direction
normalize_policy_direction_fixed d f (inl h) = rw h refl
normalize_policy_direction_fixed d f (inr (inl h)) = rw h refl
normalize_policy_direction_fixed d f (inr (inr h)) = rw h refl

pub cidr_or_any_fixed : (s : String) → cidr_or_any (cidr_or_any s) ≡ cidr_or_any s
unfolding cidr_or_any
cidr_or_any_fixed s =
    elim (Bool-cases (
      str_eq (trim s) ""
      || (str_eq (trim s) "0" || (str_eq (trim s) "0.0.0.0/0" || str_eq (trim s) "::/0")))) [
        | inl e ↦ rw e refl
        | inr e ↦ rw (e, trim-trim s, e) refl
      ]

pub acl_net_fallback_fixed :
    (s g : String) → acl_net_fallback (acl_net_fallback s g) g ≡ acl_net_fallback s g
unfolding acl_net_fallback
acl_net_fallback_fixed s g = elim (Bool-cases (not (str_eq (trim g) ""))) [
  | inl e ↦ rw e (trim-trim s)
  | inr e ↦ rw e (cidr_or_any_fixed s)
]

-- a filter that is trimmed and does not say "all" is left as it is
ports_fixed :
    (p : String)
    → trim p ≡ p
    → str_eq (to_lower p) "all" ≡ false
    → normalize_acl_ports p 0 0 ≡ compiled p
unfolding normalize_acl_ports
ports_fixed p h k = elim (Bool-cases (str_eq p "")) [
  | inl e ↦ rw ((eq_iff p "").0 e) refl
  | inr e ↦ rw (h, e, k) refl
]

pub plain_fixed : (p : String) → is_plain p ≡ true → normalize_acl_ports p 0 0 ≡ compiled p
plain_fixed p h = ports_fixed p (trim-is_plain p h) (rw (to_lower-is_plain p h) not_all)
  where
    not_all : str_eq p "all" ≡ false
    not_all = elim (Bool-cases (str_eq p "all")) [
      | inl e ↦ cc (rw ((eq_iff p "all").0 e) at h)
      | inr e ↦ e
    ]

range_text-is_plain :
    (low high : ℕ) (p : String) → range_text low high ≡ compiled p → is_plain p ≡ true
range_text-is_plain low high p h = elim (Bool-cases (ltb high low)) [
  | inl e ↦ cc (rw e at h)
  | inr e ↦ elim (Bool-cases (low == high)) [
    | inl g ↦ subst (λ t. is_plain t ≡ true) (value_of (rw (e, g) at h)) (decimal-is_plain low)
    | inr g ↦
        subst (λ t. is_plain t ≡ true) (value_of (rw (e, g) at h))
          (append-is_plain (decimal low) (str_append "-" (decimal high)) (decimal-is_plain low)
            (append-is_plain "-" (decimal high) refl (decimal-is_plain high)))
  ]
]

pub normalize_acl_ports_fixed :
    (s : String) (low high : ℕ) (p : String)
    → normalize_acl_ports s low high ≡ compiled p
    → normalize_acl_ports p 0 0 ≡ compiled p
unfolding normalize_acl_ports
normalize_acl_ports_fixed s low high p h = elim (Bool-cases (not (str_eq (trim s) ""))) [
  | inl e ↦ elim (Bool-cases (str_eq (to_lower (trim s)) "all")) [
    | inl g ↦
        subst (λ t. normalize_acl_ports t 0 0 ≡ compiled t) (value_of (rw (e, g) at h))
          (plain_fixed "" refl)
    | inr g ↦
        subst (λ t. normalize_acl_ports t 0 0 ≡ compiled t) (value_of (rw (e, g) at h))
          (ports_fixed (trim s) (trim-trim s) g)
  ]
  | inr e ↦ elim (Bool-cases (low == 0 && (high == 0 || high == max_uint16))) [
    | inl g ↦
        subst (λ t. normalize_acl_ports t 0 0 ≡ compiled t) (value_of (rw (e, g) at h))
          (plain_fixed "" refl)
    | inr g ↦ elim (Bool-cases (ltb max_uint16 low || ltb max_uint16 high)) [
      | inl k ↦ cc (rw (e, g, k) at h)
      | inr k ↦
          plain_fixed p
            (range_text-is_plain low (if high == 0 then low else high) p (rw (e, g, k) at h))
    ]
  ]
]
