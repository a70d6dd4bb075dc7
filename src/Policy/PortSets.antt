-- ===== src/Policy/PortSets.antt =====
-- pkg/controllerstorage/network_policy.go: the port filters of a rule as a set of ports.
use aria.Prelude.{
  String, ℤ, pos, lezb, ltzb, ◌≤ℤ◌, ◌≡◌, ◌↔◌, Bool, true, false, Option, none, some, List, [], ◌∷◌,
  ◌&&◌, ◌||◌, str_eq, if◌then◌else◌, trim, to_lower, split, All, ◌++◌, arith, Bool-cases, inl, inr,
  cut, contains_char, atoi,
}
use aria.Policy.Ports.{
  PortInterval, clamp_port, range_of, single, part_intervals, all_intervals, or_every_port,
  policy_port_intervals, meet, meets_any, any_meet, ports_overlap, without_action, rest_text,
}

abbrev pub holds : ℤ → PortInterval → Bool
holds p v = lezb v.start p && lezb p v.end

abbrev pub holds_any : ℤ → List PortInterval → Bool
holds_any p [] = false
holds_any p (v ∷ vs) = let rest = holds_any p vs in if holds p v then true else rest

-- the port passes the filter of a rule
abbrev pub matches : String → ℤ → ℤ → Bool
matches ports dst_port p = holds_any p (policy_port_intervals ports dst_port)

abbrev IsInterval : PortInterval → Type 0
IsInterval v = v.start ≤ℤ v.end

clamp_port-monotone : (a b : ℤ) → lezb a b ≡ true → clamp_port a ≤ℤ clamp_port b
unfolding clamp_port
clamp_port-monotone a b h = ground arith

range_of-IsInterval : (a b : Option ℤ) → All IsInterval (range_of a b)
range_of-IsInterval none b = tt
range_of-IsInterval (some a) none = tt
range_of-IsInterval (some a) (some b) = elim (Bool-cases (lezb a b)) [
  | inl e ↦ rw e (clamp_port-monotone a b e, tt)
  | inr e ↦ rw e tt
]

single-IsInterval : (a : Option ℤ) → All IsInterval (single a)
single-IsInterval none = tt
single-IsInterval (some a) = (omega arith, tt)

part_intervals-IsInterval : (raw : String) → All IsInterval (part_intervals raw)
unfolding part_intervals
part_intervals-IsInterval raw = elim (Bool-cases (str_eq (trim raw) "")) [
  | inl e ↦ rw e tt
  | inr e ↦ elim (Bool-cases (contains_char b'-' (without_action (trim raw)))) [
    | inl g ↦
        rw (e, g)
          (range_of-IsInterval (atoi (trim (cut b'-' (without_action (trim raw))).0))
            (atoi (trim (rest_text (cut b'-' (without_action (trim raw))).1))))
    | inr g ↦ rw (e, g) (single-IsInterval (atoi (without_action (trim raw))))
  ]
]

append-IsInterval :
    (a b : List PortInterval) → All IsInterval a → All IsInterval b → All IsInterval (a ++ b)
append-IsInterval [] b h k = k
append-IsInterval (v ∷ a) b h k = (h.0, append-IsInterval a b h.1 k)

all_intervals-IsInterval : (parts : List String) → All IsInterval (all_intervals parts)
unfolding all_intervals
all_intervals-IsInterval [] = tt
all_intervals-IsInterval (p ∷ ps) =
    append-IsInterval (part_intervals p) (all_intervals ps) (part_intervals-IsInterval p)
      (all_intervals-IsInterval ps)

or_every_port-IsInterval :
    (vs : List PortInterval) → All IsInterval vs → All IsInterval (or_every_port vs)
or_every_port-IsInterval [] h = (omega arith, tt)
or_every_port-IsInterval (v ∷ vs) h = h

-- every interval of a filter has its start at or before its end
policy_port_intervals-IsInterval :
    (ports : String) (dst_port : ℤ) → All IsInterval (policy_port_intervals ports dst_port)
unfolding policy_port_intervals
policy_port_intervals-IsInterval ports dst_port =
    elim (Bool-cases (str_eq (trim ports) "" || str_eq (to_lower (trim ports)) "all")) [
      | inr e ↦ rw e (
          or_every_port-IsInterval (all_intervals (split b',' ports))
            (all_intervals-IsInterval (split b',' ports)))
      | inl e ↦ elim (Bool-cases (ltzb (pos 0) dst_port)) [
        | inl g ↦ rw (e, g) (omega arith, tt)
        | inr g ↦ rw (e, g) (omega arith, tt)
      ]
    ]

-- the later of the two starts
later : ℤ → ℤ → ℤ
later a b = if lezb a b then b else a

meet-holds :
    (a b : PortInterval)
    → IsInterval a
    → IsInterval b
    → meet a b ≡ true
    → (holds (later a.start b.start) a ≡ true) × (holds (later a.start b.start) b ≡ true)
unfolding later
meet-holds a b h k m = elim (Bool-cases (lezb a.start b.start)) [
  | inl e ↦ rw e (ground arith, ground arith)
  | inr e ↦ rw e (ground arith, ground arith)
]

holds-meet : (p : ℤ) (a b : PortInterval) → holds p a ≡ true → holds p b ≡ true → meet a b ≡ true
holds-meet p a b h k = ground arith

meets_any-holds :
    (a : PortInterval) (bs : List PortInterval)
    → IsInterval a
    → All IsInterval bs
    → meets_any a bs ≡ true
    → (p : ℤ) × (holds p a ≡ true) × (holds_any p bs ≡ true)
meets_any-holds a [] h k m = cc m
meets_any-holds a (b ∷ bs) h k m = elim (Bool-cases (meet a b)) [
  | inl e ↦ let (l, r) = meet-holds a b h k.0 e in (later a.start b.start, l, rw r)
  | inr e ↦ let (p, l, r) = meets_any-holds a bs h k.1 (rw e at m) in (p, l, ground (arith, r))
]

any_meet-holds :
    (as_ bs : List PortInterval)
    → All IsInterval as_
    → All IsInterval bs
    → any_meet as_ bs ≡ true
    → (p : ℤ) × (holds_any p as_ ≡ true) × (holds_any p bs ≡ true)
any_meet-holds [] bs h k m = cc m
any_meet-holds (a ∷ more) bs h k m = elim (Bool-cases (meets_any a bs)) [
  | inl e ↦ let (p, l, r) = meets_any-holds a bs h.0 k e in (p, rw l, r)
  | inr e ↦ let (p, l, r) = any_meet-holds more bs h.1 k (rw e at m) in (p, ground (arith, l), r)
]

holds_any-meets :
    (p : ℤ) (a : PortInterval) (bs : List PortInterval)
    → holds p a ≡ true
    → holds_any p bs ≡ true
    → meets_any a bs ≡ true
holds_any-meets p a [] h k = cc k
holds_any-meets p a (b ∷ bs) h k = elim (Bool-cases (holds p b)) [
  | inl e ↦ rw (holds-meet p a b h e)
  | inr e ↦ ground (arith, holds_any-meets p a bs h (rw e at k))
]

holds_any-any_meet :
    (p : ℤ) (as_ bs : List PortInterval)
    → holds_any p as_ ≡ true
    → holds_any p bs ≡ true
    → any_meet as_ bs ≡ true
holds_any-any_meet p [] bs h k = cc h
holds_any-any_meet p (a ∷ more) bs h k = elim (Bool-cases (holds p a)) [
  | inl e ↦ rw (holds_any-meets p a bs e k)
  | inr e ↦ ground (arith, holds_any-any_meet p more bs (rw e at h) k)
]

-- The port filters of two rules overlap exactly when there is a port that passes both.
pub ports_overlap_iff :
    (left : String) (left_port : ℤ) (right : String) (right_port : ℤ)
    → (ports_overlap left left_port right right_port ≡ true)
      ↔ ((p : ℤ) × (matches left left_port p ≡ true) × (matches right right_port p ≡ true))
unfolding ports_overlap
ports_overlap_iff left left_port right right_port = (
  λ h.
      any_meet-holds (policy_port_intervals left left_port) (policy_port_intervals right right_port)
        (policy_port_intervals-IsInterval left left_port)
        (policy_port_intervals-IsInterval right right_port) h,
  λ h.
      holds_any-any_meet h.0 (policy_port_intervals left left_port)
        (policy_port_intervals right right_port) h.1 h.2,
)
