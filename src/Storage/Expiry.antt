-- ===== src/Storage/Expiry.antt =====
-- pkg/controllerstorage/certificate_lifecycle.go: the certificates that are marked as expired, and those that are listed after it.
use aria.Prelude.{
  ℕ, String, ◌≡◌, refl, sym, ap, subst, ◌∙◌, Bool, true, false, Option, none, some, List, [], ◌∷◌,
  arith, inl, inr, Bool-cases, ltb, ◌==◌, ◌&&◌, if◌then◌else◌, map, length, suc, update_where,
  count_where, rows_where, find_where, find_where-update_where, order_by, insert_row, All,
}
use aria.Sql.{Result, ok, World, fault, later_faults}
use aria.Storage.{Uuid, NodeCertificate, issued, cert_expired, cert_status_eq, Node, Tables, Env}
use aria.Storage.Certificates.{
  is_of_node, is_outdated, expired_certificate, mark_expired_node_certificates, is_due,
  is_active_node, on_active_nodes, list_certificates_expiring_before,
}

length-map-rows_where :
    (p : NodeCertificate → Bool) (f : NodeCertificate → NodeCertificate) (t : List NodeCertificate)
    → length (map f (rows_where p t)) ≡ count_where p t
length-map-rows_where p f [] = refl
length-map-rows_where p f (r ∷ t) = elim (Bool-cases (p r)) [
  | inl e ↦ rw e (ap suc (length-map-rows_where p f t))
  | inr e ↦ rw e (length-map-rows_where p f t)
]

All-insert_row :
    {A : Type 0} (P : A → Type 0) (before : A → A → Bool) (a : A) (t : List A)
    → P a
    → All P t
    → All P (insert_row before a t)
All-insert_row P before a [] h k = (h, tt)
All-insert_row P before a (r ∷ t) h k = elim (Bool-cases (before r a)) [
  | inl e ↦ rw e (k.0, All-insert_row P before a t h k.1)
  | inr e ↦ rw e (h, k)
]

All-order_by :
    {A : Type 0} (P : A → Type 0) (before : A → A → Bool) (t : List A)
    → All P t
    → All P (order_by before t)
All-order_by P before [] h = tt
All-order_by P before (r ∷ t) h =
    All-insert_row P before r (order_by before t) h.0 (All-order_by P before t h.1)

-- a certificate that is due for renewal has time left
abbrev pub HasTime : ℕ → NodeCertificate × String → Type 0
HasTime now x = ltb x.0.not_after now ≡ false

-- a certificate that was marked
abbrev pub IsMarked : ℕ → ℕ → NodeCertificate → Type 0
IsMarked now at c = (c.status ≡ cert_expired) × (ltb c.not_after now ≡ true) × (c.updated_at ≡ at)

module _ (now at : ℕ) where
  expired_certificate-IsMarked :
      (t : List NodeCertificate)
      → All (IsMarked now at) (map (expired_certificate at) (rows_where (is_outdated now) t))
  expired_certificate-IsMarked [] = tt
  expired_certificate-IsMarked (c ∷ t) = elim (Bool-cases (is_outdated now c)) [
    | inl e ↦ rw e ((refl, ground arith, refl), expired_certificate-IsMarked t)
    | inr e ↦ rw e (expired_certificate-IsMarked t)
  ]

  -- the certificates that are listed after the update
  listed-HasTime :
      (deadline : ℕ) (nodes : List Node) (t : List NodeCertificate)
      → All (HasTime now) (
          on_active_nodes nodes (
            rows_where
              (is_due deadline)
              (update_where (is_outdated now) (expired_certificate at) t)))
  listed-HasTime deadline nodes [] = tt
  listed-HasTime deadline nodes (c ∷ t) = elim (Bool-cases (is_outdated now c)) [
    | inl e ↦ rw e (listed-HasTime deadline nodes t)
    | inr e ↦ elim (Bool-cases (is_due deadline c)) [
      | inl due ↦
          rw (e, due)
            (one_more (find_where (λ (n : Node). n.id == c.node_id) nodes) c _ (ground arith)
              (listed-HasTime deadline nodes t))
      | inr due ↦ rw (e, due) (listed-HasTime deadline nodes t)
    ]
  ]
    where
      one_more :
          (o : Option Node) (c : NodeCertificate) (rest : List (NodeCertificate × String))
          → ltb c.not_after now ≡ false
          → All (HasTime now) rest
          → All (HasTime now) (elim o [
            | none ↦ rest
            | some n ↦ if is_active_node n then (c, n.hostname) ∷ rest else rest
          ])
      one_more none c rest time h = h
      one_more (some n) c rest time h = elim (Bool-cases (is_active_node n)) [
        | inl e ↦ rw e (time, h)
        | inr e ↦ rw e h
      ]

-- When MarkExpiredNodeCertificates returns, it returns as many certificates as were issued and out of date, each as
-- expired. The certificate of a node, if it was one of these, is expired from then on with its time of change, and
-- otherwise as it was. A later ListCertificatesExpiringBefore that returns lists no certificate that was out of date,
-- whatever deadline it is given.
pub mark_expired-lists :
    (env : Env) (now deadline : ℕ) (w : World Tables) (certs : List NodeCertificate)
    (listed : List (NodeCertificate × String)) (n : Uuid) (c : NodeCertificate)
    → (mark_expired_node_certificates env now w).0 ≡ ok certs
    → (list_certificates_expiring_before deadline (mark_expired_node_certificates env now w).1).0
      ≡ ok listed
    → find_where (is_of_node n) w.db.certificates ≡ some c
    → (length certs
        ≡ count_where
            (λ (x : NodeCertificate). cert_status_eq x.status issued && ltb x.not_after now)
            w.db.certificates)
      × All (IsMarked now env.now) certs
      × (find_where (is_of_node n) (mark_expired_node_certificates env now w).1.db.certificates
          ≡ some (
              if cert_status_eq c.status issued && ltb c.not_after now
              then record c { status = cert_expired; updated_at = env.now }
              else c))
      × All (HasTime now) listed
unfolding mark_expired_node_certificates list_certificates_expiring_before
mark_expired-lists env now deadline w certs listed n c h k q = elim (Bool-cases (fault w.faults)) [
  | inl e ↦ cc (rw e at h)
  | inr e ↦
      let marks : map (expired_certificate env.now) (rows_where (is_outdated now) w.db.certificates)
          ≡ certs =
        value_of (rw e at h) in
      rw e (
        ap length (sym marks)
            ∙ length-map-rows_where (is_outdated now) (expired_certificate env.now)
                w.db.certificates,
        subst (All (IsMarked now env.now)) marks
            (expired_certificate-IsMarked now env.now w.db.certificates),
        find_where-update_where (is_of_node n) (is_outdated now) (expired_certificate env.now)
              (λ x. refl) w.db.certificates
            ∙ rw q refl,
        elim (Bool-cases (fault (later_faults w.faults))) [
          | inl g ↦ cc (rw (e, g) at k)
          | inr g ↦ subst (All (HasTime now)) (value_of (rw (e, g) at k)) (
              All-order_by (HasTime now) _ _
                (listed-HasTime now env.now deadline w.db.nodes w.db.certificates))
        ],
      )
]
  where
    value_of : {A : Type 0} {x y : A} → Path (Result A) (ok x) (ok y) → x ≡ y
    value_of e = cc e
