-- ===== src/Storage/Suspension.antt =====
-- pkg/controllerstorage/node_lifecycle.go: what stopping a node leaves behind.
use aria.Prelude.{
  ℕ, String, ◌≡◌, refl, sym, subst, ◌∙◌, ap, true, some, List, arith, inl, inr, ltb, if◌then◌else◌,
  update_where, count_where, count_where-update_where, find_where, find_where-update_where,
  Option-cases, str_eq, str_append, trim, to_lower, find_where-some,
}
use aria.Sql.{ok, World, Exec, pure, run, ◌>>=◌, Outcome, commit, rollback, transaction, message}
use aria.Sql.Rules.{
  Rel, Same, Same-Preorder, Rel-run, Rel-if, Rel-pure, Rel-then, Rel-unless, Reads, Reads-statement,
  Preorder,
}
use aria.Sql.Inversion.{run-ok, transaction-ok, bind-ok, unless-ok, begun}
use aria.Storage.{NodeCertificate, AgentCommand, AuditEvent, Node, Tables, Env}
use aria.Storage.Alerts.{create_audit_event}
use aria.Storage.Certificates.{is_issued_to, revoked_certificate, revoke_node_certificates_tx}
use aria.Storage.Failing.{is_incomplete_of, fail_incomplete_tx}
use aria.Storage.GiveUp.{fail_incomplete_tx-ok, GivenUp-clears}
use aria.Storage.Lifecycle.{
  NodeLifecycleTransition, node_status_stops_commands, node_status_requires_certificate_revoke,
  has_public_key, with_status, found_or_no_rows, lock_node,
  create_lifecycle_certificate_revoked_audit_event_tx, revoke_on_stop, stop_commands,
  audit_transition, apply_to_node, apply_node_lifecycle_transition,
}

-- the tables that the audit events are not part of
abbrev parts : Tables → List Node × List NodeCertificate × List AgentCommand
parts db = (db.nodes, db.certificates, db.commands)

-- the nodes and their certificates
abbrev identity : Tables → List Node × List NodeCertificate
identity db = (db.nodes, db.certificates)

audit-parts : (e : AuditEvent) → Rel (Same parts) (create_audit_event e)
unfolding create_audit_event
audit-parts e = Rel-run (Same-Preorder parts) _ (λ s. refl)

audit_transition-parts :
    (n : Node) (tr : NodeLifecycleTransition) (target : String)
    → Rel (Same parts) (audit_transition n tr target)
unfolding audit_transition
audit_transition-parts n tr target =
    Rel-if (Same-Preorder parts) (str_eq tr.audit_event_type "") _ _
      (Rel-pure (Same-Preorder parts) tt) (audit-parts _)

stop_commands-identity :
    (env : Env) (key target : String) → Rel (Same identity) (stop_commands env key target)
unfolding stop_commands fail_incomplete_tx
stop_commands-identity env key target =
    Rel-if o (node_status_stops_commands target) _ _
      (Rel-then o _ _ (Rel-unless o _ _) (
        Rel-then o _ _ (Rel-then o _ _ (Rel-run o _ (λ s. refl)) (Rel-run o _ (λ s. refl)))
          (Rel-pure o tt)))
      (Rel-pure o tt)
  where
    o : Preorder (Same identity)
    o = Same-Preorder identity

-- after the certificates of a stopped node are revoked, none is issued, and the nodes are as they were
revoke_on_stop-ok :
    (env : Env) (n : Node) (tr : NodeLifecycleTransition) (target : String) (w : World Tables)
    → node_status_stops_commands target ≡ true
    → (revoke_on_stop env n tr target w).0 ≡ ok tt
    → (count_where (is_issued_to n.id) (revoke_on_stop env n tr target w).1.db.certificates ≡ 0)
      × ((revoke_on_stop env n tr target w).1.db.nodes ≡ w.db.nodes)
unfolding revoke_on_stop node_status_requires_certificate_revoke revoke_node_certificates_tx
    create_lifecycle_certificate_revoked_audit_event_tx
revoke_on_stop-ok env n tr target w stops h = rw stops (revoking-ok (rw stops at h))
  where
    reason : String
    reason =
        if str_eq (trim tr.revoke_reason) ""
        then str_append "node " target
        else trim tr.revoke_reason

    why : String
    why = if str_eq reason "" then "node_lifecycle" else reason

    revoke : Tables → ℕ × Tables
    revoke db = (
      count_where (is_issued_to n.id) db.certificates,
      record db {
        certificates =
            update_where (is_issued_to n.id) (revoked_certificate env.now why) db.certificates;
      },
    )

    follow : ℕ → Exec Tables (Unit {0})
    follow c =
        if ltb 0 c
        then create_lifecycle_certificate_revoked_audit_event_tx env n tr target reason c
        else pure tt

    follow-parts : (c : ℕ) → Rel (Same parts) (follow c)
    follow-parts c =
        Rel-if (Same-Preorder parts) (ltb 0 c) _ _ (audit-parts _)
          (Rel-pure (Same-Preorder parts) tt)

    none_left :
        (cs : List NodeCertificate)
        → count_where
            (is_issued_to n.id)
            (update_where (is_issued_to n.id) (revoked_certificate env.now why) cs)
          ≡ 0
    none_left cs =
        count_where-update_where (is_issued_to n.id) (is_issued_to n.id)
          (revoked_certificate env.now why) (λ c e. ground arith) (λ c e. e) cs

    revoking-ok :
        ((run revoke >>= follow) w).0 ≡ ok tt
        → (count_where (is_issued_to n.id) ((run revoke >>= follow) w).1.db.certificates ≡ 0)
          × (((run revoke >>= follow) w).1.db.nodes ≡ w.db.nodes)
    revoking-ok g =
        let (c, g0, g1, g2) = bind-ok (run revoke) follow w tt g in
        let ran = ap (λ out. parts out.1.db) (run-ok revoke w c g0) in
        let last = ap parts g2 ∙ (follow-parts c).at (run revoke w).1 ∙ ran in
        (
          ap (λ p. count_where (is_issued_to n.id) p.1) last ∙ none_left w.db.certificates,
          ap (λ p. p.0) last,
        )

stop_commands-ok :
    (env : Env) (key target : String) (w : World Tables)
    → node_status_stops_commands target ≡ true
    → (stop_commands env key target w).0 ≡ ok tt
    → count_where (is_incomplete_of key) (stop_commands env key target w).1.db.commands ≡ 0
unfolding stop_commands
stop_commands-ok env key target w stops h =
    let note = str_append "node status changed to " target in
    rw stops (
      GivenUp-clears env key note w.db (fail_incomplete_tx env key note w).1.db
        (fail_incomplete_tx-ok env key note w tt (rw stops at h)))

-- the node has the status, no certificate is issued to it, and none of its commands is incomplete
abbrev pub Stopped : ℕ → String → String → Node → Tables → Type 0
Stopped now key target n t =
    (find_where (has_public_key key) t.nodes ≡ some (with_status now target n))
    × (count_where (is_issued_to n.id) t.certificates ≡ 0)
    × (count_where (is_incomplete_of key) t.commands ≡ 0)

apply_to_node-ok :
    (env : Env) (key : String) (tr : NodeLifecycleTransition) (target : String) (w : World Tables)
    (o : Outcome Node)
    → node_status_stops_commands target ≡ true
    → (apply_to_node env key tr target w).0 ≡ ok o
    → (n : Node) × (find_where (has_public_key key) w.db.nodes ≡ some n)
      × (o ≡ commit (record n { status = some target }))
      × Stopped env.now key target n (apply_to_node env key tr target w).1.db
unfolding apply_to_node
apply_to_node-ok env key tr target w o stops h =
    let (n, a0, a1, a2) = bind-ok (lock_node key) _ w o h in
    let v1 = (lock_node key w).1 in
    let (u, b0, b1, b2) = bind-ok (run set_status) _ v1 o a1 in
    let v2 = (run set_status v1).1 in
    let (u1, c0, c1, c2) = bind-ok (revoke_on_stop env n tr target) _ v2 o b1 in
    let v3 = (revoke_on_stop env n tr target v2).1 in
    let (u2, d0, d1, d2) = bind-ok (stop_commands env key target) _ v3 o c1 in
    let v4 = (stop_commands env key target v3).1 in
    let (u3, e0, e1, e2) = bind-ok (audit_transition n tr target) _ v4 o d1 in
    let found = lock-found n (lock.gives w n a0) in
    let (none_issued, nodes_kept) = revoke_on_stop-ok env n tr target v2 stops c0 in
    let identity_kept = (stop_commands-identity env key target).at v3 in
    let last = ap parts (a2 ∙ b2 ∙ c2 ∙ d2 ∙ e2) ∙ (audit_transition-parts n tr target).at v4 in
    let written =
      ap (λ p. p.0) last
      ∙ ap (λ p. p.0) identity_kept
      ∙ nodes_kept
      ∙ ap (λ out. out.1.db.nodes) (run-ok set_status v1 u b0)
      ∙ ap (λ db. (set_status db).1.nodes) (lock.same w) in
    (
      n,
      found,
      sym (cc e1),
      (
        ap (find_where (has_public_key key)) written ∙ row_after n found,
        ap (λ p. count_where (is_issued_to n.id) p.1) last
            ∙ ap (λ p. count_where (is_issued_to n.id) p.1) identity_kept
            ∙ none_issued,
        ap (λ p. count_where (is_incomplete_of key) p.2) last
            ∙ stop_commands-ok env key target v3 stops d0,
      ),
    )
  where
    set_status : Tables → Unit {0} × Tables
    set_status db = (
      tt,
      record db { nodes = update_where (has_public_key key) (with_status env.now target) db.nodes },
    )

    lock :
        Reads
          (λ n db. found_or_no_rows (find_where (has_public_key key) db.nodes) ≡ ok n)
          (lock_node key)
    lock =
        Reads-statement
          (λ (db : Tables). found_or_no_rows (find_where (has_public_key key) db.nodes))

    lock-found :
        (n : Node)
        → found_or_no_rows (find_where (has_public_key key) w.db.nodes) ≡ ok n
        → find_where (has_public_key key) w.db.nodes ≡ some n
    lock-found n g = elim (Option-cases (find_where (has_public_key key) w.db.nodes)) [
      | inl e ↦ cc (rw e at g)
      | inr (m, e) ↦ e ∙ ap some (cc (rw e at g))
    ]

    row_after :
        (n : Node)
        → find_where (has_public_key key) w.db.nodes ≡ some n
        → find_where
            (has_public_key key)
            (update_where (has_public_key key) (with_status env.now target) w.db.nodes)
          ≡ some (with_status env.now target n)
    row_after n found =
        find_where-update_where (has_public_key key) (has_public_key key)
          (with_status env.now target) (λ m. refl) w.db.nodes
        ∙ rw (found, (find_where-some (has_public_key key) w.db.nodes found).1)

-- When a lifecycle transition to a status that stops nodes (deleted, suspended or banned) returns, the node has
-- the status, no issued certificate of it is left, and none of its commands is incomplete.
pub transition-stops :
    (env : Env) (key : String) (tr : NodeLifecycleTransition) (w : World Tables) (m : Node)
    → node_status_stops_commands (to_lower (trim tr.target_status)) ≡ true
    → (apply_node_lifecycle_transition env key tr w).0 ≡ ok m
    → (n : Node) × (find_where (has_public_key key) w.db.nodes ≡ some n)
      × (m ≡ record n { status = some (to_lower (trim tr.target_status)) })
      × Stopped env.now key
          (to_lower (trim tr.target_status))
          n
          (apply_node_lifecycle_transition env key tr w).1.db
unfolding apply_node_lifecycle_transition
transition-stops env key tr w m stops h =
    let (given, skip) =
      unless-ok (str_eq target "") (message "target status is required") (transaction body) w m h in
    elim (transaction-ok body w m (ap (λ out. out.0) (sym skip) ∙ h)) [
      | inl (committed, tables) ↦
          let (n, found, same, stopped) =
            apply_to_node-ok env key tr target (begun w) (commit m) stops committed in
          (
            n,
            found,
            cc same,
            subst (Stopped env.now key target n) (sym (ap (λ out. out.1.db) skip ∙ tables)) stopped,
          )
      | inr (rolled, tables) ↦
          let (n, found, same, stopped) =
            apply_to_node-ok env key tr target (begun w) (rollback m) stops rolled in
          cc same
    ]
  where
    target : String
    target = to_lower (trim tr.target_status)

    body : Exec Tables (Outcome Node)
    body = apply_to_node env key tr target
