-- ===== src/Storage/Deduplication.antt =====
-- pkg/controllerstorage/alert_generator.go: a generated alert is raised once while it is active.
use aria.Prelude.{
  ℕ, String, ◌≡◌, ◌≤◌, suc, refl, subst, ◌∙◌, true, Option, none, some, [], ◌∷◌, ◌++◌, arith, inl,
  inr, Bool-cases, count_where, count_where-missing, count_where-append, find_where, ◌&&◌, ◌==◌,
  ==_iff, str_eq, eq_iff,
}
use aria.Sql.{World, Exec, pure, query, ◌>>=◌, ◌>>◌, attempt}
use aria.Sql.Rules.{
  Rel, Preorder, Rel-pure, Rel-run, Rel-attempt, Rel-read-bind, Reads-query, run-then-at, bind-at,
}
use aria.Storage.{Uuid, AuditEvent, Alert, Tables, Env}
use aria.Storage.Alerts.{
  NewAlert, inserted_alert, create_alert, create_audit_event, is_active_for, same_node,
  get_active_alert_by_node_and_type,
}
use aria.Storage.Generators.{
  unless_active, insert_alert, generate_node_offline_alert, node_offline_alert,
  generate_sync_failed_alert,
}

-- each node has one active alert of each type at most
abbrev pub OneEach : Tables → Type 0
OneEach db =
    (tenant node : Uuid) (kind : String)
    → count_where (is_active_for tenant node kind) db.alerts ≤ 1

abbrev pub KeepsOneEach : Tables → Tables → Type 0
KeepsOneEach s t = OneEach s → OneEach t

one_each : Preorder KeepsOneEach
one_each = record { here = λ s h. h; then_to = λ s t u p q h. q (p h) }

-- the alert that a generator inserts is one of the type for the node
abbrev Concerns : Uuid → Uuid → String → NewAlert → Type 0
Concerns tenant node kind a =
    (a.tenant_id ≡ tenant) × (a.node_id ≡ some node) × (a.alert_type ≡ kind)

same_slot :
    (tenant t node n : ℕ) (kind k : String)
    → (tenant == t && (node == n && (str_eq kind k && true))) ≡ true
    → (tenant ≡ t) × (node ≡ n) × (kind ≡ k)
same_slot tenant t node n kind k e = (
  (==_iff tenant t).0 (ground arith),
  (==_iff node n).0 (ground arith),
  (eq_iff kind k).0 (ground arith),
)

slot_of :
    (env : Env) (tenant node t n : Uuid) (kind k : String) (a : NewAlert) (id : Uuid)
    → Concerns tenant node kind a
    → is_active_for t n k (inserted_alert env id a) ≡ true
    → (tenant ≡ t) × (node ≡ n) × (kind ≡ k)
slot_of env tenant node t n kind k a id c e = same_slot tenant t node n kind k (
    subst (λ x. (x == t && (node == n && (str_eq kind k && true))) ≡ true) c.0
      (subst (λ x. (a.tenant_id == t && (same_node x n && (str_eq kind k && true))) ≡ true) c.1
        (subst (λ x. (a.tenant_id == t && (same_node a.node_id n && (str_eq x k && true))) ≡ true)
          c.2 e)))

insert-OneEach :
    (env : Env) (tenant node : Uuid) (kind : String) (a : NewAlert)
    → Concerns tenant node kind a
    → (db : Tables) → find_where (is_active_for tenant node kind) db.alerts ≡ none
    → (id : Uuid)
    → KeepsOneEach db (record db { alerts = db.alerts ++ inserted_alert env id a ∷ [] })
insert-OneEach env tenant node kind a c db missing id each t n k =
    elim (Bool-cases (is_active_for t n k (inserted_alert env id a))) [
      | inl e ↦
          let (ts, ns, ks) = slot_of env tenant node t n kind k a id c e in
          let free : count_where (is_active_for t n k) db.alerts ≡ 0 =
            subst (λ x. count_where (is_active_for x n k) db.alerts ≡ 0) ts
              (subst (λ x. count_where (is_active_for tenant x k) db.alerts ≡ 0) ns
                (subst (λ x. count_where (is_active_for tenant node x) db.alerts ≡ 0) ks
                  (count_where-missing (is_active_for tenant node kind) db.alerts missing))) in
          rw (count_where-append (is_active_for t n k) db.alerts (inserted_alert env id a), e, free)
            (omega arith)
      | inr e ↦
          rw (count_where-append (is_active_for t n k) db.alerts (inserted_alert env id a), e)
            (omega (arith, each t n k))
    ]

-- an alert that is created where none was found, and what follows it
create-OneEach :
    (env : Env) (tenant node : Uuid) (kind : String) (a : NewAlert) (after : Exec Tables (Unit {0}))
    → Concerns tenant node kind a
    → Rel KeepsOneEach after
    → Rel KeepsOneEach (
        get_active_alert_by_node_and_type tenant node kind >>= λ found.
        unless_active found (insert_alert env a >> after))
unfolding get_active_alert_by_node_and_type create_alert
create-OneEach env tenant node kind a after c h =
    Rel-read-bind KeepsOneEach one_each (λ found db. look db ≡ found) (query look)
      (λ found. unless_active found (insert_alert env a >> after)) (Reads-query look) part
  where
    look : Tables → Option Alert
    look db = find_where (is_active_for tenant node kind) db.alerts

    insert : Tables → Alert × Tables
    insert db =
        let row = inserted_alert env (env.alert_id db.alerts) a in
        (row, record db { alerts = db.alerts ++ row ∷ [] })

    part :
        (found : Option Alert) (w : World Tables)
        → look w.db ≡ found
        → KeepsOneEach w.db (unless_active found (insert_alert env a >> after) w).1.db
    part (some x) w e = one_each.here w.db
    part none w e =
        bind-at one_each (insert_alert env a) (λ u. after) w
          (run-then-at one_each insert (λ x. pure tt) w
            (insert-OneEach env tenant node kind a c w.db e (env.alert_id w.db.alerts))
            (λ x. Rel-pure one_each tt))
          (λ u. h)

audit-OneEach : (e : AuditEvent) → Rel KeepsOneEach (attempt (create_audit_event e))
unfolding create_audit_event
audit-OneEach e = Rel-attempt one_each _ (
    Rel-run one_each
      (λ (db : Tables). (tt {0}, record db { audit_events = db.audit_events ++ e ∷ [] }))
      (λ db h. h))

-- Raising the offline alert of a node keeps one active alert of each type for each node, whatever statements fail.
pub node_offline-OneEach :
    (env : Env) (tenant node : Uuid) (hostname : String) (w : World Tables)
    → OneEach w.db
    → OneEach (generate_node_offline_alert env tenant node hostname w).1.db
unfolding generate_node_offline_alert
node_offline-OneEach env tenant node hostname w each =
    (create-OneEach env tenant node "node_offline" (node_offline_alert tenant node hostname) _
        (refl, refl, refl) (audit-OneEach _)).at
      w each

-- A failed command raises its alert a second time when the lookup of the active one fails: with n active alerts
-- of the type for the node, and the first statement failing, there are n + 1 after the call.
pub sync_failed-repeated :
    (env : Env) (tenant node : Uuid) (command error : String) (db : Tables)
    → count_where
        (is_active_for tenant node "sync_failed")
        (generate_sync_failed_alert env tenant node command error
          (record { db = db; faults = true ∷ [] })).1.db.alerts
      ≡ suc (count_where (is_active_for tenant node "sync_failed") db.alerts)
unfolding generate_sync_failed_alert get_active_alert_by_node_and_type create_alert
    create_audit_event
sync_failed-repeated env tenant node command error db =
    count_where-append (is_active_for tenant node "sync_failed") db.alerts _
    ∙ rw ((==_iff tenant tenant).1 refl, (==_iff node node).1 refl) (omega arith)
