-- ===== src/Policy/AllOrNothing.antt =====
-- pkg/controllerstorage/policy_sync.go: a change of rules and its sync are both there, or neither is.
use aria.Prelude.{[], ◌≡◌, refl, ap, sym, ◌∙◌, ◌⊎◌, inl, inr, Bool-cases}
use aria.Sql.{
  Error, db_failure, Result, ok, err, World, Exec, fault, later_faults, pure, ◌>>=◌, ◌>>◌, and_then,
  attempt-ok, commit, settle, transaction,
}
use aria.Sql.Rules.{Rel, Same, Same-Preorder, Rel-run, Rel-attempt}
use aria.Storage.{Tables, Env, AgentCommand}
use aria.Storage.Alerts.{create_audit_event}
use aria.Storage.PolicySync.{
  PolicySyncRequest, PolicySyncResult, queued_event, record_command_queued_audit,
}
use aria.Policy.Store.{PolicyTables, on_storage}
use aria.Policy.Mutation.{change_and_queue, mutate_in_transaction, mutate_policy_and_queue_sync}

-- after BEGIN
abbrev pub begun : World PolicyTables → World PolicyTables
begun w = record { db = w.db; faults = later_faults w.faults }

-- the tables but for the audit trail
abbrev pub without_audit : PolicyTables → PolicyTables
without_audit db = record db { storage = record db.storage { audit_events = [] } }

-- how a transaction ends whose body commits what it gives
committed :
    {A : Type 0} (m : Exec PolicyTables A) (w : World PolicyTables)
    → ((e : Error) × ((transaction (m >>= λ a. pure (commit a)) w).0 ≡ err e)
        × ((transaction (m >>= λ a. pure (commit a)) w).1.db ≡ w.db))
      ⊎ ((a : A) × ((m (begun w)).0 ≡ ok a)
          × ((transaction (m >>= λ a. pure (commit a)) w).0 ≡ ok a)
          × ((transaction (m >>= λ a. pure (commit a)) w).1.db ≡ (m (begun w)).1.db))
committed {A} m w = elim (Bool-cases (fault w.faults)) [
  | inl e ↦ inl (db_failure, rw e refl, rw e refl)
  | inr e ↦ rw e (settled (m (begun w)))
]
  where
    whole : Result A × World PolicyTables → Result A × World PolicyTables
    whole out = settle w.db (and_then out.0 (λ a. pure (commit a)) out.1)

    settled :
        (out : Result A × World PolicyTables)
        → ((e : Error) × ((whole out).0 ≡ err e) × ((whole out).1.db ≡ w.db))
          ⊎ ((a : A) × (out.0 ≡ ok a) × ((whole out).0 ≡ ok a) × ((whole out).1.db ≡ out.1.db))
    settled (err e, v) = inl (e, refl, refl)
    settled (ok a, v) = elim (Bool-cases (fault v.faults)) [
      | inl e ↦ inl (db_failure, rw e refl, rw e refl)
      | inr e ↦ inr (a, refl, rw e refl, rw e refl)
    ]

abbrev unaudited : Tables → Tables
unaudited db = record db { audit_events = [] }

audit-inner :
    (r : PolicySyncRequest) (c : AgentCommand)
    → Rel (Same unaudited) (record_command_queued_audit r c)
unfolding record_command_queued_audit create_audit_event
audit-inner r c =
    Rel-attempt (Same-Preorder unaudited) _ (Rel-run (Same-Preorder unaudited) _ (λ db. refl))

audit-keeps :
    (r : PolicySyncRequest) (c : AgentCommand) (w : World PolicyTables)
    → without_audit (on_storage (record_command_queued_audit r c) w).1.db ≡ without_audit w.db
audit-keeps r c w =
    ap (λ s. record w.db { storage = s })
      ((audit-inner r c).at (record { db = w.db.storage; faults = w.faults }))

audit-ok :
    (r : PolicySyncRequest) (c : AgentCommand) (w : World PolicyTables)
    → (on_storage (record_command_queued_audit r c) w).0 ≡ ok tt
unfolding record_command_queued_audit
audit-ok r c w =
    attempt-ok (create_audit_event (queued_event r c))
      (record { db = w.db.storage; faults = w.faults })

-- a step that returned, and a value after it
then_value :
    {B : Type 0} (m : Exec PolicyTables (Unit {0})) (b : B) (v : World PolicyTables)
    → (m v).0 ≡ ok tt
    → (((m >> pure b) v).0 ≡ ok b) × (((m >> pure b) v).1 ≡ (m v).1)
then_value {B} m b v h = go (m v) h
  where
    go :
        (out : Result (Unit {0}) × World PolicyTables)
        → out.0 ≡ ok tt
        → ((and_then out.0 (λ x. pure b) out.1).0 ≡ ok b)
          × ((and_then out.0 (λ x. pure b) out.1).1 ≡ out.1)
    go (ok x, u) e = (refl, refl)
    go (err x, u) e = cc e

-- A change of rules together with its sync is all or nothing, whatever statements fail. Either the call returns an
-- error and every table is as it was, or it returns the result of the sync, and the tables are those after the
-- change and the sync, but for the audit trail.
pub mutate_policy_and_queue_sync-atomic :
    (env : Env) (mutate : Exec PolicyTables PolicySyncRequest) (w : World PolicyTables)
    → ((e : Error) × ((mutate_policy_and_queue_sync env mutate w).0 ≡ err e)
        × ((mutate_policy_and_queue_sync env mutate w).1.db ≡ w.db))
      ⊎ ((req : PolicySyncRequest) × (result : PolicySyncResult) × ((change_and_queue env mutate
              (begun w)).0
            ≡ ok (req, result))
          × ((mutate_policy_and_queue_sync env mutate w).0 ≡ ok result)
          × (without_audit (mutate_policy_and_queue_sync env mutate w).1.db
              ≡ without_audit (change_and_queue env mutate (begun w)).1.db))
unfolding mutate_policy_and_queue_sync mutate_in_transaction
mutate_policy_and_queue_sync-atomic env mutate w =
    elim (committed (change_and_queue env mutate) w) [
      | inl h ↦ failed (mutate_in_transaction env mutate w) h
      | inr h ↦ done (mutate_in_transaction env mutate w) h
    ]
  where
    audited : PolicySyncRequest × PolicySyncResult → Exec PolicyTables PolicySyncResult
    audited out = on_storage (record_command_queued_audit out.0 out.1.command) >> pure out.1

    whole :
        Result (PolicySyncRequest × PolicySyncResult) × World PolicyTables
        → Result PolicySyncResult × World PolicyTables
    whole out = and_then out.0 audited out.1

    failed :
        (out : Result (PolicySyncRequest × PolicySyncResult) × World PolicyTables)
        → ((e : Error) × (out.0 ≡ err e) × (out.1.db ≡ w.db))
        → ((e : Error) × ((whole out).0 ≡ err e) × ((whole out).1.db ≡ w.db))
          ⊎ ((req : PolicySyncRequest) × (result : PolicySyncResult) × ((change_and_queue env mutate
                  (begun w)).0
                ≡ ok (req, result))
              × ((whole out).0 ≡ ok result)
              × (without_audit (whole out).1.db
                  ≡ without_audit (change_and_queue env mutate (begun w)).1.db))
    failed (err x, v) (e, a, b) = inl (x, refl, b)
    failed (ok x, v) (e, a, b) = cc a

    done :
        (out : Result (PolicySyncRequest × PolicySyncResult) × World PolicyTables)
        → ((x : PolicySyncRequest × PolicySyncResult) × ((change_and_queue env mutate (begun w)).0
              ≡ ok x)
            × (out.0 ≡ ok x)
            × (out.1.db ≡ (change_and_queue env mutate (begun w)).1.db))
        → ((e : Error) × ((whole out).0 ≡ err e) × ((whole out).1.db ≡ w.db))
          ⊎ ((req : PolicySyncRequest) × (result : PolicySyncResult) × ((change_and_queue env mutate
                  (begun w)).0
                ≡ ok (req, result))
              × ((whole out).0 ≡ ok result)
              × (without_audit (whole out).1.db
                  ≡ without_audit (change_and_queue env mutate (begun w)).1.db))
    done (err y, v) (x, a, b, c) = cc b
    done (ok y, v) (x, a, b, c) =
        let audit = on_storage (record_command_queued_audit y.0 y.1.command) in
        let (value, state) = then_value audit y.1 v (audit-ok y.0 y.1.command v) in
        inr (
          y.0,
          y.1,
          a ∙ sym b,
          value,
          ap (λ (u : World PolicyTables). without_audit u.db) state
              ∙ audit-keeps y.0 y.1.command v
              ∙ ap without_audit c,
        )
