-- ===== src/Policy/OtherNodes.antt =====
-- pkg/controllerstorage/network_policy.go: a write for one node touches nothing of another node.
use aria.Prelude.{
  ℕ, Bool, true, false, Option, none, some, List, [], ◌∷◌, ◌++◌, ◌&&◌, not, ◌==◌, ==_iff, ◌≡◌, refl,
  ap, inl, inr, Bool-cases, rows_where, rows_where-update_where, update_where, delete_where,
  count_where, find_where, arith,
}
use aria.Sql.{no_rows, Result, Exec, pure, statement, run, unless}
use aria.Sql.Rules.{
  Preorder, Rel, Same, Same-Preorder, Rel-pure, Rel-statement, Rel-run, Rel-bind, Rel-then, Rel-if,
  Rel-unless,
}
use aria.Storage.{Uuid, NodeControlState, Tables, Env}
use aria.Storage.ControlState.{upsert_state, of_node_id, blank_state}
use aria.Policy.{QosRule, BlacklistRule}
use aria.Policy.Columns.{AclColumns}
use aria.Policy.Store.{
  PolicyTables, on_storage, wanted, bump_node_desired_version_with, bump_if, is_acl, insert_acl,
  update_acl, delete_tenant_node_acl_rule_by_id,
}
use aria.Policy.QosStore.{is_qos, insert_qos, update_qos, fits}

module _ {A : Type 0} (q : A → Bool) where
  pub rows_where-append :
      (xs : List A) (r : A) → q r ≡ false → rows_where q (xs ++ r ∷ []) ≡ rows_where q xs
  rows_where-append [] r h = rw h refl
  rows_where-append (x ∷ xs) r h = rw (rows_where-append xs r h) refl

  pub rows_where-delete_where :
      (p : A → Bool)
      → ((r : A) → p r ≡ true → q r ≡ false)
      → (xs : List A) → rows_where q (delete_where p xs) ≡ rows_where q xs
  rows_where-delete_where p out [] = refl
  rows_where-delete_where p out (x ∷ xs) = elim (Bool-cases (p x)) [
    | inl e ↦ rw (e, out x e) (rows_where-delete_where p out xs)
    | inr e ↦ rw (e, rows_where-delete_where p out xs) refl
  ]

module _ (t n : Uuid) where
  -- a row of another node
  abbrev pub foreign : Uuid → Uuid → Bool
  foreign tenant node = not (tenant == t && node == n)

  -- all that is not of the node: rules, control states, and the other tables
  pub record Elsewhere : Type 0 where
    pub acl_rules : List AclColumns
    pub qos_rules : List QosRule
    pub blacklist_rules : List BlacklistRule
    pub states : List NodeControlState
    pub others : Tables

  abbrev pub elsewhere : PolicyTables → Elsewhere
  elsewhere db = record {
    acl_rules = rows_where (λ (r : AclColumns). foreign r.tenant_id r.node_id) db.acl_rules;
    qos_rules = rows_where (λ (r : QosRule). foreign r.tenant_id r.node_id) db.qos_rules;
    blacklist_rules =
        rows_where (λ (r : BlacklistRule). foreign r.tenant_id r.node_id) db.blacklist_rules;
    states = rows_where (λ (s : NodeControlState). not (s.node_id == n)) db.storage.states;
    others = record db.storage { states = [] };
  }

  abbrev pub Apart : PolicyTables → PolicyTables → Type 0
  Apart = Same elsewhere

  pub order : Preorder Apart
  order = Same-Preorder elsewhere

  eq_self : (k : ℕ) → (k == k) ≡ true
  eq_self k = (==_iff k k).1 refl

  abbrev storage_view : Tables → List NodeControlState × Tables
  storage_view db = (
    rows_where (λ (s : NodeControlState). not (s.node_id == n)) db.states,
    record db { states = [] },
  )

  pub on_storage-Apart :
      {A : Type 0} (m : Exec Tables A) → Rel (Same storage_view) m → Rel Apart (on_storage m)
  on_storage-Apart m h = record {
    at = λ w.
        ap (λ v. record (elsewhere w.db) { states = v.0; others = v.1 })
          (h.at (record { db = w.db.storage; faults = w.faults }));
  }

  bump-Apart : (env : Env) → Rel Apart (bump_node_desired_version_with env t n)
  unfolding bump_node_desired_version_with
  bump-Apart env =
      on_storage-Apart (run upsert) (Rel-run (Same-Preorder storage_view) upsert upsert-same)
    where
      upsert : Tables → Unit {0} × Tables
      upsert db =
          let out = upsert_state n (wanted env (blank_state env t n)) (wanted env) db in (tt, out.1)

      upsert-same : (db : Tables) → storage_view (upsert db).1 ≡ storage_view db
      upsert-same db = settled (find_where (of_node_id n) db.states)
        where
          row : NodeControlState
          row = wanted env (blank_state env t n)

          settled :
              (found : Option NodeControlState)
              → storage_view
                  (elim found as (λ o. NodeControlState × Tables) [
                    | none ↦ (row, record db { states = db.states ++ row ∷ [] })
                    | some old ↦ (
                      wanted env old,
                      record db { states = update_where (of_node_id n) (wanted env) db.states },
                    )
                  ]).1
                ≡ storage_view db
          settled none =
              ap (λ ss. (ss, record db { states = [] }))
                (rows_where-append (λ (s : NodeControlState). not (s.node_id == n)) db.states row
                  (rw (eq_self n) refl))
          settled (some old) =
              ap (λ ss. (ss, record db { states = [] }))
                (rows_where-update_where (λ (s : NodeControlState). not (s.node_id == n))
                  (of_node_id n) (wanted env) (λ s h. (rw h refl, rw h refl)) db.states)

  pub bump_if-Apart : (env : Env) (b : Bool) → Rel Apart (bump_if b env t n)
  bump_if-Apart env b =
      Rel-if order b (bump_node_desired_version_with env t n) (pure tt) (bump-Apart env)
        (Rel-pure order tt)

  acl-Apart :
      (g : List AclColumns → List AclColumns)
      → ((xs : List AclColumns)
          → rows_where (λ (r : AclColumns). foreign r.tenant_id r.node_id) (g xs)
            ≡ rows_where (λ (r : AclColumns). foreign r.tenant_id r.node_id) xs)
      → (db : PolicyTables) → Apart db (record db { acl_rules = g db.acl_rules })
  acl-Apart g h db = ap (λ xs. record (elsewhere db) { acl_rules = xs }) (h db.acl_rules)

  pub qos-Apart :
      (g : List QosRule → List QosRule)
      → ((xs : List QosRule)
          → rows_where (λ (r : QosRule). foreign r.tenant_id r.node_id) (g xs)
            ≡ rows_where (λ (r : QosRule). foreign r.tenant_id r.node_id) xs)
      → (db : PolicyTables) → Apart db (record db { qos_rules = g db.qos_rules })
  qos-Apart g h db = ap (λ xs. record (elsewhere db) { qos_rules = xs }) (h db.qos_rules)

  pub blacklist-Apart :
      (g : List BlacklistRule → List BlacklistRule)
      → ((xs : List BlacklistRule)
          → rows_where (λ (r : BlacklistRule). foreign r.tenant_id r.node_id) (g xs)
            ≡ rows_where (λ (r : BlacklistRule). foreign r.tenant_id r.node_id) xs)
      → (db : PolicyTables) → Apart db (record db { blacklist_rules = g db.blacklist_rules })
  blacklist-Apart g h db =
      ap (λ xs. record (elsewhere db) { blacklist_rules = xs }) (h db.blacklist_rules)

  -- a row of the node is not foreign
  pub own : foreign t n ≡ false
  own = rw (eq_self t, eq_self n) refl

  is_acl-own :
      (id : Uuid) (r : AclColumns) → is_acl t n id r ≡ true → foreign r.tenant_id r.node_id ≡ false
  is_acl-own id r h = ground (arith, h)

  pub is_qos-own :
      (id : Uuid) (r : QosRule) → is_qos t n id r ≡ true → foreign r.tenant_id r.node_id ≡ false
  is_qos-own id r h = ground (arith, h)

  pub delete_acl-Apart :
      (env : Env) (b : Bool) (id : Uuid)
      → Rel Apart (delete_tenant_node_acl_rule_by_id env b t n id)
  unfolding delete_tenant_node_acl_rule_by_id
  delete_acl-Apart env b id =
      Rel-bind order (run taken) _
        (Rel-run order taken (λ db.
          acl-Apart (delete_where (is_acl t n id))
            (rows_where-delete_where (λ (r : AclColumns). foreign r.tenant_id r.node_id)
              (is_acl t n id) (is_acl-own id))
            db))
        (λ k.
          Rel-then order (unless (k == 0) no_rows) (bump_if b env t n)
            (Rel-unless order (k == 0) no_rows) (bump_if-Apart env b))
    where
      taken : PolicyTables → ℕ × PolicyTables
      taken db = (
        count_where (is_acl t n id) db.acl_rules,
        record db { acl_rules = delete_where (is_acl t n id) db.acl_rules },
      )

  -- a statement that writes rows, or fails
  pub statement-Apart :
      {A : Type 0} (f : PolicyTables → Result A × PolicyTables)
      → ((db : PolicyTables) → Apart db (f db).1)
      → Rel Apart (statement f)
  statement-Apart f h = Rel-statement order f h

  pub insert_acl-Apart :
      (o : Option AclColumns)
      → ((r : AclColumns) → o ≡ some r → foreign r.tenant_id r.node_id ≡ false)
      → (db : PolicyTables) → Apart db (insert_acl o db).1
  insert_acl-Apart none h db = refl
  insert_acl-Apart (some r) h db =
      acl-Apart (λ xs. xs ++ r ∷ [])
        (λ xs.
          rows_where-append (λ (x : AclColumns). foreign x.tenant_id x.node_id) xs r (h r refl))
        db

  pub insert_qos-Apart :
      (o : Option QosRule)
      → ((r : QosRule) → o ≡ some r → foreign r.tenant_id r.node_id ≡ false)
      → (db : PolicyTables) → Apart db (insert_qos o db).1
  insert_qos-Apart none h db = refl
  insert_qos-Apart (some r) h db = elim (Bool-cases (fits r)) [
    | inl e ↦ rw e (
        qos-Apart (λ xs. xs ++ r ∷ [])
          (λ xs. rows_where-append (λ (x : QosRule). foreign x.tenant_id x.node_id) xs r (h r refl))
          db)
    | inr e ↦ rw e refl
  ]

  pub update_acl-Apart :
      (id : Uuid) (o : Option (AclColumns → AclColumns))
      → ((f : AclColumns → AclColumns) (r : AclColumns)
          → o ≡ some f
          → ((f r).tenant_id ≡ r.tenant_id) × ((f r).node_id ≡ r.node_id))
      → (db : PolicyTables) → Apart db (update_acl (is_acl t n id) o db).1
  update_acl-Apart id none h db = refl
  update_acl-Apart id (some f) h db =
      acl-Apart (update_where (is_acl t n id) f)
        (rows_where-update_where (λ (x : AclColumns). foreign x.tenant_id x.node_id) (is_acl t n id)
          f (λ r e. (is_acl-own id r e, rw ((h f r refl).0, (h f r refl).1) (is_acl-own id r e))))
        db

  pub update_qos-Apart :
      (fit : Bool) (id : Uuid) (o : Option (QosRule → QosRule))
      → ((f : QosRule → QosRule) (r : QosRule)
          → o ≡ some f
          → ((f r).tenant_id ≡ r.tenant_id) × ((f r).node_id ≡ r.node_id))
      → (db : PolicyTables) → Apart db (update_qos fit (is_qos t n id) o db).1
  update_qos-Apart fit id none h db = refl
  update_qos-Apart false id (some f) h db = refl
  update_qos-Apart true id (some f) h db =
      qos-Apart (update_where (is_qos t n id) f)
        (rows_where-update_where (λ (x : QosRule). foreign x.tenant_id x.node_id) (is_qos t n id) f
          (λ r e. (is_qos-own id r e, rw ((h f r refl).0, (h f r refl).1) (is_qos-own id r e))))
        db
