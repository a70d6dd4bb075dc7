-- ===== src/Policy/Writes.antt =====
-- pkg/controllerstorage/network_policy.go: every write of rules for a node, whatever fails, leaves the others alone.
use aria.Prelude.{
  ℕ, String, Bool, true, false, Option, none, some, [], ◌∷◌, ◌++◌, ◌==◌, ◌≡◌, refl, subst,
  delete_where, count_where, trim, arith,
}
use aria.Sql.{no_rows, World, Exec, pure, statement, run, ◌>>=◌, ◌>>◌, unless}
use aria.Sql.Rules.{Rel, Rel-pure, Rel-run, Rel-bind, Rel-then, Rel-unless}
use aria.Storage.{Uuid, Env}
use aria.Policy.{AclRule, QosRule, BlacklistRule}
use aria.Policy.Columns.{AclColumns}
use aria.Policy.Store.{
  PolicyTables, bump_if, is_acl, insert_acl, update_acl, acl_row, acl_changed, with_nets,
  inserted_net, updated_net, create_tenant_node_acl_rule, update_tenant_node_acl_rule,
  normalize_acl_runtime_fields,
}
use aria.Policy.QosStore.{
  is_qos, insert_qos, update_qos, qos_row, qos_changed, fits, is_blacklist, is_port_entry,
  insert_blacklist, blacklist_row, stored_cidr, create_tenant_node_qos_rule,
  update_tenant_node_qos_rule, delete_tenant_node_qos_rule, create_tenant_node_blacklist_rule,
  delete_tenant_node_blacklist_rule_by_id, delete_tenant_node_port_blacklist_rule,
  normalize_qos_runtime_fields,
}
use aria.Policy.Mutation.{
  PolicyWrite, create_acl, update_acl as change_acl, delete_acl, create_qos,
  update_qos as change_qos, delete_qos, create_blacklist, delete_blacklist, delete_port,
  policy_write,
}
use aria.Policy.OtherNodes.{
  foreign, elsewhere, Apart, order, own, is_qos-own, rows_where-append, rows_where-delete_where,
  bump_if-Apart, qos-Apart, blacklist-Apart, statement-Apart, insert_acl-Apart, insert_qos-Apart,
  update_acl-Apart, update_qos-Apart, delete_acl-Apart,
}

pub with_nets-some :
    {A : Type 0} (a b : Option String) (f : String → String → A) (x : A)
    → with_nets a b f ≡ some x
    → (s : String) × (d : String) × (f s d ≡ x)
with_nets-some none b f x h = cc h
with_nets-some (some s) none f x h = cc h
with_nets-some (some s) (some d) f x h = (s, d, cc h)

module _ (t n : Uuid) (env : Env) where
  delete_qos-Apart :
      (b : Bool) (id : Uuid) → Rel (Apart t n) (delete_tenant_node_qos_rule env b t n id)
  unfolding delete_tenant_node_qos_rule
  delete_qos-Apart b id =
      Rel-bind (order t n) (run taken) _
        (Rel-run (order t n) taken (λ db.
          qos-Apart t n (delete_where (is_qos t n id))
            (rows_where-delete_where (λ (r : QosRule). foreign t n r.tenant_id r.node_id)
              (is_qos t n id) (is_qos-own t n id))
            db))
        (λ k.
          Rel-then (order t n) (unless (k == 0) no_rows) (bump_if b env t n)
            (Rel-unless (order t n) (k == 0) no_rows) (bump_if-Apart t n env b))
    where
      taken : PolicyTables → ℕ × PolicyTables
      taken db = (
        count_where (is_qos t n id) db.qos_rules,
        record db { qos_rules = delete_where (is_qos t n id) db.qos_rules },
      )

  -- DELETE FROM blacklist_rules and the rest of the call
  delete_entries-Apart :
      (p : BlacklistRule → Bool) (b : Bool)
      → ((r : BlacklistRule) → p r ≡ true → foreign t n r.tenant_id r.node_id ≡ false)
      → Rel (Apart t n) (
          run (λ (db : PolicyTables). (
            count_where p db.blacklist_rules,
            record db { blacklist_rules = delete_where p db.blacklist_rules },
          ))
          >>= λ k. unless (k == 0) no_rows >> bump_if b env t n)
  delete_entries-Apart p b mine =
      Rel-bind (order t n) (run taken) _
        (Rel-run (order t n) taken (λ db.
          blacklist-Apart t n (delete_where p)
            (rows_where-delete_where (λ (r : BlacklistRule). foreign t n r.tenant_id r.node_id) p
              mine)
            db))
        (λ k.
          Rel-then (order t n) (unless (k == 0) no_rows) (bump_if b env t n)
            (Rel-unless (order t n) (k == 0) no_rows) (bump_if-Apart t n env b))
    where
      taken : PolicyTables → ℕ × PolicyTables
      taken db = (
        count_where p db.blacklist_rules,
        record db { blacklist_rules = delete_where p db.blacklist_rules },
      )

  -- a statement, the bump, and a value
  then_bump :
      {A B : Type 0} (m : Exec PolicyTables A) (b : Bool) (value : A → B)
      → Rel (Apart t n) m
      → Rel (Apart t n) (m >>= λ a. bump_if b env t n >> pure (value a))
  then_bump m b value h = Rel-bind (order t n) m _ h (λ a.
      Rel-then (order t n) (bump_if b env t n) (pure (value a)) (bump_if-Apart t n env b)
        (Rel-pure (order t n) (value a)))

  -- the same behind the test that rows were affected
  then_guarded_bump :
      {B : Type 0} (m : Exec PolicyTables ℕ) (b : Bool) (value : B)
      → Rel (Apart t n) m
      → Rel (Apart t n) (m >>= λ k. unless (k == 0) no_rows >> (bump_if b env t n >> pure value))
  then_guarded_bump m b value h = Rel-bind (order t n) m _ h (λ k.
      Rel-then (order t n) (unless (k == 0) no_rows) (bump_if b env t n >> pure value)
        (Rel-unless (order t n) (k == 0) no_rows)
        (Rel-then (order t n) (bump_if b env t n) (pure value) (bump_if-Apart t n env b)
          (Rel-pure (order t n) value)))

  -- the value is dropped
  dropped :
      {A : Type 0} (m : Exec PolicyTables A) → Rel (Apart t n) m → Rel (Apart t n) (m >> pure tt)
  dropped m h = Rel-then (order t n) m (pure tt) h (Rel-pure (order t n) tt)

  module _ (cidr : String → Option String) where
    create_acl-Apart :
        (b : Bool) (id : Uuid) (r : AclRule)
        → Rel
            (Apart t n)
            (create_tenant_node_acl_rule cidr env b id (record r { tenant_id = t; node_id = n }))
    unfolding create_tenant_node_acl_rule normalize_acl_runtime_fields
    create_acl-Apart b id r =
        let mine = record r { tenant_id = t; node_id = n } in
        let row =
          with_nets (inserted_net cidr r.src_cidr) (inserted_net cidr r.dst_cidr)
            (acl_row env id mine) in
        then_bump (statement (insert_acl row)) b (λ a. a)
          (statement-Apart t n (insert_acl row) (
            insert_acl-Apart t n row (λ x e.
              let (s, d, same) =
                with_nets-some (inserted_net cidr r.src_cidr) (inserted_net cidr r.dst_cidr)
                  (acl_row env id mine) x e in
              subst (λ (y : AclColumns). foreign t n y.tenant_id y.node_id ≡ false) same
                (own t n))))

    update_acl-rule-Apart :
        (b : Bool) (id : Uuid) (r : AclRule)
        → Rel (Apart t n) (update_tenant_node_acl_rule cidr env b t n id r)
    unfolding update_tenant_node_acl_rule normalize_acl_runtime_fields
    update_acl-rule-Apart b id r =
        let change =
          with_nets (updated_net cidr r.src_cidr) (updated_net cidr r.dst_cidr)
            (acl_changed cidr env r) in
        then_guarded_bump (statement (update_acl (is_acl t n id) change)) b _ (
          statement-Apart t n (update_acl (is_acl t n id) change) (
            update_acl-Apart t n id change (λ f x e.
              let (s, d, same) =
                with_nets-some (updated_net cidr r.src_cidr) (updated_net cidr r.dst_cidr)
                  (acl_changed cidr env r) f e in
              subst
                (λ (g : AclColumns → AclColumns).
                  ((g x).tenant_id ≡ x.tenant_id) × ((g x).node_id ≡ x.node_id))
                same (refl, refl))))

    create_qos-Apart :
        (b : Bool) (id : Uuid) (r : QosRule)
        → Rel
            (Apart t n)
            (create_tenant_node_qos_rule cidr env b id (record r { tenant_id = t; node_id = n }))
    unfolding create_tenant_node_qos_rule normalize_qos_runtime_fields
    create_qos-Apart b id r =
        let mine = record r { tenant_id = t; node_id = n } in
        let src = stored_cidr cidr (trim r.src_cidr) in
        let dst = stored_cidr cidr (trim r.dst_cidr) in
        let row = with_nets src dst (qos_row env id mine) in
        then_bump (statement (insert_qos row)) b (λ a. a)
          (statement-Apart t n (insert_qos row) (
            insert_qos-Apart t n row (λ x e.
              let (s, d, same) = with_nets-some src dst (qos_row env id mine) x e in
              subst (λ (y : QosRule). foreign t n y.tenant_id y.node_id ≡ false) same (own t n))))

    update_qos-rule-Apart :
        (b : Bool) (id : Uuid) (r : QosRule)
        → Rel (Apart t n) (update_tenant_node_qos_rule cidr env b t n id r)
    unfolding update_tenant_node_qos_rule normalize_qos_runtime_fields
    update_qos-rule-Apart b id r =
        let change =
          with_nets (stored_cidr cidr r.src_cidr) (stored_cidr cidr r.dst_cidr)
            (qos_changed env r) in
        let fit = fits (normalize_qos_runtime_fields r) in
        then_guarded_bump (statement (update_qos fit (is_qos t n id) change)) b _ (
          statement-Apart t n (update_qos fit (is_qos t n id) change) (
            update_qos-Apart t n fit id change (λ f x e.
              let (s, d, same) =
                with_nets-some (stored_cidr cidr r.src_cidr) (stored_cidr cidr r.dst_cidr)
                  (qos_changed env r) f e in
              subst
                (λ (g : QosRule → QosRule).
                  ((g x).tenant_id ≡ x.tenant_id) × ((g x).node_id ≡ x.node_id))
                same (refl, refl))))

    create_blacklist-Apart :
        (b : Bool) (id : Uuid) (r : BlacklistRule)
        → Rel (Apart t n) (
            create_tenant_node_blacklist_rule cidr env b id
              (record r { tenant_id = t; node_id = n }))
    unfolding create_tenant_node_blacklist_rule
    create_blacklist-Apart b id r =
        let mine = record r { tenant_id = t; node_id = n } in
        let net = stored_cidr cidr (trim r.cidr) in
        then_bump (statement (insert_blacklist (blacklist_row env id mine net))) b (λ a. a)
          (statement-Apart t n (insert_blacklist (blacklist_row env id mine net)) (inserted net))
      where
        inserted :
            (net : Option String) (db : PolicyTables)
            → Apart t n db
                (insert_blacklist
                  (blacklist_row env id (record r { tenant_id = t; node_id = n }) net)
                  db).1
        inserted none db = refl
        inserted (some net) db =
            let row = record r {
              id = id;
              tenant_id = t;
              node_id = n;
              cidr = net;
              description = trim r.description;
              created_at = env.now;
              updated_at = env.now;
            } in
            blacklist-Apart t n (λ xs. xs ++ row ∷ [])
              (λ xs.
                rows_where-append (λ (x : BlacklistRule). foreign t n x.tenant_id x.node_id) xs row
                  (own t n))
              db

    write-Apart :
        (b : Bool) (write : PolicyWrite) → Rel (Apart t n) (policy_write cidr env b t n write)
    unfolding policy_write delete_tenant_node_blacklist_rule_by_id
        delete_tenant_node_port_blacklist_rule
    write-Apart b (create_acl id r) = dropped _ (create_acl-Apart b id r)
    write-Apart b (change_acl id r) = dropped _ (update_acl-rule-Apart b id r)
    write-Apart b (delete_acl id) = delete_acl-Apart t n env b id
    write-Apart b (create_qos id r) = dropped _ (create_qos-Apart b id r)
    write-Apart b (change_qos id r) = dropped _ (update_qos-rule-Apart b id r)
    write-Apart b (delete_qos id) = delete_qos-Apart b id
    write-Apart b (create_blacklist id r) = dropped _ (create_blacklist-Apart b id r)
    write-Apart b (delete_blacklist scope id) =
        delete_entries-Apart (is_blacklist t n scope id) b (λ r h. ground (arith, h))
    write-Apart b (delete_port port) =
        delete_entries-Apart (is_port_entry t n port) true (λ r h. ground (arith, h))

    -- A write of rules for a node, whatever it writes and whatever statements fail, leaves the rules and the control
    -- state of every other node as they are, and all tables that hold neither.
    pub policy_write-apart :
        (b : Bool) (write : PolicyWrite) (w : World PolicyTables)
        → elsewhere t n (policy_write cidr env b t n write w).1.db ≡ elsewhere t n w.db
    policy_write-apart b write w = (write-Apart b write).at w
