-- ===== src/Policy/Desired.antt =====
-- pkg/controllerstorage/network_policy.go: a write of rules asks its node for a new state, and a new rule is read back.
use aria.Prelude.{
  ℕ, String, Bool, true, Option, none, some, List, [], ◌∷◌, ◌++◌, ◌==◌, ==_iff, ◌≡◌, refl, ap, sym,
  subst, Bool-cases, inl, inr, find_where, update_where, delete_where, count_where, trim,
}
use aria.Sql.{Result, ok, World, Exec, pure, statement, run, ◌>>=◌, ◌>>◌, unless, no_rows}
use aria.Sql.Inversion.{run-ok, bind-ok}
use aria.Storage.{Uuid, NodeControlState, Tables, Env}
use aria.Storage.ControlState.{upsert_state, of_node_id, blank_state}
use aria.Policy.Store.{
  PolicyTables, wanted, bump_node_desired_version_with, bump_if, is_acl, insert_acl,
  update_acl as update_acl_rows, acl_row, acl_changed, updated_net, with_nets, inserted_net,
  create_tenant_node_acl_rule, update_tenant_node_acl_rule, delete_tenant_node_acl_rule_by_id,
  normalize_acl_runtime_fields,
}
use aria.Policy.QosStore.{
  is_qos, insert_qos, update_qos as update_qos_rows, qos_row, qos_changed, fits, is_blacklist,
  is_port_entry, insert_blacklist, blacklist_row, stored_cidr, normalize_qos_runtime_fields,
  create_tenant_node_qos_rule, update_tenant_node_qos_rule, delete_tenant_node_qos_rule,
  create_tenant_node_blacklist_rule, delete_tenant_node_blacklist_rule_by_id,
  delete_tenant_node_port_blacklist_rule,
}
use aria.Policy.Mutation.{
  PolicyWrite, create_acl, update_acl, delete_acl, create_qos, update_qos, delete_qos,
  create_blacklist, delete_blacklist, delete_port, policy_write,
}

-- what holds of the tables whenever the action returns
record Ensures {A : Type 0} (P : PolicyTables → Type 0) (m : Exec PolicyTables A) : Type 0 where
  at : (w : World PolicyTables) (a : A) → (m w).0 ≡ ok a → P (m w).1.db

module _ {A B : Type 0} (P : PolicyTables → Type 0) where
  Ensures-bind :
      (m : Exec PolicyTables A) (k : A → Exec PolicyTables B)
      → ((a : A) → Ensures P (k a))
      → Ensures P (m >>= k)
  Ensures-bind m k h = record {
    at = λ w b e.
        let (a, first, rest, same) = bind-ok m k w b e in
        subst P (sym same) ((h a).at (m w).1 b rest);
  }

  Ensures-value : (m : Exec PolicyTables A) (b : B) → Ensures P m → Ensures P (m >> pure b)
  Ensures-value m b h = record {
    at = λ w c e.
        let (a, first, rest, same) = bind-ok m (λ x. pure b) w c e in
        subst P (sym same) (h.at w a first);
  }

pub find_where-appended :
    {A : Type 0} (p : A → Bool) (xs : List A) (r : A)
    → find_where p xs ≡ none
    → p r ≡ true
    → find_where p (xs ++ r ∷ []) ≡ some r
find_where-appended p [] r h e = rw e refl
find_where-appended p (x ∷ xs) r h e = elim (Bool-cases (p x)) [
  | inl g ↦ cc (rw g at h)
  | inr g ↦ rw g (find_where-appended p xs r (rw g at h) e)
]

find_where-changed :
    {A : Type 0} (p : A → Bool) (f : A → A)
    → ((x : A) → p x ≡ true → p (f x) ≡ true)
    → (xs : List A) (old : A) → find_where p xs ≡ some old
    → find_where p (update_where p f xs) ≡ some (f old)
find_where-changed p f keep [] old h = cc h
find_where-changed p f keep (x ∷ xs) old h = elim (Bool-cases (p x)) [
  | inl g ↦ rw (g, keep x g) (ap (λ y. some (f y)) (some_value (rw g at h)))
  | inr g ↦ rw (g, g) (find_where-changed p f keep xs old (rw g at h))
]
  where
    some_value : {B : Type 0} → {a b : B} → Path (Option B) (some a) (some b) → a ≡ b
    some_value h = cc h

module _ (t n : Uuid) (env : Env) where
  -- the node has a control state that asks for the new version
  abbrev pub IsAsked : PolicyTables → Type 0
  IsAsked db =
      (s : NodeControlState) × (find_where (of_node_id n) db.storage.states ≡ some s)
      × (s.desired_state_version ≡ some env.version)
      × (s.desired_state_updated_at ≡ some env.now)

  bump-IsAsked : Ensures IsAsked (bump_node_desired_version_with env t n)
  unfolding bump_node_desired_version_with
  bump-IsAsked = record {
    at = λ w a h.
        let inner : World Tables = record { db = w.db.storage; faults = w.faults } in
        subst
          (λ (out : Result (Unit {0}) × World Tables).
            (s : NodeControlState) × (find_where (of_node_id n) out.1.db.states ≡ some s)
            × (s.desired_state_version ≡ some env.version)
            × (s.desired_state_updated_at ≡ some env.now))
          (sym (run-ok upsert inner a h))
          (settled w.db.storage (find_where (of_node_id n) w.db.storage.states) refl);
  }
    where
      row : NodeControlState
      row = wanted env (blank_state env t n)

      upsert : Tables → Unit {0} × Tables
      upsert db = let out = upsert_state n row (wanted env) db in (tt, out.1)

      settled :
          (db : Tables) (found : Option NodeControlState)
          → find_where (of_node_id n) db.states ≡ found
          → (s : NodeControlState) × (find_where
                (of_node_id n)
                (elim found as (λ o. NodeControlState × Tables) [
                  | none ↦ (row, record db { states = db.states ++ row ∷ [] })
                  | some old ↦ (
                    wanted env old,
                    record db { states = update_where (of_node_id n) (wanted env) db.states },
                  )
                ]).1.states
              ≡ some s)
            × (s.desired_state_version ≡ some env.version)
            × (s.desired_state_updated_at ≡ some env.now)
      settled db none e = (
        row,
        find_where-appended (of_node_id n) db.states row e ((==_iff n n).1 refl),
        refl,
        refl,
      )
      settled db (some old) e = (
        wanted env old,
        find_where-changed (of_node_id n) (wanted env) (λ x h. h) db.states old e,
        refl,
        refl,
      )

  asked : {B : Type 0} (b : B) → Ensures IsAsked (bump_if true env t n >> pure b)
  asked b = Ensures-value IsAsked (bump_if true env t n) b bump-IsAsked

  checked_bump : (k : ℕ) → Ensures IsAsked (unless (k == 0) no_rows >> bump_if true env t n)
  checked_bump k =
      Ensures-bind IsAsked (unless (k == 0) no_rows) (λ x. bump_if true env t n) (λ x. bump-IsAsked)

  -- the three forms of a write: an insert, an update, a delete
  insert-IsAsked :
      {A : Type 0} (f : PolicyTables → Result A × PolicyTables)
      → Ensures IsAsked (statement f >>= λ a. bump_if true env t n >> pure a)
  insert-IsAsked f = Ensures-bind IsAsked (statement f) (λ a. bump_if true env t n >> pure a) asked

  update-IsAsked :
      {B : Type 0} (f : PolicyTables → Result ℕ × PolicyTables) (b : B)
      → Ensures IsAsked
          (statement f >>= λ k. unless (k == 0) no_rows >> (bump_if true env t n >> pure b))
  update-IsAsked f b =
      Ensures-bind IsAsked (statement f)
        (λ k. unless (k == 0) no_rows >> (bump_if true env t n >> pure b))
        (λ k.
          Ensures-bind IsAsked (unless (k == 0) no_rows) (λ x. bump_if true env t n >> pure b)
            (λ x. asked b))

  delete-IsAsked :
      (f : PolicyTables → ℕ × PolicyTables)
      → Ensures IsAsked (run f >>= λ k. unless (k == 0) no_rows >> bump_if true env t n)
  delete-IsAsked f =
      Ensures-bind IsAsked (run f) (λ k. unless (k == 0) no_rows >> bump_if true env t n)
        checked_bump

  module _ (cidr : String → Option String) where
    write-IsAsked : (write : PolicyWrite) → Ensures IsAsked (policy_write cidr env true t n write)
    unfolding policy_write create_tenant_node_acl_rule update_tenant_node_acl_rule
        delete_tenant_node_acl_rule_by_id create_tenant_node_qos_rule update_tenant_node_qos_rule
        delete_tenant_node_qos_rule create_tenant_node_blacklist_rule
        delete_tenant_node_blacklist_rule_by_id delete_tenant_node_port_blacklist_rule
    write-IsAsked (create_acl id r) =
        let mine = record r { tenant_id = t; node_id = n } in
        Ensures-value IsAsked (create_tenant_node_acl_rule cidr env true id mine) tt (
          insert-IsAsked (
            insert_acl (
              with_nets (inserted_net cidr r.src_cidr) (inserted_net cidr r.dst_cidr)
                (acl_row env id mine))))
    write-IsAsked (update_acl id r) =
        Ensures-value IsAsked (update_tenant_node_acl_rule cidr env true t n id r) tt (
          update-IsAsked
            (update_acl_rows (is_acl t n id) (
              with_nets (updated_net cidr r.src_cidr) (updated_net cidr r.dst_cidr)
                (acl_changed cidr env r)))
            (record (normalize_acl_runtime_fields r) {
              id = id;
              tenant_id = t;
              node_id = n;
              name = trim r.name;
              updated_at = env.clock;
            }))
    write-IsAsked (delete_acl id) = delete-IsAsked (λ db. (
      count_where (is_acl t n id) db.acl_rules,
      record db { acl_rules = delete_where (is_acl t n id) db.acl_rules },
    ))
    write-IsAsked (create_qos id r) =
        let mine = record r { tenant_id = t; node_id = n } in
        Ensures-value IsAsked (create_tenant_node_qos_rule cidr env true id mine) tt (
          insert-IsAsked (
            insert_qos (
              with_nets (stored_cidr cidr (trim r.src_cidr)) (stored_cidr cidr (trim r.dst_cidr))
                (qos_row env id mine))))
    write-IsAsked (update_qos id r) =
        Ensures-value IsAsked (update_tenant_node_qos_rule cidr env true t n id r) tt (
          update-IsAsked
            (update_qos_rows (fits (normalize_qos_runtime_fields r)) (is_qos t n id) (
              with_nets (stored_cidr cidr r.src_cidr) (stored_cidr cidr r.dst_cidr)
                (qos_changed env r)))
            (record (normalize_qos_runtime_fields r) {
              id = id;
              tenant_id = t;
              node_id = n;
              updated_at = env.clock;
            }))
    write-IsAsked (delete_qos id) = delete-IsAsked (λ db. (
      count_where (is_qos t n id) db.qos_rules,
      record db { qos_rules = delete_where (is_qos t n id) db.qos_rules },
    ))
    write-IsAsked (create_blacklist id r) =
        let mine = record r { tenant_id = t; node_id = n } in
        Ensures-value IsAsked (create_tenant_node_blacklist_rule cidr env true id mine) tt (
          insert-IsAsked
            (insert_blacklist (blacklist_row env id mine (stored_cidr cidr (trim r.cidr)))))
    write-IsAsked (delete_blacklist scope id) = delete-IsAsked (λ db. (
      count_where (is_blacklist t n scope id) db.blacklist_rules,
      record db { blacklist_rules = delete_where (is_blacklist t n scope id) db.blacklist_rules },
    ))
    write-IsAsked (delete_port port) = delete-IsAsked (λ db. (
      count_where (is_port_entry t n port) db.blacklist_rules,
      record db { blacklist_rules = delete_where (is_port_entry t n port) db.blacklist_rules },
    ))

    -- When a write of rules that sets the desired version itself returns, the control state of its node asks for
    -- the version that was generated for it, from now on.
    pub policy_write-IsAsked :
        (write : PolicyWrite) (w : World PolicyTables)
        → (policy_write cidr env true t n write w).0 ≡ ok tt
        → IsAsked (policy_write cidr env true t n write w).1.db
    policy_write-IsAsked write w h = (write-IsAsked write).at w tt h
