-- ===== src/Policy/HalfDone.antt =====
-- pkg/controllerstorage/network_policy.go: a direct write is two statements with no transaction around them.
use aria.Prelude.{Bool, true, false, List, ◌∷◌, ◌==◌, ◌≡◌, refl, count_where, delete_where}
use aria.Sql.{db_failure, err}
use aria.Storage.{Uuid, Env}
use aria.Policy.Store.{
  PolicyTables, is_acl, delete_tenant_node_acl_rule_by_id, bump_node_desired_version_with,
}

-- When the second statement of a direct deletion of an ACL rule that is there fails, the call returns an error, and
-- the rule is gone all the same, while every other table, the control states too, is as it was.
pub delete_acl-half_done :
    (env : Env) (t n id : Uuid) (db : PolicyTables) (more : List Bool)
    → (count_where (is_acl t n id) db.acl_rules == 0) ≡ false
    → ((delete_tenant_node_acl_rule_by_id env true t n id
          (record { db = db; faults = false ∷ true ∷ more })).0
        ≡ err db_failure)
      × ((delete_tenant_node_acl_rule_by_id env true t n id
            (record { db = db; faults = false ∷ true ∷ more })).1.db
          ≡ record db { acl_rules = delete_where (is_acl t n id) db.acl_rules })
unfolding delete_tenant_node_acl_rule_by_id bump_node_desired_version_with
delete_acl-half_done env t n id db more h = rw h (refl, refl)
