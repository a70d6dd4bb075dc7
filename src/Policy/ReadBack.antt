-- ===== src/Policy/ReadBack.antt =====
-- pkg/controllerstorage/network_policy.go: a rule that was created is read back.
use aria.Prelude.{
  String, Bool, true, false, Option, none, some, [], ◌∷◌, ◌++◌, ==_iff, ◌≡◌, refl, ap, ◌∙◌, subst,
  Bool-cases, inl, inr, find_where, sym, ℤ, pos, arith, get_or, str_eq, if◌then◌else◌, trim,
}
use aria.Sql.{Result, ok, World, fault, pure, statement, ◌>>◌}
use aria.Sql.Inversion.{bind-ok}
use aria.Storage.{Uuid, Env}
use aria.Policy.{AclRule}
use aria.Policy.Columns.{AclColumns, returned_acl, selected_acl, same_port}
use aria.Policy.Store.{
  PolicyTables, bump_node_desired_version_with, bump_if, is_acl, insert_acl, acl_row, with_nets,
  inserted_net, create_tenant_node_acl_rule, get_tenant_node_acl_rule, one_row, read_row, own_net,
  nullable_int, lowest_port, highest_port, acl_network_for_sync, normalize_acl_runtime_fields,
}
use aria.Policy.Desired.{find_where-appended}

statement-ok :
    {A : Type 0} (f : PolicyTables → Result A × PolicyTables) (w : World PolicyTables) (a : A)
    → (statement f w).0 ≡ ok a
    → ((f w.db).0 ≡ ok a) × ((statement f w).1.db ≡ (f w.db).1)
statement-ok f w a h = elim (Bool-cases (fault w.faults)) [
  | inl e ↦ cc (rw e at h)
  | inr e ↦ rw e (rw e at h, refl)
]

bump_if-acl_rules :
    (b : Bool) (env : Env) (t n : Uuid) (w : World PolicyTables)
    → (bump_if b env t n w).1.db.acl_rules ≡ w.db.acl_rules
unfolding bump_node_desired_version_with
bump_if-acl_rules false env t n w = refl
bump_if-acl_rules true env t n w = refl

insert_acl-found :
    (o : Option AclColumns) (db : PolicyTables) (r : AclRule)
    → (insert_acl o db).0 ≡ ok r
    → (c : AclColumns) × (o ≡ some c)
      × (returned_acl c ≡ r)
      × ((insert_acl o db).1.acl_rules ≡ db.acl_rules ++ c ∷ [])
insert_acl-found none db r h = cc h
insert_acl-found (some c) db r h = (c, refl, cc h, refl)

with_nets-given :
    {A : Type 0} (a b : Option String) (f : String → String → A) (x : A)
    → with_nets a b f ≡ some x
    → (s : String) × (d : String) × (a ≡ some s) × (b ≡ some d) × (f s d ≡ x)
with_nets-given none b f x h = cc h
with_nets-given (some s) none f x h = cc h
with_nets-given (some s) (some d) f x h = (s, d, refl, refl, cc h)

-- a network is read back as the cast gave it, from its own column or from the synced one
own_net-read : (text net : String) → get_or (own_net text net) net ≡ net
own_net-read text net = elim (Bool-cases (str_eq text "")) [ inl e ↦ rw e | inr e ↦ rw e ]

-- a port is read back as it was given, from its own column or from the range
port-read :
    (n : ℤ)
    → get_or
        (nullable_int n)
        (if same_port (lowest_port n) (highest_port n) then highest_port n else pos 0)
      ≡ n
port-read n = ground arith

-- the rule that the row of a new rule with these networks stands for
abbrev pub given : Env → Uuid → AclRule → String → String → AclRule
given env id r s d = record (normalize_acl_runtime_fields r) {
  id = id;
  name = trim r.name;
  src_cidr = s;
  dst_cidr = d;
  src_group = none;
  dst_group = none;
  description = trim r.description;
  created_at = env.now;
  updated_at = env.now;
}

module _ (cidr : String → Option String) (env : Env) (b : Bool) (id : Uuid) (r : AclRule)
    (w : World PolicyTables) (created : AclRule) where
  abbrev row : Option AclColumns
  row = with_nets (inserted_net cidr r.src_cidr) (inserted_net cidr r.dst_cidr) (acl_row env id r)

  selected-given : (s d : String) → selected_acl (acl_row env id r s d) ≡ given env id r s d
  unfolding selected_acl normalize_acl_runtime_fields
  selected-given s d =
      rw (own_net-read (trim r.src_cidr) s, own_net-read (trim r.dst_cidr) d, port-read r.dst_port)
        refl

  returned-given : (s d : String) → returned_acl (acl_row env id r s d) ≡ given env id r s d
  unfolding returned_acl normalize_acl_runtime_fields
  returned-given s d =
      rw (own_net-read (trim r.src_cidr) s, own_net-read (trim r.dst_cidr) d, port-read r.dst_port)
        refl

  row-is_acl : (s d : String) → is_acl r.tenant_id r.node_id id (acl_row env id r s d) ≡ true
  row-is_acl s d =
      rw
        (
          (==_iff id id).1 refl,
          (==_iff r.tenant_id r.tenant_id).1 refl,
          (==_iff r.node_id r.node_id).1 refl,
        )
        refl

  -- what the call that returned did to the table
  create_acl-row :
      (create_tenant_node_acl_rule cidr env b id r w).0 ≡ ok created
      → (c : AclColumns) × (row ≡ some c)
        × (returned_acl c ≡ created)
        × ((create_tenant_node_acl_rule cidr env b id r w).1.db.acl_rules
            ≡ w.db.acl_rules ++ c ∷ [])
  unfolding create_tenant_node_acl_rule
  create_acl-row h =
      let finish = λ (a : AclRule). bump_if b env r.tenant_id r.node_id >> pure a in
      let (a, first, rest, same) = bind-ok (statement (insert_acl row)) finish w created h in
      let (u, bumped, value, kept) =
        bind-ok (bump_if b env r.tenant_id r.node_id) (λ x. pure a) (statement (insert_acl row) w).1
          created rest in
      let is_created : a ≡ created = cc value in
      let (inserted, after) = statement-ok (insert_acl row) w a first in
      let (c, made, value_of, rows) = insert_acl-found row w.db a inserted in
      (
        c,
        made,
        value_of ∙ is_created,
        ap (λ (x : PolicyTables). x.acl_rules) same
            ∙ ap (λ (x : PolicyTables). x.acl_rules) kept
            ∙ bump_if-acl_rules b env r.tenant_id r.node_id (statement (insert_acl row) w).1
            ∙ ap (λ (x : PolicyTables). x.acl_rules) after
            ∙ rows,
      )

  -- When the creation of an ACL rule returns a rule, and no rule of the node had its new identifier, the rule has the
  -- fields that were given, trimmed and with their defaults, the networks that the casts of its addresses give and the
  -- time of the insertion, and looking the identifier up for the node returns the same rule.
  pub create_tenant_node_acl_rule-get :
      find_where (is_acl r.tenant_id r.node_id id) w.db.acl_rules ≡ none
      → (create_tenant_node_acl_rule cidr env b id r w).0 ≡ ok created
      → (s : String) × (d : String) × (cidr (acl_network_for_sync r.src_cidr) ≡ some s)
        × (cidr (acl_network_for_sync r.dst_cidr) ≡ some d)
        × (created ≡ given env id r s d)
        × ((get_tenant_node_acl_rule r.tenant_id r.node_id id
              (record { db = (create_tenant_node_acl_rule cidr env b id r w).1.db; faults = [] })).0
            ≡ ok created)
  unfolding get_tenant_node_acl_rule
  create_tenant_node_acl_rule-get fresh h =
      let (c, made, value, rows) = create_acl-row h in
      let (s, d, from, to, same) =
        with_nets-given (inserted_net cidr r.src_cidr) (inserted_net cidr r.dst_cidr)
          (acl_row env id r) c made in
      let whole : created ≡ given env id r s d =
        sym value ∙ ap returned_acl (sym same) ∙ returned-given s d in
      let mine : is_acl r.tenant_id r.node_id id c ≡ true =
        subst (λ x. is_acl r.tenant_id r.node_id id x ≡ true) same (row-is_acl s d) in
      (
        s,
        d,
        from,
        to,
        whole,
        ap (λ o. one_row (read_row o))
              (ap (find_where (is_acl r.tenant_id r.node_id id)) rows
                ∙ find_where-appended (is_acl r.tenant_id r.node_id id) w.db.acl_rules c fresh mine)
            ∙ ap ok (ap selected_acl (sym same) ∙ selected-given s d ∙ sym whole),
      )
