-- ===== src/Storage/Superseding.antt =====
-- pkg/controllerstorage/policy_sync.go: after a sync is queued, it is the only open one of its node.
use mathlib.Core.List.{append-nil}
use aria.Prelude.{
  String, ℤ, ◌≡◌, refl, sym, subst, ◌∙◌, ap, Bool, Option, some, List, [], ◌∷◌, ◌++◌, arith, inl,
  inr, Bool-cases, Option-cases, if◌then◌else◌, update_where, count_where, count_where-update_where,
  count_where-append, find_where, str_eq, str_append, ==_iff, not, trim,
}
use aria.Sql.{
  unsupported_command, message, ok, World, Exec, fault, later_faults, pure, run, ◌>>=◌, Outcome,
  commit, rollback, transaction,
}
use aria.Sql.Rules.{Rel, Same, Same-Preorder, Rel-run}
use aria.Sql.Inversion.{run-ok, transaction-ok, bind-ok, unless-ok, begun}
use aria.Storage.{
  Uuid, Params, pending, stale, AgentCommand, PolicyDelivery, NodeControlState, Tables, Env,
}
use aria.Storage.Command.{
  queue_agent_command, insert_command, is_allowed_agent_command, default_timeout,
}
use aria.Storage.ControlState.{upsert_node_desired_state, upsert_state, of_node_id}
use aria.Storage.PolicySync.{
  PolicySyncRequest, PolicySyncResult, normalize_policy_sync_request, is_open_delivery,
  is_superseded, stale_command, stale_delivery, mark_superseded_policy_syncs_tx, new_delivery,
  create_policy_delivery, deliver, queue_normalized, queue_policy_sync_tx, queue_in_transaction,
}

abbrev pub reason_of : PolicySyncRequest → String
reason_of r = str_append "superseded by desired state " r.desired_state_version

-- the delivery that a sync for a command makes
abbrev pub made : Env → PolicySyncRequest → AgentCommand → List PolicyDelivery
made env r c = if str_eq r.policy_ref "" then [] else new_delivery env r c ∷ []

-- what queueing a normalised request leaves
abbrev pub Queued : Env → PolicySyncRequest → AgentCommand → Tables → Tables → Type 0
Queued env r c s t =
    (c.status ≡ pending)
    × (t.commands
        ≡ update_where (is_superseded r s.deliveries)
            (λ (x : AgentCommand). record x {
              status = stale;
              message = reason_of r;
              updated_at = env.now;
              completed_at = some env.now;
            })
            s.commands
          ++ c ∷ [])
    × (t.deliveries
        ≡ update_where (is_open_delivery r.tenant_id r.node_id)
            (λ (d : PolicyDelivery). record d {
              command_status = stale;
              last_error = reason_of r;
              updated_at = env.now;
              completed_at = some env.now;
            })
            s.deliveries
          ++ made env r c)

abbrev both : Tables → List AgentCommand × List PolicyDelivery
both db = (db.commands, db.deliveries)

upsert_node_desired_state-both :
    (env : Env) (t n : Uuid) (v : String) (m : Params)
    → Rel (Same both) (upsert_node_desired_state env t n v m)
unfolding upsert_node_desired_state
upsert_node_desired_state-both env t n v m = Rel-run (Same-Preorder both) _ (λ s. upserted _ _ s)
  where
    upserted :
        (row : NodeControlState) (f : NodeControlState → NodeControlState) (db : Tables)
        → both (upsert_state n row f db).1 ≡ both db
    upserted row f db = elim (Option-cases (find_where (of_node_id n) db.states)) [
      | inl e ↦ rw (e, upsert_state)
      | inr (s, e) ↦ rw (e, upsert_state)
    ]

mark_superseded-ok :
    (env : Env) (r : PolicySyncRequest) (w : World Tables) (u : Unit {0})
    → (mark_superseded_policy_syncs_tx env r w).0 ≡ ok u
    → both (mark_superseded_policy_syncs_tx env r w).1.db ≡ (
      update_where
          (is_superseded r w.db.deliveries)
          (stale_command env.now (reason_of r))
          w.db.commands,
      update_where
          (is_open_delivery r.tenant_id r.node_id)
          (stale_delivery env.now (reason_of r))
          w.db.deliveries,
    )
unfolding mark_superseded_policy_syncs_tx
mark_superseded-ok env r w u h = elim (Bool-cases (fault w.faults)) [
  | inl e ↦ cc (rw e at h)
  | inr e ↦ elim (Bool-cases (fault (later_faults w.faults))) [
    | inl g ↦ cc (rw (e, g) at h)
    | inr g ↦ rw (e, g)
  ]
]

insert_delivery-ok :
    (d : PolicyDelivery) (w : World Tables) (o : Option PolicyDelivery)
    → ((create_policy_delivery d >>= λ x. pure (some x)) w).0 ≡ ok o
    → both ((create_policy_delivery d >>= λ x. pure (some x)) w).1.db
      ≡ (w.db.commands, w.db.deliveries ++ d ∷ [])
unfolding create_policy_delivery
insert_delivery-ok d w o h = elim (Bool-cases (fault w.faults)) [
  | inl e ↦ cc (rw e at h)
  | inr e ↦ rw e
]

deliver-ok :
    (env : Env) (r : PolicySyncRequest) (c : AgentCommand) (w : World Tables)
    (o : Option PolicyDelivery)
    → (deliver env r c w).0 ≡ ok o
    → both (deliver env r c w).1.db ≡ (w.db.commands, w.db.deliveries ++ made env r c)
unfolding deliver
deliver-ok env r c w o h = elim (Bool-cases (str_eq r.policy_ref "")) [
  | inl e ↦ rw e (ap (λ ds. (w.db.commands, ds)) (sym (append-nil w.db.deliveries)))
  | inr e ↦ rw e (insert_delivery-ok (new_delivery env r c) w o (rw e at h))
]

queue_agent_command-ok :
    (env : Env) (key command : String) (params : Params) (priority timeout : ℤ) (w : World Tables)
    (c : AgentCommand)
    → (queue_agent_command env key command params priority timeout w).0 ≡ ok c
    → (c.status ≡ pending)
      × (both (queue_agent_command env key command params priority timeout w).1.db
          ≡ (w.db.commands ++ c ∷ [], w.db.deliveries))
unfolding queue_agent_command
queue_agent_command-ok env key command params priority timeout w c h =
    let (a, skip_key) = unless-ok (str_eq key "") (message "node public key is required") _ w c h in
    let h1 = ap (λ out. out.0) (sym skip_key) ∙ h in
    let (b, skip_command) =
      unless-ok (str_eq (trim command) "") (message "command is required") _ w c h1 in
    let h2 = ap (λ out. out.0) (sym skip_command) ∙ h1 in
    let (d, skip_allowed) =
      unless-ok (not (is_allowed_agent_command (trim command))) (unsupported_command (trim command))
        (run insert) w c h2 in
    let h3 = ap (λ out. out.0) (sym skip_allowed) ∙ h2 in
    let ran = run-ok insert w c h3 in
    let same : (insert w.db).0 ≡ c = ok_injective (ap (λ out. out.0) (sym ran) ∙ h3) in
    (
      ap (λ x. x.status) (sym same),
      ap (λ out. both out.1.db) (skip_key ∙ skip_command ∙ skip_allowed ∙ ran)
          ∙ ap (λ x. (w.db.commands ++ x ∷ [], w.db.deliveries)) same,
    )
  where
    insert : Tables → AgentCommand × Tables
    insert = insert_command env key (trim command) params priority (default_timeout timeout)

    ok_injective : {x : AgentCommand} → {y : AgentCommand} → ok x ≡ ok y → x ≡ y
    ok_injective e = cc e

queue_normalized-ok :
    (env : Env) (r : PolicySyncRequest) (w : World Tables) (res : PolicySyncResult)
    → (queue_normalized env r w).0 ≡ ok res
    → Queued env r res.command w.db (queue_normalized env r w).1.db
unfolding queue_normalized
queue_normalized-ok env r w res h =
    let upsert =
      upsert_node_desired_state env r.tenant_id r.node_id r.desired_state_version
        r.desired_metadata in
    let mark = mark_superseded_policy_syncs_tx env r in
    let queue =
      queue_agent_command env r.node_public_key "sync" r.command_params r.priority
        r.timeout_seconds in
    let (state, g0, g1, g2) = bind-ok upsert _ w res h in
    let v1 = (upsert w).1 in
    let (u, k0, k1, k2) = bind-ok mark _ v1 res g1 in
    let v2 = (mark v1).1 in
    let (c, m0, m1, m2) = bind-ok queue _ v2 res k1 in
    let v3 = (queue v2).1 in
    let (d, n0, n1, n2) = bind-ok (deliver env r c) _ v3 res m1 in
    let first =
      (upsert_node_desired_state-both env r.tenant_id r.node_id r.desired_state_version
          r.desired_metadata).at
        w in
    let second = mark_superseded-ok env r v1 u k0 in
    let (is_pending, third) =
      queue_agent_command-ok env r.node_public_key "sync" r.command_params r.priority
        r.timeout_seconds v2 c m0 in
    let fourth = deliver-ok env r c v3 d n0 in
    let named : c ≡ res.command = cc n1 in
    let last = ap both (g2 ∙ k2 ∙ m2 ∙ n2) ∙ fourth in
    let whole : Queued env r c w.db (queue_normalized env r w).1.db = (
      is_pending,
      ap (λ p. p.0) last
          ∙ ap (λ p. p.0) third
          ∙ ap (λ p. p.0 ++ c ∷ []) second
          ∙ ap
              (λ p.
                update_where (is_superseded r p.1) (stale_command env.now (reason_of r)) p.0
                ++ c ∷ [])
              first,
      ap (λ p. p.1) last
          ∙ ap (λ p. p.1 ++ made env r c) third
          ∙ ap (λ p. p.1 ++ made env r c) second
          ∙ ap
              (λ p.
                update_where (is_open_delivery r.tenant_id r.node_id)
                  (stale_delivery env.now (reason_of r)) p.1
                ++ made env r c)
              first,
    ) in
    subst (λ x. Queued env r x w.db (queue_normalized env r w).1.db) named whole

-- how many open deliveries the sync itself adds
open_after :
    (env : Env) (r : PolicySyncRequest) (c : AgentCommand) (ds : List PolicyDelivery)
    → c.status ≡ pending
    → count_where (is_open_delivery r.tenant_id r.node_id) (
        update_where
          (is_open_delivery r.tenant_id r.node_id)
          (stale_delivery env.now (reason_of r))
          ds
        ++ made env r c)
      ≡ (if str_eq r.policy_ref "" then 0 else 1)
open_after env r c ds fresh = elim (Bool-cases (str_eq r.policy_ref "")) [
  | inl e ↦ rw e (ap (count_where is_open) (append-nil closed) ∙ none_left)
  | inr e ↦ rw e (
      count_where-append is_open closed (new_delivery env r c)
      ∙ rw (
        none_left,
        (==_iff r.tenant_id r.tenant_id).1 refl,
        (==_iff r.node_id r.node_id).1 refl,
        fresh,
      ))
]
  where
    is_open : PolicyDelivery → Bool
    is_open = is_open_delivery r.tenant_id r.node_id

    closed : List PolicyDelivery
    closed = update_where is_open (stale_delivery env.now (reason_of r)) ds

    none_left : count_where is_open closed ≡ 0
    none_left =
        count_where-update_where is_open is_open (stale_delivery env.now (reason_of r))
          (λ d e. ground arith) (λ d e. e) ds

-- When a policy sync is queued, every incomplete command of the node that carried an open delivery is stale, the
-- open deliveries of the node are stale, whatever their commands are, the new pending command and its delivery come
-- after them, and nothing else is written to either table: the node has one open delivery, or none where the request names no policy.
pub queue_sync-supersedes :
    (env : Env) (request r : PolicySyncRequest) (w : World Tables) (res : PolicySyncResult)
    → normalize_policy_sync_request env request ≡ ok r
    → (queue_in_transaction env request w).0 ≡ ok res
    → Queued env r res.command w.db (queue_in_transaction env request w).1.db
      × (count_where
            (is_open_delivery r.tenant_id r.node_id)
            (queue_in_transaction env request w).1.db.deliveries
          ≡ (if str_eq r.policy_ref "" then 0 else 1))
unfolding queue_in_transaction queue_policy_sync_tx
queue_sync-supersedes env request r w res normal h = elim (transaction-ok body w res h) [
  | inl (committed, tables) ↦
      let (x, g0, g1, g2) = bind-ok inner (λ y. pure (commit y)) (begun w) (commit res) committed in
      let same : x ≡ res = cc g1 in
      let whole : Queued env r res.command w.db (transaction body w).1.db =
        subst (Queued env r res.command w.db) (sym (tables ∙ g2))
          (inner-ok (begun w) res (g0 ∙ ap ok same)) in
      (
        whole,
        ap (count_where (is_open_delivery r.tenant_id r.node_id)) whole.2
            ∙ open_after env r res.command w.db.deliveries whole.0,
      )
  | inr (rolled, tables) ↦
      let (x, g0, g1, g2) = bind-ok inner (λ y. pure (commit y)) (begun w) (rollback res) rolled in
      cc g1
]
  where
    inner : Exec Tables PolicySyncResult
    inner = queue_policy_sync_tx env request

    body : Exec Tables (Outcome PolicySyncResult)
    body = inner >>= λ x. pure (commit x)

    inner-ok :
        (v : World Tables) (x : PolicySyncResult)
        → (inner v).0 ≡ ok x
        → Queued env r x.command v.db (inner v).1.db
    inner-ok v x e = rw normal (queue_normalized-ok env r v x (rw normal at e))
