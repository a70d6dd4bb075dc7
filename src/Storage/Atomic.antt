-- ===== src/Storage/Atomic.antt =====
-- pkg/controllerstorage/agent_commands.go: the transaction of a status report, on every way it can end.
use aria.Prelude.{
  ℕ, String, ◌≡◌, sym, subst, ◌∙◌, ◌⊎◌, Bool, true, Option, none, some, inl, inr, Bool-cases,
  Option-cases, if◌then◌else◌, update_where, count_where, ◌||◌, find_where, ◌==◌, ap,
}
use aria.Sql.{
  Result, ok, err, World, Exec, pure, fail, run, query, ◌>>=◌, ◌>>◌, handle, Outcome, commit,
  transaction,
}
use aria.Sql.Rules.{
  Rel, Same, Same-Preorder, Preorder, Rel-bind, Rel-then, Rel-query, Rel-pure, Rel-statement,
}
use aria.Sql.Inversion.{run-ok, transaction-cases, bind-ok, begun}
use aria.Storage.{
  Texts, CommandStatus, stale, completed, failed, command_status_eq, AgentCommand, PolicyDelivery,
  Node, NodeControlState, Uuid, Tables, Env,
}
use aria.Storage.ControlState.{
  sync_node_control_state_for_command, sync_report, command_with_node, report_node_control_state,
  upsert_state, of_node_id,
}
use aria.Storage.Notify.{of_command}
use aria.Storage.Report.{
  is_updatable, reported, validate_transition, write_report, accept_report, report_in_transaction,
  look, current_status, not_updated, not_found_error, update_policy_delivery_status_by_command,
  delivery_reported, is_terminal_report,
}
use aria.Storage.Keeps.{store_report-keeps, sync_node_control_state-keeps}
use aria.Storage.ReportMoves.{current_status-Reads}

-- the report is written to the command and to its deliveries
abbrev pub Written :
    Env → String → String → CommandStatus → String → Texts → Tables → Tables → Type 0
Written env id key next note result s t =
    (t.commands ≡ update_where (is_updatable id key) (reported env.now next note result) s.commands)
    × (t.deliveries
        ≡ update_where (of_command id)
            (λ (d : PolicyDelivery). record d {
              command_status = next;
              last_error =
                  if command_status_eq next failed
                  then note
                  else if command_status_eq next completed
                  then ""
                  else d.last_error;
              updated_at = env.now;
              completed_at = if is_terminal_report next then some env.now else d.completed_at;
            })
            s.deliveries)

-- a report that fitted no row never commits
not_updated-no_commit :
    (key : String) (r : Result CommandStatus) (w : World Tables) (b : Bool)
    → (not_updated key r w).0 ≡ ok (commit b)
    → ⊥
unfolding not_updated
not_updated-no_commit key (ok c) w b h = elim (Bool-cases (command_status_eq c stale)) [
  | inl e ↦ cc (rw e at h)
  | inr e ↦ cc (rw e at h)
]
not_updated-no_commit key (err e) w b h = cc h

sync-keeps_deliveries :
    (env : Env) (id : String) (next : CommandStatus) (note : String) (r : Texts)
    → Rel
        (Same (λ (db : Tables). db.deliveries))
        (sync_node_control_state_for_command env id next note r)
unfolding sync_node_control_state_for_command
sync-keeps_deliveries env id next note r =
    Rel-bind o (query (command_with_node id)) (sync_report env next note r)
      (Rel-query o (command_with_node id)) part
  where
    o : Preorder (Same (λ (db : Tables). db.deliveries))
    o = Same-Preorder (λ (db : Tables). db.deliveries)

    upserted :
        (n : Uuid) (row : NodeControlState) (f : NodeControlState → NodeControlState) (db : Tables)
        → (upsert_state n row f db).1.deliveries ≡ db.deliveries
    upserted n row f db = elim (Option-cases (find_where (of_node_id n) db.states)) [
      | inl e ↦ rw (e, upsert_state)
      | inr (s, e) ↦ rw (e, upsert_state)
    ]

    part :
        (found : Option (AgentCommand × Node))
        → Rel (Same (λ (db : Tables). db.deliveries)) (sync_report env next note r found)
    part none = Rel-pure o tt
    part (some (c, n)) =
        Rel-then o _ _
          (unfold report_node_control_state in
            Rel-statement o _
              (store_report-keeps (λ (db : Tables). db.deliveries) upserted env n.id _))
          (Rel-pure o tt)

module _ (env : Env) (id key : String) (next : CommandStatus) (note : String) (result : Texts) where
  abbrev update_command : Tables → ℕ × Tables
  update_command db = (
    count_where (is_updatable id key) db.commands,
    record db {
      commands = update_where (is_updatable id key) (reported env.now next note result) db.commands;
    },
  )

  abbrev update_deliveries : Tables → Unit {0} × Tables
  update_deliveries db = (
    tt,
    record db {
      deliveries = update_where (of_command id) (delivery_reported env.now next note) db.deliveries;
    },
  )

  abbrev follow : Exec Tables (Outcome Bool)
  follow =
      update_policy_delivery_status_by_command env id next note
      >> (sync_node_control_state_for_command env id next note result >> pure (commit true))

  follow-commit :
      (v : World Tables) (b : Bool)
      → (follow v).0 ≡ ok (commit b)
      → (b ≡ true)
        × ((follow v).1.db.commands ≡ v.db.commands)
        × ((follow v).1.db.deliveries
            ≡ update_where (of_command id) (delivery_reported env.now next note) v.db.deliveries)
  unfolding update_policy_delivery_status_by_command
  follow-commit v b h =
      let (u, g0, g1, g2) =
        bind-ok (update_policy_delivery_status_by_command env id next note) _ v (commit b) h in
      let t = (update_policy_delivery_status_by_command env id next note v).1 in
      let (x, k0, k1, k2) =
        bind-ok (sync_node_control_state_for_command env id next note result) _ t (commit b) g1 in
      let done = ap (λ out. out.1) (run-ok update_deliveries v u g0) in
      (
        cc k1,
        ap (λ db. db.commands) (g2 ∙ k2)
            ∙ (sync_node_control_state-keeps env id next note result).at t
            ∙ ap (λ z. z.db.commands) done,
        ap (λ db. db.deliveries) (g2 ∙ k2)
            ∙ (sync-keeps_deliveries env id next note result).at t
            ∙ ap (λ z. z.db.deliveries) done,
      )

  after_update-commit :
      (affected : ℕ) (v : World Tables) (b : Bool)
      → ((if affected == 0 then (look (current_status id key) >>= not_updated key) else follow) v).0
        ≡ ok (commit b)
      → (b ≡ true)
        × (((if affected == 0 then (look (current_status id key) >>= not_updated key) else follow)
              v).1.db.commands
            ≡ v.db.commands)
        × (((if affected == 0 then (look (current_status id key) >>= not_updated key) else follow)
              v).1.db.deliveries
            ≡ update_where (of_command id) (delivery_reported env.now next note) v.db.deliveries)
  after_update-commit affected v b h = elim (Bool-cases (affected == 0)) [
    | inl e ↦
        let (r, g0, g1, g2) =
          bind-ok (look (current_status id key)) (not_updated key) v (commit b) (rw e at h) in
        absurd (not_updated-no_commit key r _ b g1)
    | inr e ↦ rw e (follow-commit v b (rw e at h))
  ]

  write_report-commit :
      (w : World Tables) (b : Bool)
      → (write_report env id key next note result w).0 ≡ ok (commit b)
      → (b ≡ true)
        × Written env id key next note result w.db (write_report env id key next note result w).1.db
  unfolding write_report
  write_report-commit w b h =
      let (affected, h0, h1, h2) = bind-ok (run update_command) _ w (commit b) h in
      let v = (run update_command w).1 in
      let done = ap (λ out. out.1.db) (run-ok update_command w affected h0) in
      let (raised, cs, ds) = after_update-commit affected v b h1 in
      (
        raised,
        (
          ap (λ db. db.commands) h2 ∙ cs ∙ ap (λ db. db.commands) done,
          ap (λ db. db.deliveries) h2
              ∙ ds
              ∙ ap
                  (λ db.
                    update_where (of_command id) (delivery_reported env.now next note)
                      db.deliveries)
                  done,
        ),
      )

  accept_report-commit :
      (current : CommandStatus) (w : World Tables) (b : Bool)
      → (accept_report env id key next note result current w).0 ≡ ok (commit b)
      → (b ≡ true)
        × Written env id key next note result w.db
            (accept_report env id key next note result current w).1.db
  unfolding accept_report
  accept_report-commit current w b h =
      elim (Bool-cases (command_status_eq current stale || command_status_eq current next)) [
        | inl e ↦ cc (rw e at h)
        | inr e ↦ elim (Option-cases (validate_transition current next)) [
          | inr (x, g) ↦ cc (rw (e, g) at h)
          | inl g ↦ rw (e, g) (write_report-commit w b (rw (e, g) at h))
        ]
      ]

  -- A report is all or nothing, whatever statements fail: either the tables are exactly as they were, or the
  -- transaction returned true and both the command and all its policy deliveries carry the report.
  pub report_in_transaction-atomic :
      (w : World Tables)
      → ((report_in_transaction env id key next note result w).1.db ≡ w.db)
        ⊎ (((report_in_transaction env id key next note result w).0 ≡ ok true)
            × Written env id key next note result w.db
                (report_in_transaction env id key next note result w).1.db)
  unfolding report_in_transaction
  report_in_transaction-atomic w = ended (transaction-cases body w)
    where
      reading : Exec Tables CommandStatus
      reading = handle (current_status id key) (λ e. fail (not_found_error key e))

      body : Exec Tables (Outcome Bool)
      body = reading >>= accept_report env id key next note result

      ended :
          ((transaction body w).1.db ≡ w.db)
            ⊎ ((b : Bool) × ((body (begun w)).0 ≡ ok (commit b))
                × (transaction body w).0 ≡ ok b
                × (transaction body w).1.db ≡ (body (begun w)).1.db)
          → ((transaction body w).1.db ≡ w.db)
            ⊎ (((transaction body w).0 ≡ ok true)
                × Written env id key next note result w.db (transaction body w).1.db)
      ended (inl same) = inl same
      ended (inr (b, committed, returned, tables)) =
          let (current, g0, g1, g2) =
            bind-ok reading (accept_report env id key next note result) (begun w) (commit b)
              committed in
          let v = (reading (begun w)).1 in
          let (raised, written) = accept_report-commit current v b g1 in
          inr (
            returned ∙ ap ok raised,
            subst (λ s. Written env id key next note result s (transaction body w).1.db)
                ((current_status-Reads id key).same (begun w))
                (subst (Written env id key next note result v.db) (sym (tables ∙ g2)) written),
          )
