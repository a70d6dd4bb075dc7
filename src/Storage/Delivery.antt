-- ===== src/Storage/Delivery.antt =====
-- pkg/controllerstorage/agent_commands.go: which command GetNextPendingAgentCommand hands out.
use aria.Prelude.{
  String, ltzb_irrefl, ◌≤ℤ◌, ◌≤◌, ◌≡◌, refl, sym, ◌∙◌, ap, true, false, Option, none, some, List,
  [], ◌∷◌, arith, inl, inr, ◌⊎◌, Bool-cases, All, Row, first_where, first_where-some,
  first_where-none, first_where-first, update_where,
}
use aria.Sql.{ok, World, Exec, fault, run, query, ◌>>=◌, ◌>>◌, Outcome, commit, rollback}
use aria.Sql.Rules.{Reads-query}
use aria.Sql.Inversion.{run-ok, transaction-ok, bind-ok, begun}
use aria.Storage.{sent, AgentCommand, Tables, Env, add_secs}
use aria.Storage.Command.{
  goes_first, is_pending_of, to_requeue, requeued, has_command_id, marked_sent, delivered,
  send_next, get_next_pending_agent_command,
}

goes_first_irrefl : (a : AgentCommand) → goes_first a a ≡ false
goes_first_irrefl a = ground (arith, ltzb_irrefl a.priority)

goes_first_asym : (a b : AgentCommand) → goes_first a b ≡ true → goes_first b a ≡ false
goes_first_asym a b h = ground arith

goes_first_trans :
    (a b c : AgentCommand)
    → goes_first a b ≡ false
    → goes_first b c ≡ false
    → goes_first a c ≡ false
goes_first_trans a b c h k = ground arith

-- the commands once the overdue deliveries of the node are put back
abbrev pub put_back_overdue : Env → String → List AgentCommand → List AgentCommand
put_back_overdue env key cs = update_where (to_requeue env.now key) (requeued env.now) cs

-- r does not go before c: a lower priority, or the same one and not older
abbrev pub NotBefore : AgentCommand → AgentCommand → Type 0
NotBefore c r =
    (r.priority ≤ℤ c.priority) × (c.priority ≤ℤ r.priority → c.created_at ≤ r.created_at)

-- c is a pending command of the node, and no pending command of the node goes before it
abbrev pub IsAhead : String → AgentCommand → List AgentCommand → Type 0
IsAhead key c cs =
    Row c cs
    × (is_pending_of key c ≡ true)
    × All (λ r. is_pending_of key r ≡ true → NotBefore c r) cs

not_before : (r c : AgentCommand) → goes_first r c ≡ false → NotBefore c r
not_before r c h = (ground arith, λ g. ground arith)

All-NotBefore :
    (key : String) (c : AgentCommand) (cs : List AgentCommand)
    → All (λ r. is_pending_of key r ≡ true → goes_first r c ≡ false) cs
    → All (λ r. is_pending_of key r ≡ true → NotBefore c r) cs
All-NotBefore key c [] h = tt
All-NotBefore key c (r ∷ cs) h = (λ e. not_before r c (h.0 e), All-NotBefore key c cs h.1)

module _ (env : Env) (key : String) where
  abbrev requeue_step : Tables → Unit {0} × Tables
  requeue_step db = (tt, record db { commands = put_back_overdue env key db.commands })

  abbrev look_up : Tables → Option AgentCommand
  look_up db = first_where goes_first (is_pending_of key) db.commands

  abbrev body : Exec Tables (Outcome (Option AgentCommand))
  body = run requeue_step >> (query look_up >>= send_next env)

  send_next-ok :
      (found : Option AgentCommand) (w : World Tables) (o : Outcome (Option AgentCommand))
      → (send_next env found w).0 ≡ ok o
      → ((found ≡ none) × (o ≡ rollback none))
        ⊎ ((c : AgentCommand) × (found ≡ some c)
            × (o ≡ commit (some (delivered env.clock c)))
            × ((send_next env found w).1.db.commands
                ≡ update_where (has_command_id c.id) (marked_sent env.clock) w.db.commands))
  unfolding send_next
  send_next-ok none w o h = inl (refl, cc h)
  send_next-ok (some c) w o h = elim (Bool-cases (fault w.faults)) [
    | inl e ↦ cc (rw e at h)
    | inr e ↦ inr (c, refl, cc (rw e at h), rw e)
  ]

  body-ok :
      (w : World Tables) (o : Outcome (Option AgentCommand))
      → (body w).0 ≡ ok o
      → ((o ≡ rollback none) × (look_up (requeue_step w.db).1 ≡ none))
        ⊎ ((c : AgentCommand) × (o ≡ commit (some (delivered env.clock c)))
            × (look_up (requeue_step w.db).1 ≡ some c)
            × ((body w).1.db.commands
                ≡ update_where
                    (has_command_id c.id)
                    (marked_sent env.clock)
                    (put_back_overdue env key w.db.commands)))
  body-ok w o h =
      let (u, g0, g1, g2) =
        bind-ok (run requeue_step) (λ x. query look_up >>= send_next env) w o h in
      let v = (run requeue_step w).1 in
      let before : v.db ≡ (requeue_step w.db).1 =
        ap (λ out. out.1.db) (run-ok requeue_step w u g0) in
      let (found, k0, k1, k2) = bind-ok (query look_up) (send_next env) v o g1 in
      let read : look_up (requeue_step w.db).1 ≡ found =
        ap look_up (sym before) ∙ (Reads-query look_up).gives v found k0 in
      let kept : (query look_up v).1.db ≡ v.db = (Reads-query look_up).same v in
      elim (send_next-ok found (query look_up v).1 o k1) [
        | inl (missing, rolled) ↦ inl (rolled, read ∙ missing)
        | inr (c, hit, sent_, written) ↦ inr (
          c,
          sent_,
          read ∙ hit,
          ap (λ db. db.commands) (g2 ∙ k2)
              ∙ written
              ∙ ap (λ db. update_where (has_command_id c.id) (marked_sent env.clock) db.commands)
                  (kept ∙ before),
        )
      ]

  -- When the call returns a command, that command is the one that goes first (the highest priority, then the
  -- oldest) among the pending commands of the node, counting the overdue deliveries that the call puts back;
  -- and the tables hold it as sent, with a deadline.
  pub get_next-first :
      (w : World Tables) (d : AgentCommand)
      → (get_next_pending_agent_command env key w).0 ≡ ok (some d)
      → (c : AgentCommand) × IsAhead key c (put_back_overdue env key w.db.commands)
        × (d ≡ record c { status = sent; sent_at = some env.clock; updated_at = env.clock })
        × ((get_next_pending_agent_command env key w).1.db.commands
            ≡ update_where
                (has_command_id c.id)
                (λ (x : AgentCommand). record x {
                  status = sent;
                  sent_at = some env.clock;
                  deadline_at = some (add_secs env.clock x.timeout_seconds);
                  updated_at = env.clock;
                })
                (put_back_overdue env key w.db.commands))
  unfolding get_next_pending_agent_command
  get_next-first w d h = elim (transaction-ok body w (some d) h) [
    | inl (committed, tables) ↦ elim (body-ok (begun w) (commit (some d)) committed) [
      | inl (rolled, g) ↦ cc rolled
      | inr (c, same, found, written) ↦
          let (row, fits) =
            first_where-some goes_first (is_pending_of key) (put_back_overdue env key w.db.commands)
              found in
          let ahead =
            first_where-first goes_first (is_pending_of key) goes_first_irrefl goes_first_asym
              goes_first_trans (put_back_overdue env key w.db.commands) found in
          (
            c,
            (row, fits, All-NotBefore key c _ ahead),
            cc same,
            ap (λ db. db.commands) tables ∙ written,
          )
    ]
    | inr (rolled, tables) ↦ elim (body-ok (begun w) (rollback (some d)) rolled) [
      | inl (g, x) ↦ cc g
      | inr (c, g, x, y) ↦ cc g
    ]
  ]

  -- When the call returns no command, the node had none to run, not even an overdue delivery to put back, and
  -- the tables are as they were.
  pub get_next-none :
      (w : World Tables)
      → (get_next_pending_agent_command env key w).0 ≡ ok none
      → ((get_next_pending_agent_command env key w).1.db ≡ w.db)
        × All (λ r. is_pending_of key r ≡ false) (put_back_overdue env key w.db.commands)
  unfolding get_next_pending_agent_command
  get_next-none w h = elim (transaction-ok body w none h) [
    | inl (committed, tables) ↦ elim (body-ok (begun w) (commit none) committed) [
      | inl (g, x) ↦ cc g
      | inr (c, g, x, y) ↦ cc g
    ]
    | inr (rolled, tables) ↦ elim (body-ok (begun w) (rollback none) rolled) [
      | inl (g, missing) ↦ (
        tables,
        first_where-none goes_first (is_pending_of key) (put_back_overdue env key w.db.commands)
            missing,
      )
      | inr (c, g, x, y) ↦ cc g
    ]
  ]
