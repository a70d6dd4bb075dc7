-- ===== src/Storage/GiveUp.antt =====
-- pkg/controllerstorage/agent_commands.go: what failing the incomplete or timed-out commands of a node leaves.
use aria.Prelude.{
  some, ℕ, String, ◌≡◌, refl, sym, subst, ◌∙◌, ap, Bool, false, [], arith, inl, inr, Bool-cases,
  if◌then◌else◌, update_where, count_where, count_where-update_where, str_eq,
}
use aria.Sql.{
  ok, World, Exec, fault, later_faults, pure, ◌>>=◌, ◌>>◌, unless, Outcome, commit, rollback,
  transaction, message,
}
use aria.Sql.Inversion.{transaction-ok, bind-ok, unless-ok, begun}
use aria.Storage.{failed, AgentCommand, PolicyDelivery, Tables, Env}
use aria.Storage.Failing.{
  fail_commands, failed_command, delivers, is_incomplete_of, is_timed_out_of, fail_timed_out_tx,
  fail_incomplete_tx, fail_timed_out_agent_commands_for_node,
  fail_incomplete_agent_commands_for_node, count_incomplete_agent_commands,
}

-- what the two updates leave
abbrev pub GivenUp : ℕ → String → (AgentCommand → Bool) → Tables → Tables → Type 0
GivenUp now note fits s t =
    (t.commands
      ≡ update_where fits
          (λ (c : AgentCommand). record c {
            status = failed;
            message = note;
            updated_at = now;
            completed_at = some now;
          })
          s.commands)
    × (t.deliveries
        ≡ update_where (delivers fits s.commands)
            (λ (d : PolicyDelivery). record d {
              command_status = failed;
              last_error = note;
              updated_at = now;
              completed_at = some now;
            })
            s.deliveries)

fail_commands-ok :
    (now : ℕ) (note : String) (fits : AgentCommand → Bool) (w : World Tables) (n : ℕ)
    → (fail_commands now note fits w).0 ≡ ok n
    → (n ≡ count_where fits w.db.commands)
      × GivenUp now note fits w.db (fail_commands now note fits w).1.db
fail_commands-ok now note fits w n h = elim (Bool-cases (fault w.faults)) [
  | inl e ↦ cc (rw e at h)
  | inr e ↦ elim (Bool-cases (fault (later_faults w.faults))) [
    | inl g ↦ cc (rw (e, g) at h)
    | inr g ↦ rw (e, g) (cc (rw (e, g) at h), (refl, refl))
  ]
]

-- no command fits any more, when a failed command does not fit
GivenUp-none :
    (now : ℕ) (note : String) (fits : AgentCommand → Bool) (s t : Tables)
    → ((c : AgentCommand) → fits (failed_command now note c) ≡ false)
    → GivenUp now note fits s t
    → count_where fits t.commands ≡ 0
GivenUp-none now note fits s t over h =
    ap (count_where fits) h.0
    ∙ count_where-update_where fits fits (failed_command now note) (λ c e. over c) (λ c e. e)
        s.commands

-- what the caller of FailIncompleteAgentCommandsForNode is told
abbrev pub reason : String → String
reason note = if str_eq note "" then "node is no longer active" else note

pub fail_incomplete_tx-ok :
    (env : Env) (key note : String) (v : World Tables) (u : Unit {0})
    → (fail_incomplete_tx env key note v).0 ≡ ok u
    → GivenUp env.now
        (reason note)
        (is_incomplete_of key)
        v.db
        (fail_incomplete_tx env key note v).1.db
unfolding fail_incomplete_tx
fail_incomplete_tx-ok env key note v u g =
    let (open_, skip) =
      unless-ok (str_eq key "") (message "node public key is required") (writes >> pure tt) v u g in
    let (n, m0, m1, m2) = bind-ok writes (λ x. pure tt) v u (ap (λ out. out.0) (sym skip) ∙ g) in
    subst (GivenUp env.now (reason note) (is_incomplete_of key) v.db)
      (sym (ap (λ out. out.1.db) skip ∙ m2))
      (fail_commands-ok env.now (reason note) (is_incomplete_of key) v n m0).1
  where
    writes : Exec Tables ℕ
    writes = fail_commands env.now (reason note) (is_incomplete_of key)

pub GivenUp-clears :
    (env : Env) (key note : String) (s t : Tables)
    → GivenUp env.now (reason note) (is_incomplete_of key) s t
    → count_where (is_incomplete_of key) t.commands ≡ 0
GivenUp-clears env key note s t h =
    GivenUp-none env.now (reason note) (is_incomplete_of key) s t (λ c. ground arith) h

-- When the call returns without an error, the commands of the node that were incomplete are failed with the
-- reason, their policy deliveries are failed with it as well, nothing else is written to either table, and the
-- count of incomplete commands of the node is 0.
pub fail_incomplete-clears :
    (env : Env) (key note : String) (w : World Tables)
    → (fail_incomplete_agent_commands_for_node env key note w).0 ≡ ok tt
    → GivenUp env.now
        (reason note)
        (is_incomplete_of key)
        w.db
        (fail_incomplete_agent_commands_for_node env key note w).1.db
      × ((count_incomplete_agent_commands key (record {
        db = (fail_incomplete_agent_commands_for_node env key note w).1.db;
        faults = [];
      })).0
          ≡ ok 0)
unfolding fail_incomplete_agent_commands_for_node count_incomplete_agent_commands
fail_incomplete-clears env key note w h = elim (transaction-ok body w tt h) [
  | inl (committed, tables) ↦
      let (u, g0, g1, g2) = bind-ok inner (λ x. pure (commit tt)) (begun w) (commit tt) committed in
      let whole : GivenUp env.now (reason note) (is_incomplete_of key) w.db
          (transaction body w).1.db =
        subst (GivenUp env.now (reason note) (is_incomplete_of key) w.db) (sym (tables ∙ g2))
          (fail_incomplete_tx-ok env key note (begun w) u g0) in
      (whole, ap ok (GivenUp-clears env key note w.db (transaction body w).1.db whole))
  | inr (rolled, tables) ↦
      let (u, g0, g1, g2) = bind-ok inner (λ x. pure (commit tt)) (begun w) (rollback tt) rolled in
      cc g1
]
  where
    inner : Exec Tables (Unit {0})
    inner = fail_incomplete_tx env key note

    body : Exec Tables (Outcome (Unit {0}))
    body = inner >> pure (commit tt)

-- When the call returns a number n without an error, n is how many commands of the node had timed out, those
-- commands and their policy deliveries are failed, and no command of the node is timed out any more.
pub fail_timed_out-counts :
    (env : Env) (key : String) (w : World Tables) (n : ℕ)
    → (fail_timed_out_agent_commands_for_node env key w).0 ≡ ok n
    → (n ≡ count_where (is_timed_out_of env.now key) w.db.commands)
      × GivenUp env.now "command timed out waiting for agent result"
          (is_timed_out_of env.now key)
          w.db
          (fail_timed_out_agent_commands_for_node env key w).1.db
      × (count_where
            (is_timed_out_of env.now key)
            (fail_timed_out_agent_commands_for_node env key w).1.db.commands
          ≡ 0)
unfolding fail_timed_out_agent_commands_for_node fail_timed_out_tx
fail_timed_out-counts env key w n h = elim (transaction-ok body w n h) [
  | inl (committed, tables) ↦
      let (m, g0, g1, g2) = bind-ok inner (λ x. pure (commit x)) (begun w) (commit n) committed in
      let (counted, given) = inner-ok (begun w) m g0 in
      let whole : GivenUp env.now note fits w.db (transaction body w).1.db =
        subst (GivenUp env.now note fits w.db) (sym (tables ∙ g2)) given in
      (
        cc (g1, counted),
        whole,
        GivenUp-none env.now note fits w.db (transaction body w).1.db (λ c. ground arith) whole,
      )
  | inr (rolled, tables) ↦
      let (m, g0, g1, g2) = bind-ok inner (λ x. pure (commit x)) (begun w) (rollback n) rolled in
      cc g1
]
  where
    note : String
    note = "command timed out waiting for agent result"

    fits : AgentCommand → Bool
    fits = is_timed_out_of env.now key

    writes : Exec Tables ℕ
    writes = fail_commands env.now note fits

    inner : Exec Tables ℕ
    inner = unless (str_eq key "") (message "node public key is required") >> writes

    body : Exec Tables (Outcome ℕ)
    body = inner >>= λ x. pure (commit x)

    inner-ok :
        (v : World Tables) (u : ℕ)
        → (inner v).0 ≡ ok u
        → (u ≡ count_where fits v.db.commands) × GivenUp env.now note fits v.db (inner v).1.db
    inner-ok v u g =
        let (open_, skip) =
          unless-ok (str_eq key "") (message "node public key is required") writes v u g in
        let (counted, given) =
          fail_commands-ok env.now note fits v u (ap (λ out. out.0) (sym skip) ∙ g) in
        (counted, subst (GivenUp env.now note fits v.db) (sym (ap (λ out. out.1.db) skip)) given)
