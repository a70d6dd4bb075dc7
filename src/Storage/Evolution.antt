-- ===== src/Storage/Evolution.antt =====
-- How commands move: agent_commands.go, the order of the statuses.
use aria.Prelude.{
  ℕ, String, ◌≤◌, ◌≡◌, refl, sym, ◌∙◌, Bool, true, false, some, List, [], ◌∷◌, ◌++◌, arith, inl,
  inr, Bool-cases, update_where, str_eq, eq_iff, Distinct, Distinct-update_where, All, Others,
  find_where, find_where-some, subst, Row, here, there, All-Row, ap,
}
use aria.Sql.Rules.{Preorder}
use aria.Storage.{CommandStatus, pending, sent, acknowledged, AgentCommand, Tables}

-- A command is on its way to the agent (0), acknowledged (1), or at its end (2).
abbrev pub rank : CommandStatus → ℕ
rank pending = 0
rank sent = 0
rank acknowledged = 1
rank _ = 2

-- The status never moves back past its rank, and does not move at all from an end.
abbrev pub Advances : CommandStatus → CommandStatus → Type 0
Advances a b = (rank a ≤ rank b) × (rank a ≡ 2 → b ≡ a)

pub Advances-refl : (a : CommandStatus) → Advances a a
Advances-refl a = (omega arith, λ h. refl)

pub Advances-trans : (a b c : CommandStatus) → Advances a b → Advances b c → Advances a c
Advances-trans a b c p q =
    (omega (arith, p.0, q.0), λ h. q.1 (subst (λ x. rank x ≡ 2) (sym (p.1 h)) h) ∙ p.1 h)

abbrev pub id_of : AgentCommand → String
id_of c = c.id

-- The rows keep their places, identifiers and nodes, their statuses advance, and rows are only added.
abbrev pub Evolves : List AgentCommand → List AgentCommand → Type 0
Evolves [] later = Unit
Evolves (c ∷ cs) [] = ⊥
Evolves (c ∷ cs) (d ∷ ds) =
    (d.id ≡ c.id)
    × (d.node_public_key ≡ c.node_public_key)
    × Advances c.status d.status
    × Evolves cs ds

pub Evolves-refl : (cs : List AgentCommand) → Evolves cs cs
Evolves-refl [] = tt
Evolves-refl (c ∷ cs) = (refl, refl, Advances-refl c.status, Evolves-refl cs)

pub Evolves-trans : (cs ds es : List AgentCommand) → Evolves cs ds → Evolves ds es → Evolves cs es
Evolves-trans [] ds es p q = tt
Evolves-trans (c ∷ cs) [] es p q = absurd p
Evolves-trans (c ∷ cs) (d ∷ ds) [] p q = absurd q
Evolves-trans (c ∷ cs) (d ∷ ds) (e ∷ es) p q = (
  q.0 ∙ p.0,
  q.1 ∙ p.1,
  Advances-trans c.status d.status e.status p.2 q.2,
  Evolves-trans cs ds es p.3 q.3,
)

pub Evolves-append : (cs ds : List AgentCommand) → Evolves cs (cs ++ ds)
Evolves-append [] ds = tt
Evolves-append (c ∷ cs) ds = (refl, refl, Advances-refl c.status, Evolves-append cs ds)

-- an UPDATE of commands evolves them when it advances each row that it fits
pub Evolves-update_where :
    (p : AgentCommand → Bool) (f : AgentCommand → AgentCommand)
    → ((c : AgentCommand) → (f c).id ≡ c.id)
    → ((c : AgentCommand) → (f c).node_public_key ≡ c.node_public_key)
    → (cs : List AgentCommand) → All (λ c. p c ≡ true → Advances c.status (f c).status) cs
    → Evolves cs (update_where p f cs)
Evolves-update_where p f ids keys [] h = tt
Evolves-update_where p f ids keys (c ∷ cs) h = elim (Bool-cases (p c)) [
  | inl e ↦ rw e (ids c, keys c, h.0 e, Evolves-update_where p f ids keys cs h.1)
  | inr e ↦ rw e (refl, refl, Advances-refl c.status, Evolves-update_where p f ids keys cs h.1)
]

pub All-of {ℓ} : {A : Type 0} (P : A → Type ℓ) (xs : List A) → ((x : A) → P x) → All P xs
All-of P [] h = tt
All-of P (x ∷ xs) h = (h x, All-of P xs h)

-- On the tables: from distinct identifiers the commands evolve, and the identifiers stay distinct.
abbrev pub Tracks : Tables → Tables → Type 0
Tracks s t = Distinct id_of s.commands → Evolves s.commands t.commands × Distinct id_of t.commands

pub Tracks-Preorder : Preorder Tracks
Tracks-Preorder = record {
  here = λ s d. (Evolves-refl s.commands, d);
  then_to = λ s t u p q d.
      let (e, d') = p d in
      let (e', d'') = q d' in (Evolves-trans s.commands t.commands u.commands e e', d'');
}

-- the commands are the same rows
pub Same-Tracks : (s t : Tables) → t.commands ≡ s.commands → Tracks s t
Same-Tracks s t h d =
    (subst (Evolves s.commands) (sym h) (Evolves-refl s.commands), subst (Distinct id_of) (sym h) d)

-- an UPDATE of the commands
pub update-Tracks :
    (p : AgentCommand → Bool) (f : AgentCommand → AgentCommand)
    → ((c : AgentCommand) → (f c).id ≡ c.id)
    → ((c : AgentCommand) → (f c).node_public_key ≡ c.node_public_key)
    → (db : Tables)
    → (Distinct id_of db.commands
        → All (λ c. p c ≡ true → Advances c.status (f c).status) db.commands)
    → Tracks db (record db { commands = update_where p f db.commands })
update-Tracks p f ids keys db step d = (
  Evolves-update_where p f ids keys db.commands (step d),
  Distinct-update_where id_of p f ids db.commands d,
)

-- A row that a read found is the only row that the read fits, where the identifiers are distinct.
Others-unfit :
    (p : AgentCommand → Bool) (k : String)
    → ((c : AgentCommand) → p c ≡ true → str_eq c.id k ≡ true)
    → (P : AgentCommand → Type 0) (cs : List AgentCommand) → Others id_of k cs
    → All (λ c. p c ≡ true → P c) cs
Others-unfit p k own P [] h = tt
Others-unfit p k own P (c ∷ cs) h = (λ e. cc (own c e, h.0), Others-unfit p k own P cs h.1)

pub fitting_only :
    (p : AgentCommand → Bool) (k : String)
    → ((c : AgentCommand) → p c ≡ true → str_eq c.id k ≡ true)
    → (P : AgentCommand → Type 0) (cs : List AgentCommand) → Distinct id_of cs
    → (c : AgentCommand) → Row c cs
    → p c ≡ true
    → P c
    → All (λ d. p d ≡ true → P d) cs
fitting_only p k own P [] dist c m e h = tt
fitting_only p k own P (d ∷ cs) dist c (here same) e h =
    let mine : d.id ≡ k = ap id_of same ∙ (eq_iff c.id k).0 (own c e) in
    (
      λ g. subst P (sym same) h,
      Others-unfit p k own P cs (subst (λ x. Others id_of x cs) mine dist.0),
    )
fitting_only p k own P (d ∷ cs) dist c (there m) e h = (
  λ g.
      let same : c.id ≡ d.id = (eq_iff c.id k).0 (own c e) ∙ sym ((eq_iff d.id k).0 (own d g)) in
      cc ((eq_iff c.id d.id).1 same, All-Row (λ r. str_eq r.id d.id ≡ false) m dist.0),
  fitting_only p k own P cs dist.1 c m e h,
)

pub found_only :
    (p : AgentCommand → Bool) (k : String)
    → ((c : AgentCommand) → p c ≡ true → str_eq c.id k ≡ true)
    → (P : AgentCommand → Type 0) (cs : List AgentCommand) → Distinct id_of cs
    → (c : AgentCommand) → find_where p cs ≡ some c
    → P c
    → All (λ d. p d ≡ true → P d) cs
found_only p k own P cs dist c f h =
    let (m, e) = find_where-some p cs f in fitting_only p k own P cs dist c m e h
