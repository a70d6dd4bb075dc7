-- ===== src/Token/Effects.antt =====
-- What the status writes of internal/token/store.go leave in the table: the rows as they were, or one
-- UPDATE of them.
use aria.Prelude.{
  ℕ, String, ◌≡◌, ◌⊎◌, Bool, str_eq, inl, inr, Bool-cases, ◌==◌, update_where, count_where,
}
use aria.Sql.{World, fault}
use aria.Token.{Token, Status, expired, revoked}
use aria.Token.Store.{
  Tokens, has_token, has_id, with_status, is_overdue, update_status, revoke, revoke_by_id,
  cleanup_expired,
}

-- the table after is the table before, perhaps with the status of the rows that fit changed
abbrev pub Restatus : (Token → Bool) → Status → Tokens → Tokens → Type 0
Restatus p st before rows = (rows ≡ before) ⊎ (rows ≡ update_where p (with_status st) before)

module _ (w : World Tokens) where
  pub set_status-effect :
      (i : String) (st : Status) → Restatus (has_id i) st w.db (update_status i st w).1.db
  unfolding update_status
  set_status-effect i st = elim (Bool-cases (str_eq i "")) [
    | inl k ↦ inl (rw k)
    | inr k ↦ elim (Bool-cases (fault w.faults)) [
      | inl e ↦ inl (rw (k, e))
      | inr e ↦ inr (rw (k, e))
    ]
  ]

  pub cleanup-effect :
      (now : ℕ) → Restatus (is_overdue now) expired w.db (cleanup_expired now w).1.db
  unfolding cleanup_expired
  cleanup-effect now = elim (Bool-cases (fault w.faults)) [
    | inl e ↦ inl (rw e)
    | inr e ↦ inr (rw e)
  ]

  pub revoke-effect : (j : String) → Restatus (has_token j) revoked w.db (revoke j w).1.db
  unfolding revoke
  revoke-effect j = elim (Bool-cases (fault w.faults)) [
    | inl e ↦ inl (rw e)
    | inr e ↦ elim (Bool-cases (count_where (has_token j) w.db == 0)) [
      | inl g ↦ inr (rw (e, g))
      | inr g ↦ inr (rw (e, g))
    ]
  ]

  pub revoke_by_id-effect : (i : String) → Restatus (has_id i) revoked w.db (revoke_by_id i w).1.db
  unfolding revoke_by_id
  revoke_by_id-effect i = elim (Bool-cases (str_eq i "")) [
    | inl k ↦ inl (rw k)
    | inr k ↦ elim (Bool-cases (fault w.faults)) [
      | inl e ↦ inl (rw (k, e))
      | inr e ↦ elim (Bool-cases (count_where (has_id i) w.db == 0)) [
        | inl g ↦ inr (rw (k, e, g))
        | inr g ↦ inr (rw (k, e, g))
      ]
    ]
  ]
