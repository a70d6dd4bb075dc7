-- ===== src/Token/Revocation.antt =====
-- Revocation among the other writes: internal/token/store.go.
use aria.Prelude.{
  ℕ, String, ◌≡◌, refl, ap, sym, subst, ◌∙◌, Bool, true, false, some, List, [], ◌∷◌, arith, str_eq,
  eq_iff, inl, inr, Option-cases, Bool-cases, ◌==◌, update_where, count_where, Distinct,
  Distinct-update_where, find_where-update_where, updated, All, find_where-some,
  count_where-missing,
}
use aria.Sql.{ok, World, fault}
use aria.Token.{Token, Status, revoked}
use aria.Token.Store.{
  Tokens, increment_usage, has_token, with_status, inserted, create, delete, revoke, can_use,
  use_once,
}
use aria.Token.Effects.{Restatus, cleanup-effect, revoke-effect, revoke_by_id-effect}
use aria.Token.Presence.{
  Distinct-append, row-before_append, row-delete, Distinct-delete, create-effect, delete-effect,
}
use aria.Token.Usage.{token_of, row_of, use_count, use-cases}
use aria.Token.Limit.{
  Op, use_token, set_status, revoke_token, revoke_id, cleanup, insert_token, delete_token, after,
  gain, uses,
}

-- the write is no UpdateStatus and does not delete the token
abbrev pub KeepsStatus : String → Op → Type 0
KeepsStatus s (set_status i st) = ⊥
KeepsStatus s (delete_token j) = str_eq j s ≡ false
KeepsStatus s _ = Unit

-- the row of the token is revoked, and the keys are distinct
record IsRevoked (s : String) (rows : Tokens) : Type 0 where
  row : Token
  found : row_of s rows ≡ some row
  off : row.status ≡ revoked
  distinct : Distinct token_of rows

module _ (s : String) (rows : Tokens) (v : IsRevoked s rows) where
  -- an update that leaves the texts alone, and a revoked row revoked
  update-IsRevoked :
      (p : Token → Bool) (f : Token → Token)
      → ((t : Token) → (f t).token ≡ t.token)
      → (p v.row ≡ true → (f v.row).status ≡ revoked)
      → IsRevoked s (update_where p f rows)
  update-IsRevoked p f keep off = elim (Bool-cases (p v.row)) [
    | inl e ↦ record {
      row = f v.row;
      found = moved ∙ rw (v.found, e);
      off = off e;
      distinct = Distinct-update_where token_of p f keep rows v.distinct;
    }
    | inr e ↦ record {
      row = v.row;
      found = moved ∙ rw (v.found, e);
      off = v.off;
      distinct = Distinct-update_where token_of p f keep rows v.distinct;
    }
  ]
    where
      moved : row_of s (update_where p f rows) ≡ updated p f (row_of s rows)
      moved = find_where-update_where (has_token s) p f (λ t. ap (λ x. str_eq x s) (keep t)) rows

  Restatus-IsRevoked :
      (p : Token → Bool) (st : Status) (after_write : Tokens)
      → (p v.row ≡ true → st ≡ revoked)
      → Restatus p st rows after_write
      → IsRevoked s after_write
  Restatus-IsRevoked p st after_write off (inl same) = subst (IsRevoked s) (sym same) v
  Restatus-IsRevoked p st after_write off (inr changed) =
      subst (IsRevoked s) (sym changed) (update-IsRevoked p (with_status st) (λ t. refl) off)

  use-IsRevoked :
      (now : ℕ) (j device : String)
      → IsRevoked s (update_where (can_use j) (use_once now device) rows)
  use-IsRevoked now j device =
      update-IsRevoked (can_use j) (use_once now device) (λ t. refl) (λ e. ground (arith, v.off))

module _ (s : String) (w : World Tokens) (v : IsRevoked s w.db) where
  use_token-IsRevoked :
      (now : ℕ) (j device : String)
      → (gain s (use_token now j device) w ≡ 0) × IsRevoked s (increment_usage now j device w).1.db
  unfolding gain
  use_token-IsRevoked now j device = elim (use-cases now j device w) [
    | inl (x, failed, same) ↦ (rw failed (ground arith), subst (IsRevoked s) (sym same) v)
    | inr (g, hit) ↦ rw hit (elim (Bool-cases (str_eq j s)) [
      | inl q ↦ absurd (own_count ((eq_iff j s).0 q) g)
      | inr q ↦ rw q (refl, use-IsRevoked s w.db v now j device)
    ])
  ]
    where
      own_count : j ≡ s → (count_where (can_use j) w.db == 0) ≡ false → ⊥
      own_count same g =
          let mine = subst (λ i. (count_where (can_use i) w.db == 0) ≡ false) same g in
          ground (arith, use_count s w.db v.distinct, v.found, v.off, mine)

  create-IsRevoked : (now : ℕ) (id : String) (t : Token) → IsRevoked s (create now id t w).1.db
  create-IsRevoked now id t = elim (create-effect w now id t) [
    | inl same ↦ subst (IsRevoked s) (sym same) v
    | inr (fresh, more) ↦ subst (IsRevoked s) (sym more) (record {
      row = v.row;
      found = row-before_append s w.db (inserted now id t) v.row v.found;
      off = v.off;
      distinct = Distinct-append w.db (inserted now id t) v.distinct fresh;
    })
  ]

  delete-IsRevoked : (j : String) → str_eq j s ≡ false → IsRevoked s (delete j w).1.db
  delete-IsRevoked j ne = elim (delete-effect w j) [
    | inl same ↦ subst (IsRevoked s) (sym same) v
    | inr less ↦ subst (IsRevoked s) (sym less) (record {
      row = v.row;
      found = row-delete s j w.db ne ∙ v.found;
      off = v.off;
      distinct = Distinct-delete j w.db v.distinct;
    })
  ]

  IsRevoked-step : (op : Op) → KeepsStatus s op → (gain s op w ≡ 0) × IsRevoked s (after op w).db
  unfolding gain after
  IsRevoked-step (use_token now j device) k = use_token-IsRevoked now j device
  IsRevoked-step (set_status i st) k = absurd k
  IsRevoked-step (revoke_token j) k =
      (refl, Restatus-IsRevoked s w.db v _ _ _ (λ e. refl) (revoke-effect w j))
  IsRevoked-step (revoke_id i) k =
      (refl, Restatus-IsRevoked s w.db v _ _ _ (λ e. refl) (revoke_by_id-effect w i))
  IsRevoked-step (cleanup now) k =
      (refl, Restatus-IsRevoked s w.db v _ _ _ (λ e. ground (arith, v.off)) (cleanup-effect w now))
  IsRevoked-step (insert_token now id t) k = (refl, create-IsRevoked now id t)
  IsRevoked-step (delete_token j) k = (refl, delete-IsRevoked j k)

revoked-uses :
    (ops : List Op) (s : String) (w : World Tokens)
    → All (KeepsStatus s) ops
    → IsRevoked s w.db
    → uses s ops w ≡ 0
unfolding uses
revoked-uses [] s w k v = refl
revoked-uses (op ∷ ops) s w k v =
    let (none_now, kept) = IsRevoked-step s w v op k.0 in
    rw (none_now, revoked-uses ops s (after op w) k.1 kept)

revoke-IsRevoked :
    (s : String) (w : World Tokens)
    → Distinct token_of w.db
    → (revoke s w).0 ≡ ok tt
    → IsRevoked s (revoke s w).1.db
unfolding revoke
revoke-IsRevoked s w d h = elim (Option-cases (row_of s w.db)) [
  | inl r ↦ absurd (ground (arith, count_where-missing (has_token s) w.db r))
  | inr (t, r) ↦ elim (Bool-cases (fault w.faults)) [
    | inl e ↦ cc (rw e at h)
    | inr e ↦ elim (Bool-cases (count_where (has_token s) w.db == 0)) [
      | inl g ↦ cc (rw (e, g) at h)
      | inr g ↦ rw (e, g) (revoked_row t r)
    ]
  ]
]
  where
    revoked_row :
        (t : Token)
        → row_of s w.db ≡ some t
        → IsRevoked s (update_where (has_token s) (with_status revoked) w.db)
    revoked_row t r = record {
      row = with_status revoked t;
      found =
          find_where-update_where (has_token s) (has_token s) (with_status revoked) (λ u. refl) w.db
          ∙ rw (r, (find_where-some (has_token s) w.db r).1);
      off = refl;
      distinct =
          Distinct-update_where token_of (has_token s) (with_status revoked) (λ u. refl) w.db d;
    }

-- After Revoke has succeeded the token is never used again, whatever uses, revocations, cleanups, insertions and
-- deletions of other tokens follow, and whatever statements fail among them. (UpdateStatus and the deletion of the
-- token itself are left out of the run.)
pub revoke_final :
    (ops : List Op) (s : String) (w : World Tokens)
    → Distinct token_of w.db
    → (revoke s w).0 ≡ ok tt
    → All (KeepsStatus s) ops
    → uses s ops (revoke s w).1 ≡ 0
revoke_final ops s w d h k = revoked-uses ops s (revoke s w).1 k (revoke-IsRevoked s w d h)
