-- ===== src/Token/Limit.antt =====
-- No interleaving of the writes of internal/token/store.go uses a token more often than its limit.
use aria.Prelude.{
  ℕ, String, ℤ, pos, pos_part, neg_part, ◌+ℤ◌, ◌≤ℤ◌, ◌<ℤ◌, +ℤ_pos, ◌+◌, ◌≡◌, refl, sym, subst, ◌∙◌,
  Bool, true, false, some, List, [], ◌∷◌, arith, str_eq, eq_iff, if◌then◌else◌, inl, inr,
  Bool-cases, ◌==◌, update_where, count_where, Distinct, Distinct-update_where,
  find_where-update_where, find_where-some, All,
}
use aria.Sql.{Result, ok, err, World}
use aria.Token.{Token, Status}
use aria.Token.Store.{
  Tokens, has_token, can_use, use_once, with_status, increment_usage, update_status, revoke,
  revoke_by_id, cleanup_expired, inserted, create, delete,
}
use aria.Token.Presence.{
  Distinct-append, row-before_append, row-delete, Distinct-delete, create-effect, delete-effect,
}
use aria.Token.Effects.{
  Restatus, set_status-effect, cleanup-effect, revoke-effect, revoke_by_id-effect,
}
use aria.Token.Usage.{token_of, row_of, usable, use-cases, use_count, row-use, after_use}

-- the writes on the table
pub data Op : Type 0 where
  use_token : ℕ → String → String → Op
  set_status : String → Status → Op
  revoke_token : String → Op
  revoke_id : String → Op
  cleanup : ℕ → Op
  insert_token : ℕ → String → Token → Op
  delete_token : String → Op

unfoldable pub after : Op → World Tokens → World Tokens
unfolding increment_usage update_status revoke revoke_by_id cleanup_expired create delete
after (use_token now s device) w = (increment_usage now s device w).1
after (set_status i st) w = (update_status i st w).1
after (revoke_token s) w = (revoke s w).1
after (revoke_id i) w = (revoke_by_id i w).1
after (cleanup now) w = (cleanup_expired now w).1
after (insert_token now id t) w = (create now id t w).1
after (delete_token j) w = (delete j w).1

-- the write does not delete the token
abbrev pub KeepsRow : String → Op → Type 0
KeepsRow s (delete_token j) = str_eq j s ≡ false
KeepsRow s _ = Unit

abbrev is_ok : {A : Type 0} → Result A → Bool
is_ok (ok a) = true
is_ok (err e) = false

-- 1 for a successful use of the token, else 0
unfoldable pub gain : String → Op → World Tokens → ℕ
gain s (use_token now j device) w =
    if str_eq j s then (if is_ok (increment_usage now j device w).0 then 1 else 0) else 0
gain s _ w = 0

-- the successful uses of the token in a run
unfoldable pub uses : String → List Op → World Tokens → ℕ
uses s [] w = 0
uses s (op ∷ ops) w = gain s op w + uses s ops (after op w)

-- How one write changes the table, seen from the row of a token.
record Follows (n : ℕ) (s : String) (t : Token) (rows : Tokens) : Type 0 where
  row : Token
  found : row_of s rows ≡ some row
  same_limit : row.max_uses ≡ t.max_uses
  counted :
      pos_part row.used_count + neg_part t.used_count
      ≡ neg_part row.used_count + pos_part t.used_count + n
  in_limit : row.used_count ≤ℤ row.max_uses
  distinct : Distinct token_of rows

module _ (s : String) (t : Token) (rows : Tokens) (d : Distinct token_of rows)
    (r : row_of s rows ≡ some t) (lim : t.used_count ≤ℤ t.max_uses) where
  stays : Follows 0 s t rows
  stays = record {
    row = t;
    found = r;
    same_limit = refl;
    counted = omega arith;
    in_limit = lim;
    distinct = d;
  }

  -- an UPDATE of the status alone
  restatus : (p : Token → Bool) (st : Status) → Follows 0 s t (update_where p (with_status st) rows)
  restatus p st = elim (Bool-cases (p t)) [
    | inl e ↦ record {
      row = with_status st t;
      found = find_where-update_where (has_token s) p (with_status st) (λ u. refl) rows ∙ rw (r, e);
      same_limit = refl;
      counted = omega arith;
      in_limit = lim;
      distinct = Distinct-update_where token_of p (with_status st) (λ u. refl) rows d;
    }
    | inr e ↦ record {
      row = t;
      found = find_where-update_where (has_token s) p (with_status st) (λ u. refl) rows ∙ rw (r, e);
      same_limit = refl;
      counted = omega arith;
      in_limit = lim;
      distinct = Distinct-update_where token_of p (with_status st) (λ u. refl) rows d;
    }
  ]

one_more : (u m : ℤ) → u <ℤ m → u +ℤ pos 1 ≤ℤ m
one_more u m h = omega (arith, +ℤ_pos u 1)

usable-lt : (t : Token) → usable t ≡ true → pos 0 <ℤ t.max_uses → t.used_count <ℤ t.max_uses
usable-lt t u h = ground arith

module _ (now : ℕ) (s device : String) (w : World Tokens) (d : Distinct token_of w.db) (t : Token)
    (r : row_of s w.db ≡ some t) (pos_lim : pos 0 <ℤ t.max_uses)
    (lim : t.used_count ≤ℤ t.max_uses) where
  keys_kept : (j : String) → Distinct token_of (after_use now j device w)
  keys_kept j = Distinct-update_where token_of (can_use j) (use_once now device) (λ u. refl) w.db d

  -- the row of the token that is used
  used_row : (count_where (can_use s) w.db == 0) ≡ false → Follows 1 s t (after_use now s device w)
  used_row g =
      let fits : usable t ≡ true = ground (arith, use_count s w.db d) in
      let mine : can_use s t ≡ true = rw ((find_where-some (has_token s) w.db r).1, fits) in
      record {
        row = use_once now device t;
        found = row-use now s device w.db ∙ rw (r, mine);
        same_limit = refl;
        counted = +ℤ_pos t.used_count 1;
        in_limit = one_more t.used_count t.max_uses (usable-lt t fits pos_lim);
        distinct = keys_kept s;
      }

  -- the row of another token
  other_row : (j : String) → str_eq j s ≡ false → Follows 0 s t (after_use now j device w)
  other_row j ne =
      let own : t.token ≡ s = (eq_iff t.token s).0 (find_where-some (has_token s) w.db r).1 in
      let away : has_token j t ≡ false = ground (arith, eq_iff t.token j, eq_iff j s, own) in
      record {
        row = t;
        found =
            find_where-update_where (has_token s) (can_use j) (use_once now device) (λ u. refl) w.db
            ∙ rw (r, away);
        same_limit = refl;
        counted = omega arith;
        in_limit = lim;
        distinct = keys_kept j;
      }

  use-Follows :
      (j : String)
      → Follows (gain s (use_token now j device) w) s t (increment_usage now j device w).1.db
  unfolding gain
  use-Follows j = elim (use-cases now j device w) [
    | inl (x, failed, same) ↦
        rw (failed, same)
          (elim (Bool-cases (str_eq j s)) [
            | inl e ↦ rw e (stays s t w.db d r lim)
            | inr e ↦ rw e (stays s t w.db d r lim)
          ])
    | inr (g, hit) ↦ rw hit (elim (Bool-cases (str_eq j s)) [
      | inl q ↦
          let same : j ≡ s = (eq_iff j s).0 q in
          rw q (
            subst (λ i. Follows 1 s t (after_use now i device w)) (sym same)
              (used_row (subst (λ i. (count_where (can_use i) w.db == 0) ≡ false) same g)))
      | inr q ↦ rw q (other_row j q)
    ])
  ]

module _ (s : String) (t : Token) (w : World Tokens) (d : Distinct token_of w.db)
    (r : row_of s w.db ≡ some t) (lim : t.used_count ≤ℤ t.max_uses) where
  unused : Follows 0 s t w.db
  unused = stays s t w.db d r lim

  -- a write that can only change statuses
  Restatus-Follows :
      (p : Token → Bool) (st : Status) (rows : Tokens)
      → Restatus p st w.db rows
      → Follows 0 s t rows
  Restatus-Follows p st rows (inl same) = subst (Follows 0 s t) (sym same) unused
  Restatus-Follows p st rows (inr changed) =
      subst (Follows 0 s t) (sym changed) (restatus s t w.db d r lim p st)

  create-Follows : (now : ℕ) (id : String) (u : Token) → Follows 0 s t (create now id u w).1.db
  create-Follows now id u = elim (create-effect w now id u) [
    | inl same ↦ subst (Follows 0 s t) (sym same) unused
    | inr (fresh, more) ↦ subst (Follows 0 s t) (sym more) (record {
      row = t;
      found = row-before_append s w.db (inserted now id u) t r;
      same_limit = refl;
      counted = omega arith;
      in_limit = lim;
      distinct = Distinct-append w.db (inserted now id u) d fresh;
    })
  ]

  delete-Follows : (j : String) → str_eq j s ≡ false → Follows 0 s t (delete j w).1.db
  delete-Follows j ne = elim (delete-effect w j) [
    | inl same ↦ subst (Follows 0 s t) (sym same) unused
    | inr less ↦ subst (Follows 0 s t) (sym less) (record {
      row = t;
      found = row-delete s j w.db ne ∙ r;
      same_limit = refl;
      counted = omega arith;
      in_limit = lim;
      distinct = Distinct-delete j w.db d;
    })
  ]

step-Follows :
    (op : Op) (s : String) (t : Token) (w : World Tokens)
    → KeepsRow s op
    → Distinct token_of w.db
    → row_of s w.db ≡ some t
    → pos 0 <ℤ t.max_uses
    → t.used_count ≤ℤ t.max_uses
    → Follows (gain s op w) s t (after op w).db
unfolding gain after
step-Follows (use_token now j device) s t w k d r p l = use-Follows now s device w d t r p l j
step-Follows (set_status i st) s t w k d r p l =
    Restatus-Follows s t w d r l _ _ _ (set_status-effect w i st)
step-Follows (revoke_token j) s t w k d r p l =
    Restatus-Follows s t w d r l _ _ _ (revoke-effect w j)
step-Follows (revoke_id i) s t w k d r p l =
    Restatus-Follows s t w d r l _ _ _ (revoke_by_id-effect w i)
step-Follows (cleanup now) s t w k d r p l =
    Restatus-Follows s t w d r l _ _ _ (cleanup-effect w now)
step-Follows (insert_token now id u) s t w k d r p l = create-Follows s t w d r l now id u
step-Follows (delete_token j) s t w k d r p l = delete-Follows s t w d r l j k

-- Where the texts of the tokens are distinct and a token with a limit has been used no more often than that,
-- whatever writes run on the table, but for a deletion of the token itself, and whatever statements fail among them,
-- it is used successfully at most as often as its limit leaves: the uses in the run and the uses before it together
-- stay within the limit.
pub uses_bounded :
    (ops : List Op) (s : String) (t : Token) (w : World Tokens)
    → All (KeepsRow s) ops
    → Distinct token_of w.db
    → row_of s w.db ≡ some t
    → pos 0 <ℤ t.max_uses
    → t.used_count ≤ℤ t.max_uses
    → t.used_count +ℤ pos (uses s ops w) ≤ℤ t.max_uses
unfolding uses
uses_bounded [] s t w k d r p l = omega (arith, +ℤ_pos t.used_count 0)
uses_bounded (op ∷ ops) s t w k d r p l =
    let f = step-Follows op s t w k.0 d r p l in
    let rest =
      uses_bounded ops s f.row (after op w) k.1 f.distinct f.found
        (subst (λ m. pos 0 <ℤ m) (sym f.same_limit) p) f.in_limit in
    let limit =
      subst (λ m. f.row.used_count +ℤ pos (uses s ops (after op w)) ≤ℤ m) f.same_limit rest in
    let n = uses s ops (after op w) in
    omega
      (arith, +ℤ_pos t.used_count (gain s op w + n), +ℤ_pos f.row.used_count n, f.counted, limit)
