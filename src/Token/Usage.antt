-- ===== src/Token/Usage.antt =====
-- How often a token can be used: internal/token/store.go, IncrementUsage, among the other writes.
use aria.Prelude.{
  ℕ, String, ltzb, ◌≡◌, ◌↔◌, ap, refl, Bool, true, false, Option, some, [], arith, ◌&&◌, ◌||◌, ◌⊎◌,
  inl, inr, Option-cases, Bool-cases, ◌==◌, ==_iff, update_where, count_where, count_where-zero,
  find_where, Distinct, count_where-Distinct, one_if, updated, find_where-update_where,
  find_where-some,
}
use aria.Sql.{Error, db_failure, Result, ok, err, World, fault, later_faults}
use aria.Token.{Token, active, status_eq, is_zero}
use aria.Token.Store.{Tokens, has_token, can_use, use_once, refusal, increment_usage}

abbrev pub token_of : Token → String
token_of t = t.token

abbrev pub row_of : String → Tokens → Option Token
row_of s = find_where (has_token s)

-- a table on which no statement is going to fail
abbrev pub calm : Tokens → World Tokens
calm rows = record { db = rows; faults = [] }

-- the condition of the UPDATE on the row of a token
abbrev pub usable : Token → Bool
usable t = status_eq t.status active && (is_zero t.max_uses || ltzb t.used_count t.max_uses)

pub use_count :
    (s : String) (rows : Tokens)
    → Distinct token_of rows
    → count_where (can_use s) rows ≡ one_if usable (row_of s rows)
use_count s rows d = count_where-Distinct token_of s usable rows d

pub row-use :
    (now : ℕ) (s device : String) (rows : Tokens)
    → row_of s (update_where (can_use s) (use_once now device) rows)
      ≡ updated (can_use s) (use_once now device) (row_of s rows)
row-use now s device rows =
    find_where-update_where (has_token s) (can_use s) (use_once now device) (λ t. refl) rows

module _ (now : ℕ) (s device : String) (w : World Tokens) where
  abbrev pub after_use : Tokens
  after_use = update_where (can_use s) (use_once now device) w.db

  -- the statement reached the database and fitted a row
  pub use_hits :
      fault w.faults ≡ false
      → (count_where (can_use s) w.db == 0) ≡ false
      → increment_usage now s device w
        ≡ (ok tt, record { db = after_use; faults = later_faults w.faults })
  unfolding increment_usage
  use_hits e g = rw (e, g)

  untouched : (count_where (can_use s) w.db == 0) ≡ true → after_use ≡ w.db
  untouched g = count_where-zero (can_use s) (use_once now device) w.db ((==_iff _ 0).0 g)

  -- the statement failed, or fitted no row: an error, and the table as it was
  pub use_misses :
      (fault w.faults ≡ true) ⊎ ((count_where (can_use s) w.db == 0) ≡ true)
      → (x : Error) × ((increment_usage now s device w).0 ≡ err x)
        × ((increment_usage now s device w).1.db ≡ w.db)
  unfolding increment_usage
  use_misses (inl e) = rw e (db_failure, refl, refl)
  use_misses (inr g) = elim (Bool-cases (fault w.faults)) [
    | inl e ↦ rw e (db_failure, refl, refl)
    | inr e ↦ elim (Bool-cases (fault (later_faults w.faults))) [
      | inl k ↦ rw (e, g, k) (db_failure, refl, untouched g)
      | inr k ↦ rw (e, g, k) (refusal (row_of s after_use), refl, untouched g)
    ]
  ]

miss_or_hit : (a b : Bool) → ((a ≡ true) ⊎ (b ≡ true)) ⊎ ((a ≡ false) × (b ≡ false))
miss_or_hit true b = inl (inl refl)
miss_or_hit false true = inl (inr refl)
miss_or_hit false false = inr (refl, refl)

-- A use fails and leaves the table alone, or fits a row and updates it.
pub use-cases :
    (now : ℕ) (s device : String) (w : World Tokens)
    → ((x : Error) × ((increment_usage now s device w).0 ≡ err x)
        × ((increment_usage now s device w).1.db ≡ w.db))
      ⊎ (((count_where (can_use s) w.db == 0) ≡ false)
          × (increment_usage now s device w
              ≡ (ok tt, record { db = after_use now s device w; faults = later_faults w.faults })))
use-cases now s device w = elim (miss_or_hit (fault w.faults) (count_where (can_use s) w.db == 0)) [
  | inl miss ↦ inl (use_misses now s device w miss)
  | inr (e, g) ↦ inr (g, use_hits now s device w e g)
]

module _ (now : ℕ) (s device : String) (w : World Tokens) (d : Distinct token_of w.db) where
  -- A use succeeds exactly when the statement reaches the database and the token's row is active with
  -- uses left, whatever its expiry time is.
  pub increment_usage-ok :
      fault w.faults ≡ false
      → ((increment_usage now s device w).0 ≡ ok tt)
        ↔ ((t : Token) × (row_of s w.db ≡ some t) × (usable t ≡ true))
  increment_usage-ok e = elim (Bool-cases (count_where (can_use s) w.db == 0)) [
    | inl g ↦
        let (x, failed, same) = use_misses now s device w (inr g) in
        (λ h. cc (failed, h), λ (t, r, u). absurd (ground (arith, use_count s w.db d)))
    | inr g ↦ (
      λ h. hit_row g,
      λ r. ap (λ (o : Result Unit × World Tokens). o.0) (use_hits now s device w e g),
    )
  ]
    where
      hit_row :
          (count_where (can_use s) w.db == 0) ≡ false
          → (t : Token) × (row_of s w.db ≡ some t) × (usable t ≡ true)
      hit_row g = elim (Option-cases (row_of s w.db)) [
        | inl r ↦ absurd (ground (arith, use_count s w.db d))
        | inr (t, r) ↦ (t, r, ground (arith, use_count s w.db d))
      ]

-- A usable row is counted, and is the row that the update changes.
pub usable-hits :
    (s : String) (rows : Tokens) (t : Token)
    → Distinct token_of rows
    → row_of s rows ≡ some t
    → usable t ≡ true
    → ((count_where (can_use s) rows == 0) ≡ false) × (can_use s t ≡ true)
usable-hits s rows t d r u =
    (ground (arith, use_count s rows d), rw ((find_where-some (has_token s) rows r).1, u))
