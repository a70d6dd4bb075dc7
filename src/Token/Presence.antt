-- ===== src/Token/Presence.antt =====
-- What Create and Delete of internal/token/store.go leave in the table: the rows as they were, or one row more, or
-- none of a text.
use aria.Prelude.{
  ℕ, String, ◌≡◌, refl, ◌⊎◌, false, none, some, [], ◌∷◌, ◌++◌, arith, str_eq, eq_iff, eq_refl, inl,
  inr, Option-cases, Bool-cases, delete_where, Distinct, Others,
}
use aria.Sql.{World, fault}
use aria.Token.{Token}
use aria.Token.Store.{Tokens, has_token, inserted, create, delete}
use aria.Token.Usage.{token_of, row_of}

Others-of_missing : (s : String) (rows : Tokens) → row_of s rows ≡ none → Others token_of s rows
Others-of_missing s [] h = tt
Others-of_missing s (t ∷ rows) h = elim (Bool-cases (has_token s t)) [
  | inl e ↦ cc (rw e at h)
  | inr e ↦ (e, Others-of_missing s rows (rw e at h))
]

Distinct-append_row :
    (rows : Tokens) (t : Token)
    → Distinct token_of rows
    → Others token_of t.token rows
    → Distinct token_of (rows ++ t ∷ [])
Distinct-append_row [] t d o = (tt, tt)
Distinct-append_row (r ∷ rows) t d o = (Others-append rows d.0, Distinct-append_row rows t d.1 o.1)
  where
    Others-append :
        (rows : Tokens) → Others token_of r.token rows → Others token_of r.token (rows ++ t ∷ [])
    Others-append [] h = (ground (arith, o.0, eq_iff r.token t.token, eq_iff t.token r.token), tt)
    Others-append (u ∷ rows) h = (h.0, Others-append rows h.1)

-- a new text keeps the texts distinct
pub Distinct-append :
    (rows : Tokens) (t : Token)
    → Distinct token_of rows
    → row_of t.token rows ≡ none
    → Distinct token_of (rows ++ t ∷ [])
Distinct-append rows t d fresh = Distinct-append_row rows t d (Others-of_missing t.token rows fresh)

-- the row that was appended, and the rows before it, are found
pub row-append :
    (rows : Tokens) (t : Token)
    → row_of t.token rows ≡ none
    → row_of t.token (rows ++ t ∷ []) ≡ some t
row-append [] t h = rw eq_refl
row-append (r ∷ rows) t h = elim (Bool-cases (has_token t.token r)) [
  | inl e ↦ cc (rw e at h)
  | inr e ↦ rw e (row-append rows t (rw e at h))
]

pub row-before_append :
    (s : String) (rows : Tokens) (t u : Token)
    → row_of s rows ≡ some u
    → row_of s (rows ++ t ∷ []) ≡ some u
row-before_append s [] t u h = cc h
row-before_append s (r ∷ rows) t u h = elim (Bool-cases (has_token s r)) [
  | inl e ↦ rw e (rw e at h)
  | inr e ↦ rw e (row-before_append s rows t u (rw e at h))
]

-- the deletion of another text
pub row-delete :
    (s j : String) (rows : Tokens)
    → str_eq j s ≡ false
    → row_of s (delete_where (has_token j) rows) ≡ row_of s rows
row-delete s j [] ne = refl
row-delete s j (r ∷ rows) ne = elim (Bool-cases (has_token j r)) [
  | inl e ↦
      let own : r.token ≡ j = (eq_iff r.token j).0 e in
      let away : has_token s r ≡ false = rw own ne in rw (e, away) (row-delete s j rows ne)
  | inr e ↦ elim (Bool-cases (has_token s r)) [
    | inl g ↦ rw (e, g)
    | inr g ↦ rw (e, g) (row-delete s j rows ne)
  ]
]

pub Distinct-delete :
    (j : String) (rows : Tokens)
    → Distinct token_of rows
    → Distinct token_of (delete_where (has_token j) rows)
Distinct-delete j [] d = tt
Distinct-delete j (r ∷ rows) d = elim (Bool-cases (has_token j r)) [
  | inl e ↦ rw e (Distinct-delete j rows d.1)
  | inr e ↦ rw e (Others-delete rows d.0, Distinct-delete j rows d.1)
]
  where
    Others-delete :
        (rows : Tokens)
        → Others token_of r.token rows
        → Others token_of r.token (delete_where (has_token j) rows)
    Others-delete [] h = tt
    Others-delete (u ∷ rows) h = elim (Bool-cases (has_token j u)) [
      | inl e ↦ rw e (Others-delete rows h.1)
      | inr e ↦ rw e (h.0, Others-delete rows h.1)
    ]

module _ (w : World Tokens) where
  pub create-effect :
      (now : ℕ) (id : String) (t : Token)
      → ((create now id t w).1.db ≡ w.db)
        ⊎ ((row_of t.token w.db ≡ none)
            × ((create now id t w).1.db ≡ w.db ++ inserted now id t ∷ []))
  unfolding create
  create-effect now id t = elim (Bool-cases (fault w.faults)) [
    | inl e ↦ inl (rw e)
    | inr e ↦ elim (Option-cases (row_of t.token w.db)) [
      | inl g ↦ inr (g, rw (e, g))
      | inr (u, g) ↦ inl (rw (e, g))
    ]
  ]

  pub delete-effect :
      (j : String)
      → ((delete j w).1.db ≡ w.db) ⊎ ((delete j w).1.db ≡ delete_where (has_token j) w.db)
  unfolding delete
  delete-effect j = elim (Bool-cases (fault w.faults)) [ inl e ↦ inl (rw e) | inr e ↦ inr (rw e) ]
