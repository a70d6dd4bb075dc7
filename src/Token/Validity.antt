-- ===== src/Token/Validity.antt =====
-- internal/token/validator.go: Validate against IsValid, and ConsumeToken against both.
use aria.Prelude.{
  ℕ, String, ◌≡◌, ◌∙◌, Bool, true, false, none, some, arith, str_eq, ◌&&◌, ◌||◌, not, ltb, pos,
  ltzb, lezb, if◌then◌else◌, Distinct,
}
use aria.Sql.{
  Error, ok, err, World, fault, token_expired, token_exhausted, token_revoked, token_not_found,
}
use aria.Token.{Token, Status, exhausted, expired, revoked, other, is_expired, is_valid}
use aria.Token.Store.{Tokens, update_status, use_once}
use aria.Token.Validator.{validate, consume_token}
use aria.Token.Usage.{token_of, row_of, usable, use_hits, row-use, usable-hits}

-- why Validate refuses a row
abbrev pub refused : ℕ → Token → Error
refused now t = elim t.status [
  | revoked ↦ token_revoked
  | expired ↦ token_expired
  | exhausted ↦ token_exhausted
  | _ ↦ if is_expired now t then token_expired else token_exhausted
]

-- the status is none of those that Validate refuses
abbrev pub is_refused : Status → Bool
is_refused revoked = true
is_refused expired = true
is_refused exhausted = true
is_refused _ = false

-- Validate lets the row through
abbrev pub passes : ℕ → Token → Bool
passes now t =
    not (is_refused t.status)
    && (not (ltb t.expires_at now) && (lezb t.max_uses (pos 0) || ltzb t.used_count t.max_uses))

-- the status is one of the constants
abbrev pub is_constant : Status → Bool
is_constant (other st) = false
is_constant _ = true

late_refusal :
    (now : ℕ) (t : Token)
    → usable t ≡ true
    → is_expired now t ≡ true
    → (if passes now t then ok t else err (refused now t)) ≡ err token_expired
unfolding is_expired
late_refusal now t u late = ground arith

module _ (now : ℕ) (s : String) (w : World Tokens) (named : str_eq s "" ≡ false)
    (up : fault w.faults ≡ false) where
  -- The row that is found is returned when its status is none of revoked, expired and exhausted, its time has not
  -- passed and a use is left or no limit is set; otherwise it is refused with its reason. That is the test of
  -- IsValid where the status is one of the constants; a row with any other status is not valid.
  pub validate-found :
      (t : Token)
      → row_of s w.db ≡ some t
      → ((validate now s w).0 ≡ (if passes now t then ok t else err (refused now t)))
        × (is_valid now t ≡ (is_constant t.status && passes now t))
  unfolding validate is_valid update_status is_expired
  validate-found t r = (rw (named, up, r) (ground arith), ground arith)

  pub validate-missing : row_of s w.db ≡ none → (validate now s w).0 ≡ err token_not_found
  unfolding validate
  validate-missing r = rw (named, up, r)

  -- ConsumeToken looks at the status and the count alone: a token that Validate refuses as expired is
  -- consumed as long as its row is active with uses left.
  pub consume_token_past_expiry :
      (device : String) (t : Token)
      → Distinct token_of w.db
      → row_of s w.db ≡ some t
      → usable t ≡ true
      → is_expired now t ≡ true
      → ((validate now s w).0 ≡ err token_expired)
        × ((consume_token now s device w).0 ≡ ok tt)
        × (row_of s (consume_token now s device w).1.db ≡ some (use_once now device t))
  consume_token_past_expiry device t d r u late =
      let (hit, mine) = usable-hits s w.db t d r u in
      let used = use_hits now s device w up hit in
      (
        (validate-found t r).0 ∙ late_refusal now t u late,
        unfold consume_token in rw used,
        unfold consume_token in rw used (row-use now s device w.db ∙ rw (r, mine)),
      )
