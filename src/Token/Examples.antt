-- ===== src/Token/Examples.antt =====
-- Runs of the token store, and the theorems at concrete tables.
use aria.Prelude.{
  pos, ◌+ℤ◌, ◌≤ℤ◌, ◌≡◌, ◌↔◌, refl, true, none, some, List, [], ◌∷◌, arith, if◌then◌else◌, ◌&&◌,
}
use aria.Sql.{World, ok, err, token_exhausted, token_expired}
use aria.Token.{Token, Status, active, is_expired, is_valid}
use aria.Token.Store.{Tokens, use_once, create, increment_usage, revoke}
use aria.Token.Validator.{validate, consume_token}
use aria.Token.Usage.{row_of, calm, usable, increment_usage-ok}
use aria.Token.Limit.{
  Op, use_token, set_status, cleanup, insert_token, delete_token, uses, after, gain, uses_bounded,
}
use aria.Token.Validity.{refused, passes, is_constant, validate-found, consume_token_past_expiry}
use aria.Token.Revocation.{revoke_final}

abbrev twice : Token
twice = record {
  id = "0b1";
  token = "tk_a";
  tag = "lab";
  tenant_id = "";
  max_uses = pos 2;
  used_count = pos 0;
  expires_at = 100;
  created_at = 1;
  created_by = "cli";
  status = active;
  last_used_at = none;
  last_used_by = "";
}

abbrev other : Token
other = record twice { id = "0b2"; token = "tk_b" }

abbrev two_tokens : World Tokens
two_tokens = record { db = twice ∷ other ∷ []; faults = [] }

abbrev three_uses : List Op
three_uses =
    use_token 5 "tk_a" "d1"
    ∷ use_token 6 "tk_b" "d2"
    ∷ use_token 7 "tk_a" "d3"
    ∷ set_status "0b1" active
    ∷ use_token 8 "tk_a" "d4"
    ∷ delete_token "tk_b"
    ∷ insert_token 9 "0b3" other
    ∷ []

three_uses_count : uses "tk_a" three_uses two_tokens ≡ 2
unfolding uses gain after increment_usage create
three_uses_count = refl

third_use_refused :
    (consume_token 8 "tk_a" "d4"
      (after (use_token 7 "tk_a" "d3") (after (use_token 5 "tk_a" "d1") two_tokens))).0
    ≡ err token_exhausted
unfolding consume_token after increment_usage validate
third_use_refused = refl

increment_usage-ok_example :
    ((increment_usage 5 "tk_a" "d1" two_tokens).0 ≡ ok tt)
    ↔ ((t : Token) × (row_of "tk_a" two_tokens.db ≡ some t) × (usable t ≡ true))
increment_usage-ok_example = increment_usage-ok 5 "tk_a" "d1" two_tokens ((refl, tt), (tt, tt)) refl

uses_bounded_example : pos 0 +ℤ pos (uses "tk_a" three_uses two_tokens) ≤ℤ pos 2
uses_bounded_example =
    uses_bounded three_uses "tk_a" twice two_tokens (tt, (tt, (tt, (tt, (tt, (refl, (tt, tt)))))))
      ((refl, tt), (tt, tt)) refl (omega arith) (omega arith)

validate-found_example :
    ((validate 7 "tk_a" two_tokens).0
      ≡ (if passes 7 twice then ok twice else err (refused 7 twice)))
    × (is_valid 7 twice ≡ (is_constant twice.status && passes 7 twice))
validate-found_example = validate-found 7 "tk_a" two_tokens refl refl twice refl

consume_token_past_expiry_example :
    ((validate 101 "tk_a" two_tokens).0 ≡ err token_expired)
    × ((consume_token 101 "tk_a" "d1" two_tokens).0 ≡ ok tt)
    × (row_of "tk_a" (consume_token 101 "tk_a" "d1" two_tokens).1.db
        ≡ some (use_once 101 "d1" twice))
unfolding is_expired
consume_token_past_expiry_example =
    consume_token_past_expiry 101 "tk_a" two_tokens refl refl "d1" twice ((refl, tt), (tt, tt)) refl
      refl refl

revoke_final_example :
    uses "tk_a"
      (use_token 5 "tk_a" "d1" ∷ cleanup 200 ∷ use_token 6 "tk_a" "d1" ∷ [])
      (revoke "tk_a" two_tokens).1
    ≡ 0
unfolding revoke
revoke_final_example =
    revoke_final (use_token 5 "tk_a" "d1" ∷ cleanup 200 ∷ use_token 6 "tk_a" "d1" ∷ []) "tk_a"
      two_tokens ((refl, tt), (tt, tt)) refl (tt, (tt, (tt, tt)))

abbrev third : Token
third = record twice { id = ""; token = "tk_c" }

-- a row with a status that is no constant is let through, though it is not valid
paused_passes :
    (validate 5 "tk_a" (calm (record twice { status = Status.other "paused" } ∷ []))).0
    ≡ ok (record twice { status = Status.other "paused" })
unfolding validate
paused_passes = refl
