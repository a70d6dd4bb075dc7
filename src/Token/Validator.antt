-- ===== src/Token/Validator.antt =====
-- internal/token/validator.go
use aria.Prelude.{ℕ, String, Option, none, some, str_eq, if◌then◌else◌}
use aria.Sql.{
  token_invalid, token_not_found, token_expired, token_exhausted, token_revoked, Exec, pure, fail,
  attempt, handle, ◌>>=◌, ◌>>◌,
}
use aria.Token.{Token, active, exhausted, expired, revoked, other, is_expired, is_used_up}
use aria.Token.Store.{Tokens, get_by_token, increment_usage, update_status}

-- The checks after the switch on the status, which an active token and one with an unknown status reach; the status write is best effort, its error only logged.
check_active : ℕ → Token → Exec Tokens Token
unfolding is_expired update_status
check_active now t =
    if is_expired now t
    then (do attempt (update_status t.id expired); fail token_expired)
    else if is_used_up t
    then (do attempt (update_status t.id exhausted); fail token_exhausted)
    else pure t

abbrev check : ℕ → Option Token → Exec Tokens Token
check now none = fail token_not_found
check now (some t) = elim t.status [
  | revoked ↦ fail token_revoked
  | expired ↦ fail token_expired
  | exhausted ↦ fail token_exhausted
  | active ↦ check_active now t
  | other st ↦ check_active now t
]

unfoldable pub validate : ℕ → String → Exec Tokens Token
unfolding check_active get_by_token
validate now s = if str_eq s "" then fail token_invalid else (do t ← get_by_token s; check now t)

-- The database decides; only when it refuses is the token validated, for the reason.
unfoldable pub consume_token : ℕ → String → String → Exec Tokens (Unit {0})
consume_token now s device = handle (increment_usage now s device) (λ e. do validate now s; fail e)

unfoldable pub validate_only : ℕ → String → Exec Tokens (Unit {0})
unfolding validate
validate_only now s = do validate now s; pure tt
