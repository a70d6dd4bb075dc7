-- ===== src/Token/Store.antt =====
-- internal/token/store.go: the SQL of the token table. `now` is the database's NOW().
use aria.Prelude.{
  ℕ, String, pos, ltzb, lezb, ◌+ℤ◌, Bool, false, Option, none, some, List, [], ◌∷◌, ◌++◌, ltb, ◌==◌,
  ◌&&◌, ◌||◌, str_eq, if◌then◌else◌, update_where, delete_where, count_where, find_where,
  rows_where, order_by, is_some, str_append,
}
use aria.Sql.{
  Error, db_failure, token_not_found, token_expired, token_exhausted, token_revoked, message, ok,
  err, Exec, pure, fail, statement, run, query, ◌>>=◌, ◌>>◌, unless,
}
use aria.Token.{Token, Status, active, exhausted, expired, revoked, other, status_eq, is_zero}

abbrev pub Tokens : Type 0
Tokens = List Token

abbrev pub has_token : String → Token → Bool
has_token s t = str_eq t.token s

abbrev pub has_id : String → Token → Bool
has_id i t = str_eq t.id i

-- Create: a second row with the same token breaks the UNIQUE constraint of the table. `id` is what
-- gen_random_uuid() gives.
abbrev pub inserted : ℕ → String → Token → Token
inserted now id t = record t { id = id; created_at = now; last_used_at = none; last_used_by = "" }

unfoldable pub create : ℕ → String → Token → Exec Tokens Token
create now id t = statement (λ rows.
    if is_some (find_where (has_token t.token) rows)
    then (err db_failure, rows)
    else (ok (record t { id = id }), rows ++ inserted now id t ∷ []))

-- nil for sql.ErrNoRows
unfoldable pub get_by_token : String → Exec Tokens (Option Token)
get_by_token s = query (find_where (has_token s))

unfoldable pub get_by_id : String → Exec Tokens (Option Token)
get_by_id i = do
  unless (str_eq i "") (message "token id cannot be empty")
  query (find_where (has_id i))

-- the filters "" and "all"
abbrev pub is_all : Status → Bool
is_all (other s) = str_eq s "" || str_eq s "all"
is_all _ = false

-- ORDER BY created_at DESC
unfoldable pub list : Status → Exec Tokens (List Token)
list filter = query (λ rows.
    order_by (λ a b. ltb b.created_at a.created_at)
      (if is_all filter then rows else rows_where (λ t. status_eq t.status filter) rows))

-- the WHERE clause of the UPDATE
abbrev pub can_use : String → Token → Bool
can_use s t =
    has_token s t
    && (status_eq t.status active && (is_zero t.max_uses || ltzb t.used_count t.max_uses))

-- the SET clause: the right-hand sides read the old row
abbrev pub use_once : ℕ → String → Token → Token
use_once now device t = record t {
  used_count = t.used_count +ℤ pos 1;
  last_used_at = some now;
  last_used_by = device;
  status =
      if ltzb (pos 0) t.max_uses && lezb t.max_uses (t.used_count +ℤ pos 1)
      then exhausted
      else t.status;
}

-- why a token was not used
abbrev pub refusal : Option Token → Error
refusal none = token_not_found
refusal (some t) = elim t.status [
  | expired ↦ token_expired
  | exhausted ↦ token_exhausted
  | revoked ↦ token_revoked
  | active ↦ message "token not active (current status: active)"
  | other s ↦ message (str_append (str_append "token not active (current status: " s) ")")
]

unfoldable pub increment_usage : ℕ → String → String → Exec Tokens (Unit {0})
unfolding get_by_token
increment_usage now s device = do
  affected ←
      run (λ rows.
        (count_where (can_use s) rows, update_where (can_use s) (use_once now device) rows))
  if affected == 0 then (do t ← get_by_token s; fail (refusal t)) else pure tt

abbrev pub with_status : Status → Token → Token
with_status st t = record t { status = st }

unfoldable pub update_status : String → Status → Exec Tokens (Unit {0})
update_status i st = do
  unless (str_eq i "") (message "token id cannot be empty")
  run (λ rows. (tt, update_where (has_id i) (with_status st) rows))

-- the common body of Revoke and RevokeByID
abbrev revoke_where : (Token → Bool) → Exec Tokens (Unit {0})
revoke_where p = do
  affected ← run (λ rows. (count_where p rows, update_where p (with_status revoked) rows))
  unless (affected == 0) token_not_found

unfoldable pub revoke : String → Exec Tokens (Unit {0})
revoke s = revoke_where (has_token s)

unfoldable pub revoke_by_id : String → Exec Tokens (Unit {0})
revoke_by_id i = do
  unless (str_eq i "") (message "token id cannot be empty")
  revoke_where (has_id i)

unfoldable pub delete : String → Exec Tokens (Unit {0})
delete s = run (λ rows. (tt, delete_where (has_token s) rows))

abbrev pub is_overdue : ℕ → Token → Bool
is_overdue now t = status_eq t.status active && ltb t.expires_at now

unfoldable pub cleanup_expired : ℕ → Exec Tokens ℕ
cleanup_expired now = run (λ rows.
    (count_where (is_overdue now) rows, update_where (is_overdue now) (with_status expired) rows))
