-- ===== src/Token.antt =====
-- internal/token/token.go: the enrollment token and the tests on it.
pub mod Store
pub mod Usage
pub mod Effects
pub mod Presence
pub mod Insertion
pub mod Cleanup
mod Examples
pub mod Limit
pub mod Revocation
pub mod Validity
pub mod Validator
use aria.Prelude.{
  ℕ, zero, String, ℤ, pos, negsuc, ltzb, lezb, ◌-ℤ◌, Bool, true, false, Option, ltb, ◌&&◌,
  if◌then◌else◌, str_eq,
}

-- The column is a text without a check; `other` holds one that is none of the constants.
pub data Status : Type 0 where
  active exhausted expired revoked : Status
  other : String → Status

-- the test `==` on statuses
abbrev pub status_eq : Status → Status → Bool
status_eq active active = true
status_eq exhausted exhausted = true
status_eq expired expired = true
status_eq revoked revoked = true
status_eq (other a) (other b) = str_eq a b
status_eq _ _ = false

-- `id` is the text of the UUID; a NULL tag or tenant reads back as "".
pub record Token : Type 0 where
  pub id : String
  pub token : String
  pub tag : String
  pub tenant_id : String
  pub max_uses : ℤ
  pub used_count : ℤ
  pub expires_at : ℕ
  pub created_at : ℕ
  pub created_by : String
  pub status : Status
  pub last_used_at : Option ℕ
  pub last_used_by : String

-- time.Now().UTC().After(t.ExpiresAt)
unfoldable pub is_expired : ℕ → Token → Bool
is_expired now t = ltb t.expires_at now

-- MaxUses > 0 && UsedCount >= MaxUses
abbrev pub is_used_up : Token → Bool
is_used_up t = ltzb (pos 0) t.max_uses && lezb t.max_uses t.used_count

unfoldable pub is_valid : ℕ → Token → Bool
unfolding is_expired
is_valid now t =
    if status_eq t.status active
    then (if is_expired now t then false else if is_used_up t then false else true)
    else false

abbrev pub is_zero : ℤ → Bool
is_zero (pos zero) = true
is_zero _ = false

unfoldable pub remaining_uses : Token → ℤ
remaining_uses t =
    if is_zero t.max_uses
    then negsuc 0
    else (let remaining = t.max_uses -ℤ t.used_count in
        if ltzb remaining (pos 0) then pos 0 else remaining)
