-- ===== src/Sql.antt =====
-- database/sql as the storage layer uses it: statements and transactions over the tables.
--
-- A call may fail at every statement. The faults to come are part of the state: each statement takes
-- the next flag off the list, and a raised flag makes it return an error and leave the tables alone.
-- An empty list raises none. A transaction whose body fails, or that ends with no commit, leaves the
-- tables as they were (pkg/controllerstorage/tx_utils.go, the deferred rollbackTx).
pub mod Rules
pub mod Inversion
use aria.Prelude.{
  ℕ, String, ◌≡◌, refl, ◌⊎◌, inl, inr, Bool, true, false, Option, none, some, List, [], ◌∷◌, arith,
  if◌then◌else◌, Bool-cases,
}

-- The errors that callers can tell apart; `message` is an error that only carries its text.
pub data Error : Type 0 where
  db_failure : Error
  no_rows : Error
  token_not_found token_expired token_exhausted token_revoked token_invalid : Error
  unsupported_status : String → Error
  unsupported_command : String → Error
  wrong_node : Error
  message : String → Error

pub data Result {ℓ} (A : Type ℓ) : Type ℓ where
  ok : A → Result A
  err : Error → Result A

pub record World {ℓ} (S : Type ℓ) : Type ℓ where
  pub db : S
  pub faults : List Bool

abbrev pub Exec {ℓ} : Type ℓ → Type ℓ → Type ℓ
Exec S A = World S → Result A × World S

abbrev pub fault : List Bool → Bool
fault [] = false
fault (b ∷ bs) = b

abbrev pub later_faults : List Bool → List Bool
later_faults [] = []
later_faults (b ∷ bs) = bs

module _ {ℓ} {S A : Type ℓ} where
  abbrev pub pure : A → Exec S A
  pure a w = (ok a, w)

  abbrev pub fail : Error → Exec S A
  fail e w = (err e, w)

  -- one SQL statement: what it returns, and the tables after it
  abbrev pub statement : (S → Result A × S) → Exec S A
  statement f w =
      let rest = later_faults w.faults in
      let out = f w.db in
      if fault w.faults
      then (err db_failure, record { db = w.db; faults = rest })
      else (out.0, record { db = out.1; faults = rest })

  -- a statement that cannot be refused by the tables
  abbrev pub run : (S → A × S) → Exec S A
  run f = statement (λ s. let out = f s in (ok out.0, out.1))

  -- a SELECT
  abbrev pub query : (S → A) → Exec S A
  query f = statement (λ s. (ok (f s), s))

module _ {ℓ} {S A B : Type ℓ} where
  abbrev pub and_then : Result A → (A → Exec S B) → Exec S B
  and_then (ok a) f w = f a w
  and_then (err e) f w = (err e, w)

  infixl 10 ◌>>=◌ ◌>>◌
  abbrev pub ◌>>=◌ : Exec S A → (A → Exec S B) → Exec S B
  ◌>>=◌ m f w = let out = m w in and_then out.0 f out.1

  abbrev pub ◌>>◌ : Exec S A → Exec S B → Exec S B
  m >> k = m >>= λ _. k

module _ {ℓ} {S A : Type ℓ} where
  abbrev pub on_error : (Error → Exec S A) → Result A × World S → Result A × World S
  on_error h (ok a, w) = (ok a, w)
  on_error h (err e, w) = h e w

  -- if err := m; err != nil { h }
  abbrev pub handle : Exec S A → (Error → Exec S A) → Exec S A
  handle m h w = on_error h (m w)

module _ {S : Type 0} where
  -- the error is logged and dropped
  abbrev pub attempt : Exec S (Unit {0}) → Exec S (Unit {0})
  attempt m = handle m (λ e. pure tt)

  -- `attempt m` returns, whatever `m` does
  pub attempt-ok : (m : Exec S (Unit {0})) (w : World S) → (attempt m w).0 ≡ ok tt
  attempt-ok m w = settled (m w)
    where
      settled : (out : Result (Unit {0}) × World S) → (on_error (λ e. pure tt) out).0 ≡ ok tt
      settled (ok a, v) = refl
      settled (err e, v) = refl

  abbrev pub unless : Bool → Error → Exec S (Unit {0})
  unless b e = if b then fail e else pure tt

-- How the body of a transaction ends without an error.
pub data Outcome {ℓ} (A : Type ℓ) : Type ℓ where
  commit : A → Outcome A
  rollback : A → Outcome A

module _ {ℓ} {S A : Type ℓ} where
  abbrev pub settle : S → Result (Outcome A) × World S → Result A × World S
  settle before (err e, w) = (err e, record w { db = before })
  settle before (ok (rollback a), w) = (ok a, record w { db = before })
  settle before (ok (commit a), w) =
      let rest = later_faults w.faults in
      if fault w.faults
      then (err db_failure, record { db = before; faults = rest })
      else (ok a, record { db = w.db; faults = rest })

  -- Begin, the body, and Commit or Rollback
  abbrev pub transaction : Exec S (Outcome A) → Exec S A
  transaction body w =
      let rest = later_faults w.faults in
      let out = settle w.db (body (record { db = w.db; faults = rest })) in
      if fault w.faults then (err db_failure, record { db = w.db; faults = rest }) else out
