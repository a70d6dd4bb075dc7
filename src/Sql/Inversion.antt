-- ===== src/Sql/Inversion.antt =====
-- What a result says of the run that gave it.
use aria.Prelude.{◌≡◌, refl, ◌⊎◌, Bool, true, false, Bool-cases, inl, inr}
use aria.Sql.{
  Error, Result, ok, err, World, Exec, fault, later_faults, run, ◌>>=◌, ◌>>◌, and_then, settle,
  unless, Outcome, commit, rollback, transaction,
}

module _ {ℓ} {S : Type ℓ} where
  -- the state of a transaction after its Begin
  abbrev pub begun : World S → World S
  begun w = record { db = w.db; faults = later_faults w.faults }

module _ {ℓ} {S A : Type ℓ} where
  pub run-ok :
      (f : S → A × S) (w : World S) (a : A)
      → (run f w).0 ≡ ok a
      → run f w ≡ (ok (f w.db).0, record { db = (f w.db).1; faults = later_faults w.faults })
  run-ok f w a h = elim (Bool-cases (fault w.faults)) [ inl e ↦ cc (rw e at h) | inr e ↦ rw e ]

  -- a transaction leaves the tables as they were, or its body came to a commit
  pub transaction-cases :
      (m : Exec S (Outcome A)) (w : World S)
      → ((transaction m w).1.db ≡ w.db)
        ⊎ ((a : A) × ((m (begun w)).0 ≡ ok (commit a))
            × (transaction m w).0 ≡ ok a
            × (transaction m w).1.db ≡ (m (begun w)).1.db)
  transaction-cases m w = elim (Bool-cases (fault w.faults)) [
    | inl e ↦ inl (rw e)
    | inr e ↦ rw e (settled (m (begun w)))
  ]
    where
      settled :
          (out : Result (Outcome A) × World S)
          → ((settle w.db out).1.db ≡ w.db)
            ⊎ ((a : A) × (out.0 ≡ ok (commit a))
                × (settle w.db out).0 ≡ ok a
                × (settle w.db out).1.db ≡ out.1.db)
      settled (err e, v) = inl refl
      settled (ok (rollback a), v) = inl refl
      settled (ok (commit a), v) = elim (Bool-cases (fault v.faults)) [
        | inl e ↦ inl (rw e)
        | inr e ↦ inr (a, refl, rw e, rw e)
      ]

  -- a transaction that returned: its body committed, or rolled back with the value
  pub transaction-ok :
      (m : Exec S (Outcome A)) (w : World S) (a : A)
      → (transaction m w).0 ≡ ok a
      → (((m (begun w)).0 ≡ ok (commit a)) × ((transaction m w).1.db ≡ (m (begun w)).1.db))
        ⊎ (((m (begun w)).0 ≡ ok (rollback a)) × ((transaction m w).1.db ≡ w.db))
  transaction-ok m w a h = elim (Bool-cases (fault w.faults)) [
    | inl e ↦ cc (rw e at h)
    | inr e ↦ rw e (settled (m (begun w)) (rw e at h))
  ]
    where
      settled :
          (out : Result (Outcome A) × World S)
          → (settle w.db out).0 ≡ ok a
          → ((out.0 ≡ ok (commit a)) × ((settle w.db out).1.db ≡ out.1.db))
            ⊎ ((out.0 ≡ ok (rollback a)) × ((settle w.db out).1.db ≡ w.db))
      settled (err e, v) h = cc h
      settled (ok (rollback b), v) h = inr (cc h, refl)
      settled (ok (commit b), v) h = elim (Bool-cases (fault v.faults)) [
        | inl e ↦ cc (rw e at h)
        | inr e ↦ inl (cc (rw e at h), rw e)
      ]

module _ {ℓ} {S A B : Type ℓ} where
  -- a chain that returned: its first action returned, and the rest did after it
  pub bind-ok :
      (m : Exec S A) (k : A → Exec S B) (w : World S) (b : B)
      → ((m >>= k) w).0 ≡ ok b
      → (a : A) × ((m w).0 ≡ ok a)
        × ((k a (m w).1).0 ≡ ok b)
        × ((m >>= k) w).1.db ≡ (k a (m w).1).1.db
  bind-ok m k w b h = split (m w) h
    where
      split :
          (out : Result A × World S)
          → (and_then out.0 k out.1).0 ≡ ok b
          → (a : A) × (out.0 ≡ ok a)
            × ((k a out.1).0 ≡ ok b)
            × (and_then out.0 k out.1).1.db ≡ (k a out.1).1.db
      split (ok a, v) h = (a, refl, h, refl)
      split (err e, v) h = cc h

-- a chain behind a guard that returned: the guard let it through
pub unless-ok :
    {S A : Type 0} (b : Bool) (e : Error) (m : Exec S A) (w : World S) (a : A)
    → ((unless b e >> m) w).0 ≡ ok a
    → (b ≡ false) × ((unless b e >> m) w ≡ m w)
unless-ok true e m w a h = cc h
unless-ok false e m w a h = (refl, refl)
