-- ===== src/Sql/Rules.antt =====
-- Rules for what an action does to the tables, one for each way to build an action. `Rel R m` says that
-- the tables before and after `m` are related by R, whether `m` returns or fails; R is a preorder.
use aria.Prelude.{
  ◌≡◌, refl, sym, subst, ◌∙◌, Bool, true, false, if◌then◌else◌, Bool-cases, inl, inr,
}
use aria.Sql.{
  Error, Result, ok, err, World, Exec, fault, later_faults, pure, fail, statement, run, query,
  ◌>>=◌, ◌>>◌, and_then, on_error, settle, handle, attempt, unless, Outcome, commit, rollback,
  transaction,
}

pub record Preorder {ℓ} {S : Type ℓ} (R : S → S → Type ℓ) : Type ℓ where
  pub here : (s : S) → R s s
  pub then_to : (s t u : S) → R s t → R t u → R s u

pub record Rel {ℓ} {S A : Type ℓ} (R : S → S → Type ℓ) (m : Exec S A) : Type ℓ where
  pub at : (w : World S) → R w.db (m w).1.db

module _ {ℓ} {S : Type ℓ} {R : S → S → Type ℓ} (o : Preorder R) where
  pub Rel-pure : {A : Type ℓ} (a : A) → Rel R (pure {S = S} a)
  Rel-pure a = record { at = λ w. o.here w.db }

  pub Rel-fail : {A : Type ℓ} (e : Error) → Rel R (fail {S = S} {A = A} e)
  Rel-fail e = record { at = λ w. o.here w.db }

  pub Rel-statement :
      {A : Type ℓ} (f : S → Result A × S) → ((s : S) → R s (f s).1) → Rel R (statement f)
  Rel-statement f h = record {
    at = λ w. elim (Bool-cases (fault w.faults)) [
      | inl e ↦ rw e (o.here w.db)
      | inr e ↦ rw e (h w.db)
    ];
  }

  pub Rel-run : {A : Type ℓ} (f : S → A × S) → ((s : S) → R s (f s).1) → Rel R (run f)
  Rel-run f h = Rel-statement (λ s. let out = f s in (ok out.0, out.1)) h

  pub Rel-query : {A : Type ℓ} (f : S → A) → Rel R (query f)
  Rel-query f = Rel-statement (λ s. (ok (f s), s)) (λ s. o.here s)

  -- a first action that is only known to respect R from the state at hand
  pub bind-at :
      {A B : Type ℓ} (m : Exec S A) (f : A → Exec S B) (w : World S)
      → R w.db (m w).1.db
      → ((a : A) → Rel R (f a))
      → R w.db ((m >>= f) w).1.db
  bind-at {A} m f w h hf = go (m w) h
    where
      go : (out : Result A × World S) → R w.db out.1.db → R w.db (and_then out.0 f out.1).1.db
      go (ok a, v) h = o.then_to w.db v.db _ h ((hf a).at v)
      go (err e, v) h = h

  pub Rel-bind :
      {A B : Type ℓ} (m : Exec S A) (f : A → Exec S B)
      → Rel R m
      → ((a : A) → Rel R (f a))
      → Rel R (m >>= f)
  Rel-bind m f hm hf = record { at = λ w. bind-at m f w (hm.at w) hf }

  -- a first statement that is only known to respect R on the tables at hand
  pub run-then-at :
      {A B : Type ℓ} (f : S → A × S) (k : A → Exec S B) (w : World S)
      → R w.db (f w.db).1
      → ((a : A) → Rel R (k a))
      → R w.db ((run f >>= k) w).1.db
  run-then-at f k w h hk = elim (Bool-cases (fault w.faults)) [
    | inl e ↦ rw e (o.here w.db)
    | inr e ↦ rw e (
        o.then_to w.db (f w.db).1 _ h
          ((hk (f w.db).0).at (record { db = (f w.db).1; faults = later_faults w.faults })))
  ]

  pub Rel-handle :
      {A : Type ℓ} (m : Exec S A) (k : Error → Exec S A)
      → Rel R m
      → ((e : Error) → Rel R (k e))
      → Rel R (handle m k)
  Rel-handle {A} m k hm hk = record { at = λ w. go w (m w) (hm.at w) }
    where
      go : (w : World S) (out : Result A × World S) → R w.db out.1.db → R w.db (on_error k out).1.db
      go w (ok a, v) h = h
      go w (err e, v) h = o.then_to w.db v.db _ h ((hk e).at v)

  pub Rel-if :
      {A : Type ℓ} (b : Bool) (m n : Exec S A) → Rel R m → Rel R n → Rel R (if b then m else n)
  Rel-if true m n hm hn = hm
  Rel-if false m n hm hn = hn

  pub Rel-transaction : {A : Type ℓ} (m : Exec S (Outcome A)) → Rel R m → Rel R (transaction m)
  Rel-transaction {A} m hm = record {
    at = λ w. elim (Bool-cases (fault w.faults)) [
      | inl e ↦ rw e (o.here w.db)
      | inr e ↦ rw e (go w (m (begun w)) (hm.at (begun w)))
    ];
  }
    where
      begun : World S → World S
      begun w = record { db = w.db; faults = later_faults w.faults }

      go :
          (w : World S) (out : Result (Outcome A) × World S)
          → R w.db out.1.db
          → R w.db (settle w.db out).1.db
      go w (err e, v) h = o.here w.db
      go w (ok (rollback a), v) h = o.here w.db
      go w (ok (commit a), v) h = elim (Bool-cases (fault v.faults)) [
        | inl e ↦ rw e (o.here w.db)
        | inr e ↦ rw e h
      ]

module _ {S : Type 0} {R : S → S → Type 0} (o : Preorder R) where
  pub Rel-unless : (b : Bool) (e : Error) → Rel R (unless {S = S} b e)
  Rel-unless true e = Rel-fail o e
  Rel-unless false e = Rel-pure o tt

  -- the action runs where the guard lets it
  pub unless-then-at :
      {A : Type 0} (b : Bool) (e : Error) (m : Exec S A) (w : World S)
      → (b ≡ false → R w.db (m w).1.db)
      → R w.db ((unless b e >> m) w).1.db
  unless-then-at true e m w h = o.here w.db
  unless-then-at false e m w h = h refl

  pub Rel-attempt : (m : Exec S (Unit {0})) → Rel R m → Rel R (attempt m)
  Rel-attempt m hm = Rel-handle o m (λ e. pure tt) hm (λ e. Rel-pure o tt)

  pub Rel-then : {A B : Type 0} (m : Exec S A) (k : Exec S B) → Rel R m → Rel R k → Rel R (m >> k)
  Rel-then m k hm hk = Rel-bind o m (λ a. k) hm (λ a. hk)

-- An action that changes nothing, and returns only what P allows of the tables.
pub record Reads {ℓ} {S A : Type ℓ} (P : A → S → Type ℓ) (m : Exec S A) : Type ℓ where
  pub same : (w : World S) → (m w).1.db ≡ w.db
  pub gives : (w : World S) (a : A) → (m w).0 ≡ ok a → P a w.db

module _ {ℓ} {S : Type ℓ} where
  pub Reads-query : {A : Type ℓ} (f : S → A) → Reads (λ a s. f s ≡ a) (query f)
  Reads-query f = record {
    same = λ w. elim (Bool-cases (fault w.faults)) [ inl e ↦ rw e | inr e ↦ rw e ];
    gives = λ w a h. elim (Bool-cases (fault w.faults)) [
      | inl e ↦ cc (rw e at h)
      | inr e ↦ cc (rw e at h)
    ];
  }

  pub Reads-statement :
      {A : Type ℓ} (f : S → Result A) → Reads (λ a s. f s ≡ ok a) (statement (λ s. (f s, s)))
  Reads-statement f = record {
    same = λ w. elim (Bool-cases (fault w.faults)) [ inl e ↦ rw e | inr e ↦ rw e ];
    gives =
        λ w a h. elim (Bool-cases (fault w.faults)) [ inl e ↦ cc (rw e at h) | inr e ↦ rw e at h ];
  }

  -- an error that is replaced by another
  pub Reads-rename :
      {A : Type ℓ} (P : A → S → Type ℓ) (m : Exec S A) (k : Error → Error)
      → Reads P m
      → Reads P (handle m (λ e. fail (k e)))
  Reads-rename {A} P m k h = record {
    same = λ w. go_same w (m w) (h.same w);
    gives = λ w a. go_gives w (m w) a (h.gives w a);
  }
    where
      go_same :
          (w : World S) (out : Result A × World S)
          → out.1.db ≡ w.db
          → (on_error (λ e. fail (k e)) out).1.db ≡ w.db
      go_same w (ok a, v) q = q
      go_same w (err e, v) q = q

      go_gives :
          (w : World S) (out : Result A × World S) (a : A)
          → (out.0 ≡ ok a → P a w.db)
          → (on_error (λ e. fail (k e)) out).0 ≡ ok a
          → P a w.db
      go_gives w (ok b, v) a q g = q g
      go_gives w (err e, v) a q g = cc g

  pub Rel-read-bind :
      {A B : Type ℓ} (R : S → S → Type ℓ) (o : Preorder R) (P : A → S → Type ℓ) (m : Exec S A)
      (f : A → Exec S B)
      → Reads P m
      → ((a : A) (w : World S) → P a w.db → R w.db (f a w).1.db)
      → Rel R (m >>= f)
  Rel-read-bind {A} R o P m f hm hf = record {
    at = λ w. go w (m w) (hm.same w) (λ a. hm.gives w a);
  }
    where
      go :
          (w : World S) (out : Result A × World S)
          → out.1.db ≡ w.db
          → ((a : A) → out.0 ≡ ok a → P a w.db)
          → R w.db (and_then out.0 f out.1).1.db
      go w (ok a, v) q g = subst (λ s. R s (f a v).1.db) q (hf a v (subst (P a) (sym q) (g a refl)))
      go w (err e, v) q g = subst (R w.db) (sym q) (o.here w.db)

-- The relation that says that a part of the tables is unchanged.
abbrev pub Same : {S T : Type 0} → (S → T) → S → S → Type 0
Same f s t = f t ≡ f s

pub Same-Preorder : {S T : Type 0} (f : S → T) → Preorder (Same f)
Same-Preorder f = record { here = λ s. refl; then_to = λ s t u p q. q ∙ p }

pub ruleset rel_rules = (
  Rel-pure, Rel-fail, Rel-query, Rel-bind, Rel-then, Rel-handle, Rel-attempt, Rel-unless, Rel-if,
  Rel-transaction,
)
