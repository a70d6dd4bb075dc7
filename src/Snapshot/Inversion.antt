-- ===== src/Snapshot/Inversion.antt =====
-- internal/controller/grpc/policy_snapshot.go: what a chain of steps did that gave a value.
use aria.Prelude.{◌≡◌, refl, subst, List, [], ◌∷◌, ◌++◌, All}
use aria.Snapshot.{Compiled, compiled, refused, ◌>>=◌}
use aria.Snapshot.Build.{compile_all}

pub value_of {ℓ} : {A : Type ℓ} → {a b : A} → Path (Compiled A) (compiled a) (compiled b) → a ≡ b
value_of h = cc h

module _ {ℓ} {A B : Type ℓ} where
  -- the first step gave a value, and the rest gave the value of the whole
  pub bind-inverse :
      (m : Compiled A) (f : A → Compiled B) (b : B)
      → (m >>= f) ≡ compiled b
      → (a : A) × (m ≡ compiled a) × (f a ≡ compiled b)
  bind-inverse (compiled a) f b h = (a, refl, h)
  bind-inverse (refused e) f b h = cc h

pub All-append {ℓ κ} :
    {A : Type ℓ} (P : A → Type κ) (xs ys : List A) → All P xs → All P ys → All P (xs ++ ys)
All-append P [] ys h k = k
All-append P (x ∷ xs) ys h k = (h.0, All-append P xs ys h.1 k)

-- what every step puts out holds of all that comes out
pub compile_all-All {ℓ} :
    {A B : Type ℓ} (P : B → Type 0) (f : A → Compiled (List B))
    → ((x : A) (out : List B) → f x ≡ compiled out → All P out)
    → (xs : List A) (out : List B) → compile_all f xs ≡ compiled out
    → All P out
compile_all-All P f step [] out h = subst (λ o. All P o) (value_of h) tt
compile_all-All P f step (x ∷ xs) out h =
    let (here, first, rest) = bind-inverse (f x) _ out h in
    let (there, others, end) = bind-inverse (compile_all f xs) _ out rest in
    subst (λ o. All P o) (value_of end)
      (All-append P here there (step x here first) (compile_all-All P f step xs there others))
