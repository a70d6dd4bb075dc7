-- ===== src/Storage/Normalizing.antt =====
-- pkg/controllerstorage/policy_sync.go: QueuePolicySync normalises a request, and the transaction does so again.
use aria.Prelude.{
  String, ◌≡◌, sym, subst, ◌∙◌, ap, false, inl, inr, Bool-cases, if◌then◌else◌, str_eq, ◌==◌, trim,
  trim-trim,
}
use aria.Sql.{ok}
use aria.Storage.{Env}
use aria.Storage.PolicySync.{PolicySyncRequest, trimmed, normalize_policy_sync_request}

-- the fields that must be given
Complete : PolicySyncRequest → Type 0
Complete r =
    (r.tenant_id == 0 ≡ false)
    × (r.node_id == 0 ≡ false)
    × (str_eq (trim r.node_public_key) "" ≡ false)
    × (str_eq (trim r.domain) "" ≡ false)
    × (str_eq (trim r.action) "" ≡ false)

normalize-trimmed :
    (env : Env) (request r : PolicySyncRequest)
    → normalize_policy_sync_request env request ≡ ok r
    → (r ≡ trimmed env request) × Complete request
unfolding normalize_policy_sync_request Complete
normalize-trimmed env request r h = elim (Bool-cases (request.tenant_id == 0)) [
  | inl e ↦ cc (rw e at h)
  | inr a ↦ elim (Bool-cases (request.node_id == 0)) [
    | inl e ↦ cc (rw (a, e) at h)
    | inr b ↦ elim (Bool-cases (str_eq (trim request.node_public_key) "")) [
      | inl e ↦ cc (rw (a, b, e) at h)
      | inr c ↦ elim (Bool-cases (str_eq (trim request.domain) "")) [
        | inl e ↦ cc (rw (a, b, c, e) at h)
        | inr d ↦ elim (Bool-cases (str_eq (trim request.action) "")) [
          | inl e ↦ cc (rw (a, b, c, d, e) at h)
          | inr e ↦ (sym (cc (rw (a, b, c, d, e) at h)), (a, b, c, d, e))
        ]
      ]
    ]
  ]
]

Complete-normalize :
    (env : Env) (r : PolicySyncRequest)
    → Complete r
    → normalize_policy_sync_request env r ≡ ok (trimmed env r)
unfolding normalize_policy_sync_request Complete
Complete-normalize env r h = rw (h.0, h.1, h.2, h.3, h.4)

Complete-trimmed : (env : Env) (r : PolicySyncRequest) → Complete r → Complete (trimmed env r)
unfolding Complete
Complete-trimmed env r h =
    rw (trim-trim r.node_public_key, trim-trim r.domain, trim-trim r.action) h

version_again :
    (version given : String)
    → trim version ≡ version
    → str_eq version "" ≡ false
    → (if str_eq (trim (if str_eq (trim given) "" then version else trim given)) ""
        then version
        else trim (if str_eq (trim given) "" then version else trim given))
      ≡ (if str_eq (trim given) "" then version else trim given)
version_again version given whole full = elim (Bool-cases (str_eq (trim given) "")) [
  | inl e ↦ rw (e, whole, full)
  | inr e ↦ rw (e, trim-trim given, e)
]

trimmed-trimmed :
    (env : Env) (r : PolicySyncRequest)
    → trim env.version ≡ env.version
    → str_eq env.version "" ≡ false
    → trimmed env (trimmed env r) ≡ trimmed env r
trimmed-trimmed env r whole full = rw (
  version_again env.version r.desired_state_version whole full,
  trim-trim r.node_public_key,
  trim-trim r.domain,
  trim-trim r.action,
  trim-trim r.policy_ref,
  trim-trim r.policy_name,
)

-- A normalised request passes normalisation again and is not changed by it, when the generated versions are
-- neither blank nor surrounded by blanks.
pub normalize-idempotent :
    (env : Env) (request r : PolicySyncRequest)
    → trim env.version ≡ env.version
    → str_eq env.version "" ≡ false
    → normalize_policy_sync_request env request ≡ ok r
    → normalize_policy_sync_request env r ≡ ok r
normalize-idempotent env request r whole given h =
    let (same, complete) = normalize-trimmed env request r h in
    subst (λ x. normalize_policy_sync_request env x ≡ ok x) (sym same)
      (Complete-normalize env (trimmed env request) (Complete-trimmed env request complete)
        ∙ ap ok (trimmed-trimmed env request whole given))
