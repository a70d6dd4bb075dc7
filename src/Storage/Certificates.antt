-- ===== src/Storage/Certificates.antt =====
-- pkg/controllerstorage/certificates.go and certificate_lifecycle.go: the client certificate of a node.
use aria.Prelude.{
  ℕ, String, Bool, Option, none, some, List, [], ◌∷◌, ◌++◌, ltb, leb, ◌==◌, ◌&&◌, ◌||◌, not, str_eq,
  if◌then◌else◌, update_where, count_where, find_where, rows_where, order_by, map, get_or, is_some,
}
use aria.Sql.{no_rows, Exec, fail, run, query, ◌>>=◌, pure}
use aria.Storage.{
  Uuid, CertStatus, issued, cert_revoked, cert_expired, cert_status_eq, NodeCertificate, Node,
  Tables, Env,
}

-- the fields that a caller of UpsertNodeCertificate sets; `none` stands for an empty status
pub record NewCertificate : Type 0 where
  pub tenant_id : Uuid
  pub node_id : Uuid
  pub serial_number : String
  pub cert_pem : String
  pub ca_pem : String
  pub not_before : ℕ
  pub not_after : ℕ
  pub status : Option CertStatus
  pub renewed_from : Option Uuid

abbrev pub certificate_row : Env → NewCertificate → NodeCertificate
certificate_row env c = record {
  tenant_id = c.tenant_id;
  node_id = c.node_id;
  serial_number = c.serial_number;
  cert_pem = c.cert_pem;
  ca_pem = c.ca_pem;
  not_before = c.not_before;
  not_after = c.not_after;
  status = get_or c.status issued;
  issued_at = env.now;
  revoked_at = none;
  revoke_reason = "";
  renewed_from = c.renewed_from;
  updated_at = env.now;
}

-- the right-hand side of ON CONFLICT (node_id) DO UPDATE: the tenant stays
abbrev pub replace_certificate : NodeCertificate → NodeCertificate → NodeCertificate
replace_certificate x old = record x { tenant_id = old.tenant_id }

abbrev pub is_of_node : Uuid → NodeCertificate → Bool
is_of_node n c = c.node_id == n

-- UpsertNodeCertificate; `none` stands for a nil pointer
unfoldable pub upsert_node_certificate : Env → Option NewCertificate → Exec Tables (Unit {0})
upsert_node_certificate env none = fail no_rows
upsert_node_certificate env (some c) =
    let row = certificate_row env c in
    run (λ db. (
      tt,
      record db {
        certificates =
            if is_some (find_where (is_of_node c.node_id) db.certificates)
            then update_where (is_of_node c.node_id) (replace_certificate row) db.certificates
            else db.certificates ++ row ∷ [];
      },
    ))

unfoldable pub get_node_certificate : Uuid → Exec Tables (Option NodeCertificate)
get_node_certificate node = query (λ db. find_where (is_of_node node) db.certificates)

abbrev pub is_issued_to : Uuid → NodeCertificate → Bool
is_issued_to n c = c.node_id == n && cert_status_eq c.status issued

abbrev pub revoked_certificate : ℕ → String → NodeCertificate → NodeCertificate
revoked_certificate now reason c = record c {
  status = cert_revoked;
  revoked_at = some now;
  revoke_reason = reason;
  updated_at = now;
}

-- revokeNodeCertificatesTx
unfoldable pub revoke_node_certificates_tx : Env → Uuid → String → Exec Tables ℕ
revoke_node_certificates_tx env node reason =
    let why = if str_eq reason "" then "node_lifecycle" else reason in
    run (λ db. (
      count_where (is_issued_to node) db.certificates,
      record db {
        certificates =
            update_where (is_issued_to node) (revoked_certificate env.now why) db.certificates;
      },
    ))

unfoldable pub revoke_node_certificate : Env → Uuid → String → Exec Tables (Unit {0})
unfolding revoke_node_certificates_tx
revoke_node_certificate env node reason = do
  n ← revoke_node_certificates_tx env node reason
  pure tt

-- MarkExpiredNodeCertificates
abbrev pub is_outdated : ℕ → NodeCertificate → Bool
is_outdated now c = cert_status_eq c.status issued && ltb c.not_after now

abbrev pub expired_certificate : ℕ → NodeCertificate → NodeCertificate
expired_certificate now c = record c { status = cert_expired; updated_at = now }

unfoldable pub mark_expired_node_certificates : Env → ℕ → Exec Tables (List NodeCertificate)
mark_expired_node_certificates env now = run (λ db. (
  map (expired_certificate env.now) (rows_where (is_outdated now) db.certificates),
  record db {
    certificates = update_where (is_outdated now) (expired_certificate env.now) db.certificates;
  },
))

-- COALESCE(n.status, 'online') NOT IN ('deleted', 'suspended', 'banned')
abbrev pub is_active_node : Node → Bool
is_active_node n =
    let s = get_or n.status "online" in
    not (str_eq s "deleted" || (str_eq s "suspended" || str_eq s "banned"))

-- the certificates with the active nodes that they are for
abbrev pub on_active_nodes : List Node → List NodeCertificate → List (NodeCertificate × String)
on_active_nodes nodes [] = []
on_active_nodes nodes (c ∷ cs) =
    let rest = on_active_nodes nodes cs in
    elim (find_where (λ (n : Node). n.id == c.node_id) nodes) [
      | none ↦ rest
      | some n ↦ if is_active_node n then (c, n.hostname) ∷ rest else rest
    ]

abbrev pub is_due : ℕ → NodeCertificate → Bool
is_due deadline c = cert_status_eq c.status issued && leb c.not_after deadline

-- ListCertificatesExpiringBefore: the certificate and the hostname of its node
unfoldable pub list_certificates_expiring_before : ℕ → Exec Tables (List (NodeCertificate × String))
list_certificates_expiring_before deadline = query (λ db.
    order_by (λ (a b : NodeCertificate × String). ltb a.0.not_after b.0.not_after)
      (on_active_nodes db.nodes (rows_where (is_due deadline) db.certificates)))
