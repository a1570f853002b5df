-- ===== src/Backend/Policy.antt =====
-- The merge of a write to service-accounts/<name> with the stored entry, and its checks: the first
-- half of pathServiceAccountWrite of path_service_accounts.go.
pub mod Checks
use Prim.Native.String.{◌++◌}
use vault_plugin_secrets_tem.Prelude.{
  ℕ, zero, ◌*◌, ◌%◌, String, Bool, true, false, Option, none, some, List, [], ltb, if◌then◌else◌,
}
use vault_plugin_secrets_tem.Prelude.Int.{ℤ, pos, sub_ℕ, ltb_ℤ, add64, half_range, full_range}
use vault_plugin_secrets_tem.Prelude.Text.{is_empty}
use vault_plugin_secrets_tem.Exec.{ok, err, second}
use vault_plugin_secrets_tem.Client.{NamespaceAccess, max_api_key_expiry}
use vault_plugin_secrets_tem.Client.Access.{parse_account_role}
use vault_plugin_secrets_tem.Backend.Entries.{
  ServiceAccountEntry, AccountRequest, default_service_account_ttl, default_service_account_max_ttl,
  api_key_expiry_grace,
}
use vault_plugin_secrets_tem.Backend.Handler.{
  Outcome, done, rejected, Handler, ◌>>=◌, ◌>>◌, pure, lift, account_role_required,
  bad_account_role, ttl_exceeds_max_ttl, max_ttl_too_long,
}
use vault_plugin_secrets_tem.Backend.Namespaces.{parse_namespace_access}

-- time.Duration(n) * time.Second, an int64 product.
unfoldable pub seconds : ℕ → ℤ
seconds n =
    let p = n * second % full_range in if ltb p half_range then pos p else sub_ℕ p full_range

is_zero : ℤ → Bool
is_zero (pos zero) = true
is_zero _ = false

or_default : ℕ → ℤ → ℤ
unfolding is_zero
or_default d t = if is_zero t then pos d else t

-- A field of the request that is merged: the stored value if the request omits it.
unfoldable pub merged_ttl : Option ℤ → Option ℕ → ℕ → ℤ
unfolding seconds or_default
merged_ttl (some stored) none d = stored
merged_ttl none none d = or_default d (seconds 0)
merged_ttl stored (some n) d = or_default d (seconds n)

unfoldable pub merged_access :
    Option NamespaceAccess → Option (List String) → Outcome NamespaceAccess
merged_access (some stored) none = done stored
merged_access none none = parse_namespace_access []
merged_access stored (some pairs) = parse_namespace_access pairs

default_description : String → String → String
default_description mount text = if is_empty text then "Managed by Vault mount " ++ mount else text

unfoldable pub merged_description : Option String → Option String → String → String
unfolding default_description
merged_description (some stored) none mount = stored
merged_description none none mount = default_description mount ""
merged_description stored (some text) mount = default_description mount text

unfoldable pub merged_verify : Option Bool → Option Bool → Bool
merged_verify (some stored) none = stored
merged_verify none none = true
merged_verify stored (some b) = b

abbrev pub field : {A : Type 0} → (ServiceAccountEntry → A) → Option ServiceAccountEntry → Option A
field f none = none
field f (some e) = some (f e)

unfoldable pub ttl_checks : ℤ → ℤ → Outcome (Unit {0})
ttl_checks ttl max_ttl =
    if ltb_ℤ max_ttl ttl
    then rejected (ttl_exceeds_max_ttl ttl max_ttl)
    else if ltb_ℤ (pos max_api_key_expiry) (add64 max_ttl (pos api_key_expiry_grace))
    then rejected (max_ttl_too_long max_ttl)
    else done tt

unfoldable pub role_checks : String → Outcome (Unit {0})
role_checks role =
    if is_empty role
    then rejected account_role_required
    else elim (parse_account_role role) [ ok _ ↦ done tt | err e ↦ rejected (bad_account_role e) ]

-- The entry that the request asks for; the service account's ID and `adopted` are filled in later.
unfoldable pub requested_entry :
    {S : Type 0} → Option ServiceAccountEntry → AccountRequest → Handler S ServiceAccountEntry
unfolding role_checks merged_access merged_ttl ttl_checks merged_description merged_verify
requested_entry existing q = do
  lift (role_checks q.account_role)
  access ← lift (merged_access (field (λ e. e.namespace_access) existing) q.namespace_access)
  let ttl = merged_ttl (field (λ e. e.ttl) existing) q.ttl default_service_account_ttl
  let max_ttl =
      merged_ttl (field (λ e. e.max_ttl) existing) q.max_ttl default_service_account_max_ttl
  lift (ttl_checks ttl max_ttl)
  pure (record {
    service_account_id = "";
    account_role = q.account_role;
    namespace_access = access;
    description =
        merged_description (field (λ e. e.description) existing) q.description q.mount_point;
    ttl = ttl;
    max_ttl = max_ttl;
    adopted = false;
    verify_propagation =
        merged_verify (field (λ e. e.verify_propagation) existing) q.verify_propagation;
  })
