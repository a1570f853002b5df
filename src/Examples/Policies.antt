-- ===== src/Examples/Policies.antt =====
-- The theorems on entries, the configuration and rotations at concrete inputs.
use vault_plugin_secrets_tem.Prelude.{
  ℕ, ap, String, ◌≡◌, ◌↔◌, refl, true, false, none, some, List, [], ◌∷◌, ◌*◌,
}
use vault_plugin_secrets_tem.Prelude.Int.{pos}
use vault_plugin_secrets_tem.Prelude.Text.{trim_space, split, trim_suffix, lower, sort_texts}
use vault_plugin_secrets_tem.Exec.{ok, second}
use vault_plugin_secrets_tem.Client.{NamespaceAccess}
use vault_plugin_secrets_tem.Client.Access.{parse_namespace_permission}
use vault_plugin_secrets_tem.Client.Token.{api_key_id_from_token}
use vault_plugin_secrets_tem.Backend.Entries.{ServiceAccountEntry, AccountRequest, ConfigRequest}
use vault_plugin_secrets_tem.Backend.Handler.{done}
use vault_plugin_secrets_tem.Backend.World.{
  Env, State, load, decode_or_none, decoded, get_config, store,
}
use vault_plugin_secrets_tem.Backend.World.Trace.{EmitsFrom}
use vault_plugin_secrets_tem.Backend.Namespaces.{
  parse_namespace_access, parse_from, add_pair, add_parts, add_access, has_key, lookup,
  render_access, cloud_spec_changed,
}
use vault_plugin_secrets_tem.Backend.Namespaces.Valid.{IsValid, parse_namespace_access-IsValid}
use vault_plugin_secrets_tem.Backend.Namespaces.Reading.{parse_namespace_access-render_access}
use vault_plugin_secrets_tem.Backend.Namespaces.Changed.{IsSameSpec, cloud_spec_changed_lem}
use vault_plugin_secrets_tem.Backend.Accounts.{
  get_service_account, path_service_account_delete, service_account_storage_path,
}
use vault_plugin_secrets_tem.Backend.Accounts.Delete.{
  DeletePost, path_service_account_delete-DeletePost,
}
use vault_plugin_secrets_tem.Backend.Policy.{role_checks}
use vault_plugin_secrets_tem.Backend.Creds.{minted}
use vault_plugin_secrets_tem.Backend.Rotate.{
  path_rotate_root_write, rotate_config, rotate_with, mint_root, verify_key, store_key,
  delete_previous, verified, read_admin, built_or_fail, stored_or_fail, settle_store,
}
use vault_plugin_secrets_tem.Backend.Rotate.Completed.{Completes, path_rotate_root_write-Completes}
use vault_plugin_secrets_tem.Client.{ServiceAccount}
use vault_plugin_secrets_tem.Backend.Entries.{config_storage_path}
use vault_plugin_secrets_tem.Backend.World.{stored, with_client, get_client}
use vault_plugin_secrets_tem.Backend.Handles.{reset_client, drop_current, retire_dropped}
use vault_plugin_secrets_tem.Backend.RootConfig.{
  path_config_write, request_checks, candidate, client_or_reject, prove_credential, keep,
  metadata_or_reject, owner_checks, admin_or_reject, merged_root_key_ttl, merged_address,
  root_key_ttl_checks,
}
use vault_plugin_secrets_tem.Backend.RootConfig.Proof.{Accepted, path_config_write-Accepted}
use vault_plugin_secrets_tem.Examples.Engine.{env, entry, config, cloud}

abbrev two_grants : List String
two_grants = "prod.a1 = write" ∷ "dev.a1=read" ∷ []

abbrev two_accesses : NamespaceAccess
two_accesses = ("prod.a1", "write") ∷ ("dev.a1", "read") ∷ []

grants_parsed : parse_namespace_access two_grants ≡ done two_accesses
unfolding parse_namespace_access parse_from add_pair add_parts add_access has_key split trim_space
    parse_namespace_permission lower
grants_parsed = refl

parse_namespace_access-IsValid_example : IsValid two_accesses
parse_namespace_access-IsValid_example =
    parse_namespace_access-IsValid two_grants two_accesses grants_parsed

parse_namespace_access-render_access_example :
    (more : NamespaceAccess) × (parse_namespace_access (sort_texts (render_access two_accesses))
      ≡ done more)
    × IsValid more
    × ((k : String) → lookup k more ≡ lookup k two_accesses)
parse_namespace_access-render_access_example =
    parse_namespace_access-render_access two_accesses parse_namespace_access-IsValid_example

abbrev other_order : ServiceAccountEntry
other_order = record entry { namespace_access = ("dev.a1", "read") ∷ ("prod.a1", "write") ∷ [] }

abbrev this_order : ServiceAccountEntry
this_order = record entry { namespace_access = two_accesses }

abbrev turned_grants : List String
turned_grants = "dev.a1=read" ∷ "prod.a1=write" ∷ []

turned_parsed : parse_namespace_access turned_grants ≡ done other_order.namespace_access
unfolding parse_namespace_access parse_from add_pair add_parts add_access has_key split trim_space
    parse_namespace_permission lower
turned_parsed = refl

turned-IsValid : IsValid other_order.namespace_access
turned-IsValid =
    parse_namespace_access-IsValid turned_grants other_order.namespace_access turned_parsed

cloud_spec_changed_lem_example :
    cloud_spec_changed this_order other_order ≡ false ↔ IsSameSpec this_order other_order
cloud_spec_changed_lem_example =
    cloud_spec_changed_lem this_order other_order
      (parse_namespace_access-IsValid two_grants two_accesses grants_parsed) turned-IsValid

abbrev start : State ℕ
start = record { world = 0; handles = record { cells = []; current = none }; trace = [] }

entry_found : (get_service_account env none "ci" start).0 ≡ done (some entry)
unfolding get_service_account load decode_or_none decoded
entry_found = refl

path_service_account_delete-DeletePost_example :
    EmitsFrom
      (DeletePost (service_account_storage_path "ci") "sa")
      (path_service_account_delete env none "ci")
      start
path_service_account_delete-DeletePost_example =
    path_service_account_delete-DeletePost env none "ci" entry start entry_found

-- A write to an entry that is not stored yet.
abbrev new_request : AccountRequest
new_request = record {
  name = "new";
  mount_point = "temporal/";
  account_role = "developer";
  namespace_access = some two_grants;
  description = some "builds";
  ttl = none;
  max_ttl = none;
  force = false;
  verify_propagation = none;
}

abbrev new_entry : ServiceAccountEntry
new_entry = record {
  service_account_id = "";
  account_role = "developer";
  namespace_access = two_accesses;
  description = "builds";
  ttl = pos (3600 * second);
  max_ttl = pos (24 * 3600 * second);
  adopted = false;
  verify_propagation = true;
}

-- A world in which the key belongs to an admin.
abbrev admin_account : ServiceAccount
admin_account = record {
  id = "sa";
  resource_version = "v1";
  spec = record { name = "root"; description = ""; account_role = "admin"; namespace_access = [] };
}

abbrev proving_env : Env ℕ
proving_env = record env {
  cloud = record cloud { get_service_account = λ c k id w. (ok admin_account, w) };
}

config_found : (get_config proving_env start).0 ≡ done (some config)
unfolding get_config load decode_or_none decoded
config_found = refl

rotated : (path_rotate_root_write proving_env none start).0 ≡ done []
unfolding path_rotate_root_write rotate_config rotate_with mint_root verify_key store_key
    delete_previous verified read_admin built_or_fail stored_or_fail settle_store minted get_config
    load decode_or_none decoded with_client get_client
rotated = refl

path_rotate_root_write-Completes_example :
    Completes proving_env none config [] start (path_rotate_root_write proving_env none start).1
path_rotate_root_write-Completes_example =
    path_rotate_root_write-Completes proving_env none config [] start
      (path_rotate_root_write proving_env none start).1 config_found
      (ap (λ u. (u, (path_rotate_root_write proving_env none start).1)) rotated)

abbrev config_request : ConfigRequest
config_request = record {
  api_key = "h.key.s";
  has_api_key_id = false;
  admin_service_account_id = "";
  address = none;
  root_key_ttl = none;
}

abbrev after_write : State ℕ
after_write = record start { trace = stored config_storage_path "config" (ok tt) ∷ [] }

config_written : path_config_write proving_env none config_request start ≡ (done [], after_write)
unfolding path_config_write request_checks candidate client_or_reject prove_credential keep
    get_config load metadata_or_reject owner_checks admin_or_reject role_checks merged_root_key_ttl
    merged_address root_key_ttl_checks api_key_id_from_token store split trim_suffix reset_client
    drop_current retire_dropped
config_written = refl

path_config_write-Accepted_example : Accepted proving_env none config_request start after_write
path_config_write-Accepted_example =
    path_config_write-Accepted proving_env none config_request [] start after_write config_written
