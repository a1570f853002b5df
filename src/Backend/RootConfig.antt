-- ===== src/Backend/RootConfig.antt =====
-- The handlers of config (path_config.go): the root credential is proven to work before it is stored.
pub mod Checks
pub mod Proof
use vault_plugin_secrets_tem.Prelude.{
  is_some, Bool, ℕ, String, not, ◌&&◌, Option, none, some, List, [], ◌∷◌, ◌==◌, if◌then◌else◌,
}
use vault_plugin_secrets_tem.Prelude.Int.{whole_seconds, ℤ, pos, ltb_ℤ, leb_ℤ}
use vault_plugin_secrets_tem.Prelude.Text.{is_empty}
use vault_plugin_secrets_tem.Exec.{Result, ok, err, Context}
use vault_plugin_secrets_tem.Client.{
  ServiceAccount, ApiKeyMetadata, OwnerType, max_api_key_expiry, min_api_key_expiry,
}
use vault_plugin_secrets_tem.Client.Errors.{Error, Kind}
use vault_plugin_secrets_tem.Client.Token.{api_key_id_from_token}
use vault_plugin_secrets_tem.Backend.Entries.{
  Config, ConfigRequest, config_storage_path, default_address, default_root_key_ttl,
}
use vault_plugin_secrets_tem.Backend.Handler.{
  Outcome, done, rejected, Handler, ◌>>=◌, ◌>>◌, pure, lift, or_fail, respond_cloud_err,
  api_key_required, api_key_id_read_only, root_key_ttl_too_long, root_key_ttl_too_short,
  not_an_api_key, cannot_build_client, api_key_rejected, api_key_owned_by_user, unsupported_owner,
  no_owner_id, wrong_owner, owner_missing, owner_not_admin, owner_role, Warning, owner_root_key,
}
use vault_plugin_secrets_tem.Backend.World.{
  Env, State, ask, note, store, get_config, client_config, drop_client, removed,
}
use vault_plugin_secrets_tem.Backend.Policy.{seconds}

positive_or : ℕ → ℤ → ℤ
positive_or d t = if leb_ℤ t (pos 0) then pos d else t

-- root_key_ttl: the stored one if the request omits it; not positive means the default.
unfoldable pub merged_root_key_ttl : Option Config → Option ℕ → ℤ
unfolding positive_or seconds
merged_root_key_ttl (some c) none = positive_or default_root_key_ttl c.root_key_ttl
merged_root_key_ttl none none = pos default_root_key_ttl
merged_root_key_ttl existing (some n) = positive_or default_root_key_ttl (seconds n)

text_or : String → String → String
text_or d t = if is_empty t then d else t

unfoldable pub merged_address : Option Config → Option String → String
unfolding text_or
merged_address (some c) none = text_or default_address c.address
merged_address none none = default_address
merged_address existing (some a) = text_or default_address a

unfoldable pub root_key_ttl_checks : ℤ → Outcome (Unit {0})
root_key_ttl_checks ttl =
    if ltb_ℤ (pos max_api_key_expiry) ttl
    then rejected (root_key_ttl_too_long ttl)
    else if ltb_ℤ ttl (pos min_api_key_expiry)
    then rejected (root_key_ttl_too_short ttl)
    else done tt

-- The checks on the request that need no call.
unfoldable pub request_checks : ConfigRequest → Outcome (Unit {0})
request_checks q =
    if is_empty q.api_key
    then rejected api_key_required
    else if q.has_api_key_id
    then rejected api_key_id_read_only
    else done tt

abbrev pub id_or_reject : Result String → Outcome String
id_or_reject (ok id) = done id
id_or_reject (err e) = rejected (not_an_api_key e)

unfoldable pub metadata_failure : Kind → Error → Outcome ApiKeyMetadata
metadata_failure Kind.not_found e = rejected api_key_rejected
metadata_failure Kind.permission_denied e = rejected api_key_rejected
metadata_failure _ e = respond_cloud_err "reading the supplied API key's owner" e

unfoldable pub metadata_or_reject : Result ApiKeyMetadata → Outcome ApiKeyMetadata
metadata_or_reject (ok m) = done m
metadata_or_reject (err e) = metadata_failure e.kind e

-- The owner of the key: a service account that Temporal Cloud names.
unfoldable pub owner_checks : String → ApiKeyMetadata → Outcome String
owner_checks supplied m = elim m.owner_type [
  | OwnerType.user ↦ rejected api_key_owned_by_user
  | OwnerType.unknown ↦ rejected unsupported_owner
  | OwnerType.service_account ↦
      if is_empty m.owner_id
      then rejected no_owner_id
      else if not (is_empty supplied) && not (supplied == m.owner_id)
      then rejected (wrong_owner supplied m.owner_id)
      else done m.owner_id
]

unfoldable pub admin_failure : Kind → String → Error → Outcome ServiceAccount
admin_failure Kind.not_found id e = rejected (owner_missing id)
admin_failure Kind.permission_denied id e = rejected (owner_not_admin id)
admin_failure _ id e = respond_cloud_err "validating the Temporal Cloud credential" e

unfoldable pub admin_or_reject : String → Result ServiceAccount → Outcome ServiceAccount
admin_or_reject id (ok sa) = done sa
admin_or_reject id (err e) = admin_failure e.kind id e

-- The role of the owner: admin, or owner with a warning.
unfoldable pub role_checks : String → String → Outcome (List Warning)
role_checks id role =
    if role == "admin"
    then done []
    else if role == "owner"
    then done (owner_root_key ∷ [])
    else rejected (owner_role id (if is_empty role then "unknown" else role))

-- What config returns on a read: everything but the key.
pub record ConfigView : Type 0 where
  pub admin_service_account_id : String
  pub api_key_id : String
  pub address : String
  pub root_key_ttl : ℤ

module _ {W : Type 0} (env : Env W) (ctx : Context) where
  -- The part of the write that asks Temporal Cloud with the credential under test.
  unfoldable pub prove_credential : String → Config → Handler (State W) (Config × List Warning)
  unfolding metadata_or_reject metadata_failure owner_checks admin_or_reject admin_failure
      role_checks
  prove_credential supplied cfg = do
    fetched ← ask (env.cloud.get_api_key (client_config cfg) ctx cfg.api_key_id)
    metadata ← lift (metadata_or_reject fetched)
    owner ← lift (owner_checks supplied metadata)
    read ← ask (env.cloud.get_service_account (client_config cfg) ctx owner)
    admin ← lift (admin_or_reject owner read)
    ws ← lift (role_checks owner admin.spec.account_role)
    pure (record cfg { admin_service_account_id = owner }, ws)

  unfoldable pub client_or_reject : Result (Unit {0}) → Outcome (Unit {0})
  client_or_reject (ok _) = done tt
  client_or_reject (err e) = rejected (cannot_build_client e)

  -- The configuration that the request asks for, its owner not known yet.
  unfoldable pub candidate : Option Config → ConfigRequest → Handler (State W) Config
  unfolding merged_root_key_ttl merged_address root_key_ttl_checks
  candidate existing q = do
    lift (root_key_ttl_checks (merged_root_key_ttl existing q.root_key_ttl))
    id ← lift (id_or_reject (api_key_id_from_token env.token_codec q.api_key))
    pure (record {
      api_key = q.api_key;
      api_key_id = id;
      admin_service_account_id = "";
      address = merged_address existing q.address;
      root_key_ttl = merged_root_key_ttl existing q.root_key_ttl;
    })

  unfoldable pub keep : Config × List Warning → Handler (State W) (List Warning)
  unfolding store
  keep (cfg, ws) = do
    stored ← store env env.config_codec config_storage_path cfg
    lift (or_fail stored)
    drop_client
    pure ws

  -- pathConfigWrite
  unfoldable pub path_config_write : ConfigRequest → Handler (State W) (List Warning)
  unfolding request_checks candidate client_or_reject prove_credential keep get_config
  path_config_write q = do
    lift (request_checks q)
    existing ← get_config env
    cfg ← candidate existing q
    made ← ask (env.new_client (client_config cfg))
    lift (client_or_reject made)
    proven ← prove_credential q.admin_service_account_id cfg
    keep proven

  view_of : Option Config → Option ConfigView
  view_of none = none
  view_of (some c) = some (record {
    admin_service_account_id = c.admin_service_account_id;
    api_key_id = c.api_key_id;
    address = c.address;
    root_key_ttl = whole_seconds c.root_key_ttl;
  })

  -- pathConfigRead
  unfoldable pub path_config_read : Handler (State W) (Option ConfigView)
  unfolding get_config view_of
  path_config_read = do cfg ← get_config env; pure (view_of cfg)

  -- pathConfigDelete
  unfoldable pub path_config_delete : Handler (State W) (Unit {0})
  path_config_delete = do
    gone ← note (removed config_storage_path) (env.storage_delete config_storage_path)
    lift (or_fail gone)
    drop_client

  -- configExists
  unfoldable pub config_exists : Handler (State W) Bool
  config_exists = do
    got ← ask (env.storage_get config_storage_path)
    raw ← lift (or_fail got)
    pure (is_some raw)
