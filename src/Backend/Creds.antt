-- ===== src/Backend/Creds.antt =====
-- creds/<name>: the minting of an API key (path_creds.go).
pub mod Issuance
pub mod Read
use Prim.Native.String.{◌++◌}
use vault_plugin_secrets_tem.Prelude.{
  ℕ, ◌+◌, String, Bool, true, false, Option, none, some, List, [], ◌∷◌, ltb, if◌then◌else◌,
}
use vault_plugin_secrets_tem.Prelude.Int.{ℤ, pos, pos_part, ltb_ℤ, add64}
use vault_plugin_secrets_tem.Prelude.Text.{is_empty}
use vault_plugin_secrets_tem.Exec.{Result, ok, err, Context, with_timeout}
use vault_plugin_secrets_tem.Client.{
  ClientConfig, ApiKey, ApiKeySpec, Created, created, not_created, unconfirmed,
  max_api_keys_per_service_account, min_api_key_expiry,
}
use vault_plugin_secrets_tem.Backend.Entries.{
  ServiceAccountEntry, ProbeConfig, Value, text, api_key_expiry_grace,
}
use vault_plugin_secrets_tem.Backend.Handler.{
  done, Handler, ◌>>=◌, ◌>>◌, pure, reject, lift, reject_if, respond_cloud_err, no_such_entry,
  at_capacity, Warning, Response,
}
use vault_plugin_secrets_tem.Backend.World.{
  Env, State, ask, note, get_time, with_client, key_created, key_deleted,
}
use vault_plugin_secrets_tem.Backend.Accounts.{get_service_account}
use vault_plugin_secrets_tem.Backend.Probing.{
  default_probe_config, get_probe_config, verify_propagation, credential_request_timeout,
}

-- The response of a mint: what the caller gets, and what Vault keeps with the lease.
pub record Credential : Type 0 where
  pub api_key : String
  pub api_key_id : String
  pub service_account_id : String
  pub service_account_name : String
  pub expires_at : String
  pub internal_data : List (String × Value)
  pub ttl : ℤ
  pub max_ttl : ℤ

-- checkAPIKeyCapacity
abbrev pub is_at_capacity : ℕ → Bool
is_at_capacity count = if ltb count max_api_keys_per_service_account then false else true

-- The lifetime asked of Temporal Cloud: max_ttl and the grace, an int64 sum, floored.
unfoldable pub key_lifetime : ℤ → ℤ
key_lifetime max_ttl =
    let lifetime = add64 max_ttl (pos api_key_expiry_grace) in
    if ltb_ℤ lifetime (pos (min_api_key_expiry + api_key_expiry_grace))
    then pos (min_api_key_expiry + api_key_expiry_grace)
    else lifetime

-- time.Now().Add(keyLifetime); the floor makes the lifetime positive.
unfoldable pub key_expiry_at : ℕ → ℤ → ℕ
unfolding key_lifetime
key_expiry_at now max_ttl = now + pos_part (key_lifetime max_ttl)

-- apiKeyDisplayName
display_name : String → Option String → String
display_name name none = "vault-" ++ name
display_name name (some suffix) = "vault-" ++ (name ++ ("-" ++ suffix))

module _ {W : Type 0} (env : Env W) (ctx : Context) where
  unfoldable pub delete_key : ClientConfig → String → Handler (State W) (Result (Unit {0}))
  delete_key c id = note (key_deleted c id) (env.cloud.delete_api_key c ctx id)

  suffix : Handler (State W) (Option String)
  suffix s = let (r, w) = env.random_suffix s.world in (done r, record s { world = w })

  key_spec : String → String → ServiceAccountEntry → ℕ → Option String → ApiKeySpec
  key_spec name mount entry expiry random = record {
    service_account_id = entry.service_account_id;
    display_name = display_name name random;
    description = "Issued by Vault mount " ++ (mount ++ (" for " ++ name));
    expiry_time = some expiry;
  }

  -- The result of the create: a key that is not handed out is deleted.
  unfoldable pub minted : ClientConfig → String → Created ApiKey → Handler (State W) ApiKey
  unfolding delete_key
  minted c op (created key) = pure key
  minted c op (not_created e) = lift (respond_cloud_err op e)
  minted c op (unconfirmed key e) =
      if is_empty key.id
      then lift (respond_cloud_err op e)
      else do _ ← delete_key c key.id; lift (respond_cloud_err op e)

  -- The count of the keys in use, checked before anything is created.
  capacity_checked : String → ServiceAccountEntry → Result ℕ → Handler (State W) (Unit {0})
  capacity_checked name entry (ok count) =
      reject_if (is_at_capacity count) (at_capacity name count entry.ttl)
  capacity_checked name entry (err e) =
      lift (respond_cloud_err ("counting existing API keys for " ++ name) e)

  unfoldable pub check_capacity :
      ClientConfig → String → ServiceAccountEntry → Handler (State W) (Unit {0})
  unfolding capacity_checked
  check_capacity c name entry =
      ask (env.cloud.count_api_keys c ctx entry.service_account_id) >>= capacity_checked name entry

  unfoldable pub mint :
      ClientConfig → String → String → ServiceAccountEntry → ℕ → Handler (State W) ApiKey
  unfolding suffix key_spec display_name minted
  mint c name mount entry expiry = do
    random ← suffix
    key ←
        note (key_created c (key_spec name mount entry expiry random))
          (env.cloud.create_api_key c ctx (key_spec name mount entry expiry random))
    minted c ("minting an API key for " ++ name) key

  unfoldable pub credential : String → ServiceAccountEntry → ℕ → ApiKey → Credential
  credential name entry expiry key = record {
    api_key = key.token;
    api_key_id = key.id;
    service_account_id = entry.service_account_id;
    service_account_name = name;
    expires_at = env.format_time expiry;
    internal_data =
        ("api_key_id", text key.id)
        ∷ ("api_key_expires_at", text (env.format_time expiry))
        ∷ ("service_account_name", text name)
        ∷ [];
    ttl = entry.ttl;
    max_ttl = entry.max_ttl;
  }

  verify : ServiceAccountEntry → String → ProbeConfig → Handler (State W) (List Warning)
  unfolding verify_propagation
  verify entry token settings =
      if entry.verify_propagation then verify_propagation env ctx entry token settings else pure []

  unfoldable pub issue :
      String
      → String
      → ServiceAccountEntry
      → ProbeConfig
      → ClientConfig
      → Handler (State W) (Response Credential)
  unfolding check_capacity mint credential verify key_expiry_at
  issue name mount entry settings c = do
    check_capacity c name entry
    now ← get_time env
    key ← mint c name mount entry (key_expiry_at now entry.max_ttl)
    ws ← verify entry key.token settings
    pure (record {
      body = credential name entry (key_expiry_at now entry.max_ttl) key;
      warnings = ws;
    })

  settings_for : ServiceAccountEntry → Handler (State W) ProbeConfig
  unfolding get_probe_config
  settings_for entry =
      if entry.verify_propagation then get_probe_config env else pure default_probe_config

  issue_for : String → String → Option ServiceAccountEntry → Handler (State W) (Response Credential)
  unfolding settings_for issue with_client
  issue_for name mount none = reject (no_such_entry name)
  issue_for name mount (some entry) = do
    settings ← settings_for entry
    with_client env (issue name mount entry settings)

  -- pathCredsRead, on the context of credentialRequestContext.
  unfoldable pub creds_within : String → String → Handler (State W) (Response Credential)
  unfolding get_service_account issue_for
  creds_within name mount = get_service_account env ctx name >>= issue_for name mount

-- pathCredsRead
unfoldable pub path_creds_read :
    {W : Type 0} → Env W → Context → String → String → Handler (State W) (Response Credential)
unfolding creds_within
path_creds_read env ctx name mount = do
  now ← get_time env
  creds_within env (with_timeout ctx credential_request_timeout now) name mount
