-- ===== src/Backend/Rotate.antt =====
-- config/rotate-root (path_rotate_root.go): mint, verify, store, delete, in this order. The handler
-- holds rotateMu throughout, so rotations do not interleave.
pub mod Order
pub mod Steps
pub mod Completed
use Prim.Native.String.{◌++◌}
use vault_plugin_secrets_tem.Prelude.{
  ℕ, ◌+◌, ◌/◌, String, Option, none, some, List, [], ◌∷◌, if◌then◌else◌,
}
use vault_plugin_secrets_tem.Prelude.Int.{pos_part}
use vault_plugin_secrets_tem.Prelude.Text.{is_empty, decimal}
use vault_plugin_secrets_tem.Exec.{Result, ok, err, Context, second}
use vault_plugin_secrets_tem.Client.{ClientConfig, ServiceAccount, ApiKey, ApiKeySpec}
use vault_plugin_secrets_tem.Client.Errors.{Error, wrap}
use vault_plugin_secrets_tem.Backend.Entries.{Config, config_storage_path}
use vault_plugin_secrets_tem.Backend.Handler.{
  Outcome, done, failed, Handler, ◌>>=◌, ◌>>◌, pure, reject, lift, not_configured,
  verification_failed, Warning, previous_key_unknown, previous_key_not_deleted,
}
use vault_plugin_secrets_tem.Backend.World.{
  Env, State, ask, note, store, get_config, client_config, drop_client, get_time, with_client,
  key_created,
}
use vault_plugin_secrets_tem.Backend.Creds.{delete_key, minted}

abbrev pub deletion_warnings : String → Result (Unit {0}) → List Warning
deletion_warnings id (ok _) = []
deletion_warnings id (err e) = previous_key_not_deleted id e ∷ []

abbrev pub with_key : Config → ApiKey → Config
with_key cfg key = record cfg { api_key = key.token; api_key_id = key.id }

abbrev wrapped : Error → Outcome (Unit {0})
wrapped e = failed (wrap "building a client for the new root key" e)

unfoldable pub stored_or_fail : Result (Unit {0}) → Outcome (Unit {0})
stored_or_fail (ok _) = done tt
stored_or_fail (err e) = failed (wrap "storing the new root credential" e)

unfoldable pub built_or_fail : Result (Unit {0}) → Outcome (Unit {0})
built_or_fail (ok _) = done tt
built_or_fail (err e) = wrapped e

module _ {W : Type 0} (env : Env W) (ctx : Context) where
  root_key_spec : Config → ℕ → ApiKeySpec
  root_key_spec cfg now = record {
    service_account_id = cfg.admin_service_account_id;
    display_name = "vault-root-" ++ decimal (now / second);
    description = "Vault root credential for the Temporal Cloud secrets engine";
    expiry_time = some (now + pos_part cfg.root_key_ttl);
  }

  -- Step 1.
  unfoldable pub mint_root : ClientConfig → Config → Handler (State W) ApiKey
  unfolding root_key_spec minted
  mint_root c cfg = do
    now ← get_time env
    key ←
        note (key_created c (root_key_spec cfg now))
          (env.cloud.create_api_key c ctx (root_key_spec cfg now))
    minted env ctx c "minting a replacement root API key" key

  unfoldable pub verified :
      ClientConfig → ApiKey → Result ServiceAccount → Handler (State W) (Unit {0})
  unfolding delete_key
  verified c key (ok sa) = pure tt
  verified c key (err e) = do _ ← delete_key env ctx c key.id; reject (verification_failed e)

  unfoldable pub read_admin :
      ClientConfig → Config → ApiKey → Result (Unit {0}) → Handler (State W) (Unit {0})
  unfolding verified built_or_fail
  read_admin c cfg key made = do
    lift (built_or_fail made)
    read ← ask (
        env.cloud.get_service_account (client_config (with_key cfg key)) ctx
          cfg.admin_service_account_id)
    verified c key read

  -- Step 2: the new key is used to read the admin service account.
  unfoldable pub verify_key : ClientConfig → Config → ApiKey → Handler (State W) (Unit {0})
  unfolding read_admin
  verify_key c cfg key =
      ask (env.new_client (client_config (with_key cfg key))) >>= read_admin c cfg key

  unfoldable pub settle_store : Result (Unit {0}) → Handler (State W) (Unit {0})
  unfolding stored_or_fail
  settle_store stored = do lift (stored_or_fail stored); drop_client

  -- Step 3.
  unfoldable pub store_key : Config → ApiKey → Handler (State W) (Unit {0})
  unfolding store settle_store
  store_key cfg key =
      store env env.config_codec config_storage_path (with_key cfg key) >>= settle_store

  -- Step 4, with the new key's own client.
  unfoldable pub delete_previous : Config → ApiKey → Handler (State W) (List Warning)
  unfolding delete_key
  delete_previous cfg key = if is_empty cfg.api_key_id then pure (previous_key_unknown ∷ []) else do
    deleted ← delete_key env ctx (client_config (with_key cfg key)) cfg.api_key_id
    pure (deletion_warnings cfg.api_key_id deleted)

  unfoldable pub rotate_with : Config → ClientConfig → Handler (State W) (List Warning)
  unfolding mint_root verify_key store_key delete_previous
  rotate_with cfg c = do
    key ← mint_root c cfg
    verify_key c cfg key
    store_key cfg key
    delete_previous cfg key

  unfoldable pub rotate_config : Option Config → Handler (State W) (List Warning)
  unfolding rotate_with with_client
  rotate_config none = reject not_configured
  rotate_config (some cfg) = with_client env (rotate_with cfg)

  -- pathRotateRootWrite
  unfoldable pub path_rotate_root_write : Handler (State W) (List Warning)
  unfolding get_config rotate_config
  path_rotate_root_write = get_config env >>= rotate_config
