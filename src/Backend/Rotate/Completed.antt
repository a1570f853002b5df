-- ===== src/Backend/Rotate/Completed.antt =====
-- What a rotation that responds has done (pathRotateRootWrite), with the answers that it got.
use mathlib.Core.List.{append_assoc}
use vault_plugin_secrets_tem.Prelude.{
  String, ◌≡◌, refl, sym, ap, ◌∙◌, some, none, List, [], ◌∷◌, ◌++◌,
}
use vault_plugin_secrets_tem.Exec.{ok, Context}
use vault_plugin_secrets_tem.Client.{ClientConfig, ServiceAccount, ApiKey, ApiKeySpec, created}
use vault_plugin_secrets_tem.Backend.Entries.{Config, config_storage_path}
use vault_plugin_secrets_tem.Backend.Handler.{done, continue, Warning, stepped}
use vault_plugin_secrets_tem.Backend.Handles.{release_at}
use vault_plugin_secrets_tem.Backend.World.{
  Env, State, Event, key_created, stored, client_config, get_config, get_client, with_client,
}
use vault_plugin_secrets_tem.Backend.World.Trace.{Emits-get_config, Emits-get_client}
use vault_plugin_secrets_tem.Backend.Rotate.{
  with_key, mint_root, verify_key, store_key, rotate_with, rotate_config, path_rotate_root_write,
}
use vault_plugin_secrets_tem.Backend.Rotate.Steps.{
  Retired, mint_root-done, verify_key-done, store_key-done, delete_previous-done,
}

module _ {W : Type 0} (env : Env W) (ctx : Context) where
  -- A rotation of the root key of a configuration, from the creation of the new key on.
  pub record Rotated (cfg : Config) (ws : List Warning) (calls : List Event) : Type 0 where
    pub client : ClientConfig
    pub spec : ApiKeySpec
    pub key : ApiKey
    pub raw : String
    pub last : List Event
    pub account : ServiceAccount
    pub started : W
    pub at_mint : W
    pub at_build : W
    pub at_read : W
    pub at_put : W
    pub for_admin : spec.service_account_id ≡ cfg.admin_service_account_id
    pub made : env.cloud.create_api_key client ctx spec started ≡ (created key, at_mint)
    pub built : env.new_client (client_config (with_key cfg key)) at_mint ≡ (ok tt, at_build)
    pub read :
        env.cloud.get_service_account
          (client_config (with_key cfg key))
          ctx
          cfg.admin_service_account_id
          at_build
        ≡ (ok account, at_read)
    pub encoded : env.config_codec.encode (with_key cfg key) ≡ ok raw
    pub put : env.storage_put config_storage_path raw at_read ≡ (ok tt, at_put)
    pub retired : Retired env ctx cfg key ws at_put last
    pub in_order :
        calls
        ≡ last
          ++ stored config_storage_path raw (ok tt) ∷ key_created client spec (created key) ∷ []

  -- From the state `s` to the state `s'` the calls are those of a rotation, and the backend has no
  -- current client at the end.
  abbrev pub Completes : Config → List Warning → State W → State W → Type 0
  Completes cfg ws s s' =
      (calls : List Event) × Rotated cfg ws calls
      × (s'.trace ≡ calls ++ s.trace)
      × (s'.handles.current ≡ none)

  rotate_with-Completes :
      (cfg : Config) (c : ClientConfig) (ws : List Warning) (s s' : State W)
      → rotate_with env ctx cfg c s ≡ (done ws, s')
      → Completes cfg ws s s'
  unfolding rotate_with
  rotate_with-Completes cfg c ws s s' h =
      let (key, t₁, h₁, g₁) = stepped (mint_root env ctx c cfg) _ ws s s' h in
      let (x₂, t₂, h₂, g₂) = stepped (verify_key env ctx c cfg key) _ ws t₁ s' g₁ in
      let (x₃, t₃, h₃, g₃) = stepped (store_key env ctx cfg key) _ ws t₂ s' g₂ in
      let (spec, for_admin, made, traced₁) = mint_root-done env ctx c cfg key s t₁ h₁ in
      let (w, account, built, read, traced₂) = verify_key-done env ctx c cfg key x₂ t₁ t₂ h₂ in
      let (raw, encoded, put, traced₃, forgotten) = store_key-done env ctx cfg key x₃ t₂ t₃ h₃ in
      let (last, retired, traced₄, kept) = delete_previous-done env ctx cfg key ws t₃ s' g₃ in
      let middle = stored config_storage_path raw (ok tt) ∷ key_created c spec (created key) ∷ [] in
      (
        last ++ middle,
        record {
          client = c;
          spec = spec;
          key = key;
          raw = raw;
          last = last;
          account = account;
          started = s.world;
          at_mint = t₁.world;
          at_build = w;
          at_read = t₂.world;
          at_put = t₃.world;
          for_admin = for_admin;
          made = made;
          built = built;
          read = read;
          encoded = encoded;
          put = put;
          retired = retired;
          in_order = refl;
        },
        traced₄
            ∙ ap (λ l. last ++ l)
                (traced₃ ∙ ap (λ l. stored config_storage_path raw (ok tt) ∷ l) (traced₂ ∙ traced₁))
            ∙ sym (append_assoc last middle s.trace),
        kept ∙ forgotten,
      )

  with_client-Completes :
      (cfg : Config) (ws : List Warning) (s s' : State W)
      → with_client env (rotate_with env ctx cfg) s ≡ (done ws, s')
      → Completes cfg ws s s'
  unfolding with_client release_at
  with_client-Completes cfg ws s s' h =
      let (at, s₁, acquired, g) = stepped (get_client env) _ ws s s' h in
      let (e, traced, quiet) = (Emits-get_client env).at s in
      let ran = rotate_with env ctx cfg at.1 s₁ in
      let (calls, rotated, added, forgotten) =
        rotate_with-Completes cfg at.1 ws s₁ ran.1 (ap (λ u. (u.0, ran.1)) g) in
      let start = sym (ap (λ u. u.1.trace) acquired) ∙ traced ∙ ap (λ l. l ++ s.trace) quiet in
      (
        calls,
        rotated,
        sym (ap (λ u. u.1.trace) g) ∙ added ∙ ap (λ l. calls ++ l) start,
        sym (ap (λ u. u.1.handles.current) g) ∙ forgotten,
      )

  -- A request that responds, for the configuration that is stored when it starts, made a new key for
  -- the configuration's service account with some client; built a client with this key alone, and
  -- read the admin service account with it; then put the configuration with this key and its ID in
  -- the place of the old ones, and the put worked; then deleted the old key with the new key's
  -- client, if its ID is known; and made no other call that changes anything. Each call was made in
  -- the state in which the call before it left the world. The backend has no current client
  -- afterwards, and the warnings say exactly whether the old key's ID was unknown or its delete failed.
  pub path_rotate_root_write-Completes :
      (cfg : Config) (ws : List Warning) (s s' : State W)
      → (get_config env s).0 ≡ done (some cfg)
      → path_rotate_root_write env ctx s ≡ (done ws, s')
      → Completes cfg ws s s'
  unfolding path_rotate_root_write rotate_config
  path_rotate_root_write-Completes cfg ws s s' known h =
      let (e, traced, quiet) = (Emits-get_config env).at s in
      let s₁ = (get_config env s).1 in
      let g : rotate_config env ctx (some cfg) s₁ ≡ (done ws, s') =
        ap (λ u. continue u (rotate_config env ctx) s₁) (sym known) ∙ h in
      let (calls, rotated, added, forgotten) = with_client-Completes cfg ws s₁ s' g in
      let start = traced ∙ ap (λ l. l ++ s.trace) quiet in
      (calls, rotated, added ∙ ap (λ l. calls ++ l) start, forgotten)
