-- ===== src/Backend/RootConfig/Proof.antt =====
-- pathConfigWrite of path_config.go: what must have been answered before a credential is stored.
use mathlib.Core.Path.{subst}
use vault_plugin_secrets_tem.Prelude.{String, ◌≡◌, refl, sym, ap, ◌∙◌, Option, List, ◌∷◌}
use vault_plugin_secrets_tem.Exec.{Result, ok, err, Context}
use vault_plugin_secrets_tem.Client.{ServiceAccount, ApiKeyMetadata}
use vault_plugin_secrets_tem.Client.Token.{api_key_id_from_token}
use vault_plugin_secrets_tem.Backend.Entries.{Config, ConfigRequest, config_storage_path}
use vault_plugin_secrets_tem.Backend.Handler.{
  past, stepped, or_fail-done, Outcome, done, ◌>>=◌, lift, or_fail, Warning,
}
use vault_plugin_secrets_tem.Backend.Handles.{reset_client}
use vault_plugin_secrets_tem.Backend.World.{
  Env, State, Codec, stored, load, decode_or_none, get_config, client_config, store,
}
use vault_plugin_secrets_tem.Backend.RootConfig.{
  request_checks, root_key_ttl_checks, merged_root_key_ttl, id_or_reject, metadata_or_reject,
  owner_checks, admin_or_reject, role_checks, client_or_reject, prove_credential, candidate, keep,
  path_config_write,
}
use vault_plugin_secrets_tem.Backend.RootConfig.Checks.{
  value_or, past_both, id_or_reject-done, metadata_or_reject-done, admin_or_reject-done, IsOwner,
  owner_checks-IsOwner, IsAdmin, role_checks-IsAdmin,
}

module _ {W : Type 0} (env : Env W) (ctx : Context) where
  -- A read of the storage changes the world alone.
  loaded :
      {A : Type 0} (codec : Codec A) (r : Result (Option String)) (o : Option A) (s s' : State W)
      → (lift (or_fail r) >>= λ raw. lift (decode_or_none codec raw)) s ≡ (done o, s')
      → s ≡ s'
  loaded codec (ok raw) o s s' h = ap (λ u. u.1) h
  loaded codec (err e) o s s' h = cc

  get_config-done :
      (o : Option Config) (s s' : State W)
      → get_config env s ≡ (done o, s')
      → record s { world = (env.storage_get config_storage_path s.world).1 } ≡ s'
  unfolding get_config load
  get_config-done o s s' h =
      let got = env.storage_get config_storage_path s.world in
      loaded env.config_codec got.0 o (record s { world = got.1 }) s' h

  -- What was answered about the credential of a configuration, from a world on.
  pub record Proven (supplied : String) (cfg : Config) (w : W) : Type 0 where
    pub key : ApiKeyMetadata
    pub key_read : (env.cloud.get_api_key (client_config cfg) ctx cfg.api_key_id w).0 ≡ ok key
    pub owner : IsOwner supplied key cfg.admin_service_account_id
    pub account : ServiceAccount
    pub account_read :
        (env.cloud.get_service_account
          (client_config cfg)
          ctx
          cfg.admin_service_account_id
          (env.cloud.get_api_key (client_config cfg) ctx cfg.api_key_id w).1).0
        ≡ ok account
    pub admin : IsAdmin account.spec.account_role

  -- The world after the two questions.
  abbrev pub questioned : Config → W → W
  questioned cfg w =
      (env.cloud.get_service_account (client_config cfg) ctx cfg.admin_service_account_id
        (env.cloud.get_api_key (client_config cfg) ctx cfg.api_key_id w).1).1

  prove_credential-Proven :
      (supplied : String) (cfg cfg' : Config) (ws : List Warning) (s s' : State W)
      → prove_credential env ctx supplied cfg s ≡ (done (cfg', ws), s')
      → (owner : String) × (cfg' ≡ record cfg { admin_service_account_id = owner })
        × Proven supplied (record cfg { admin_service_account_id = owner }) s.world
        × (s' ≡ record s {
          world = questioned (record cfg { admin_service_account_id = owner }) s.world;
        })
  unfolding prove_credential
  prove_credential-Proven supplied cfg cfg' ws s s' h =
      let fetched = env.cloud.get_api_key (client_config cfg) ctx cfg.api_key_id s.world in
      let (m, got, h₁) = past (metadata_or_reject fetched.0) _ (cfg', ws) _ s' h in
      let (owner, checks, h₂) = past (owner_checks supplied m) _ (cfg', ws) _ s' h₁ in
      let read = env.cloud.get_service_account (client_config cfg) ctx owner fetched.1 in
      let (sa, found, h₃) = past (admin_or_reject owner read.0) _ (cfg', ws) _ s' h₂ in
      let (ws', role, h₄) = past (role_checks owner sa.spec.account_role) _ (cfg', ws) _ s' h₃ in
      (
        owner,
        (let same : ◌≡◌ {A = Outcome (Config × List Warning)}
                (done (record cfg { admin_service_account_id = owner }, ws')) (done (cfg', ws)) =
              ap (λ u. u.0) h₄ in
            cc),
        record {
          key = m;
          key_read = metadata_or_reject-done fetched.0 m got;
          owner = owner_checks-IsOwner supplied owner m checks;
          account = sa;
          account_read = admin_or_reject-done owner read.0 sa found;
          admin = role_checks-IsAdmin owner sa.spec.account_role ws' role;
        },
        sym (ap (λ u. u.1) h₄),
      )

  candidate-done :
      (existing : Option Config) (q : ConfigRequest) (cfg : Config) (s s' : State W)
      → candidate env ctx existing q s ≡ (done cfg, s')
      → (cfg.api_key ≡ q.api_key)
        × (api_key_id_from_token env.token_codec q.api_key ≡ ok cfg.api_key_id)
        × (s ≡ s')
  unfolding candidate
  candidate-done existing q cfg s s' h =
      let (_, checks, h₁) =
        past (root_key_ttl_checks (merged_root_key_ttl existing q.root_key_ttl)) _ cfg s s' h in
      let (id, got, h₂) =
        past (id_or_reject (api_key_id_from_token env.token_codec q.api_key)) _ cfg s s' h₁ in
      (
        sym (ap (λ u. (value_or cfg u.0).api_key) h₂),
        id_or_reject-done (api_key_id_from_token env.token_codec q.api_key) id got
            ∙ ap (λ u. ok (value_or cfg u.0).api_key_id) h₂,
        ap (λ u. u.1) h₂,
      )

  -- The configuration was put, and the put worked; the cached client is dropped.
  pub record Kept (cfg : Config) (s s' : State W) : Type 0 where
    pub raw : String
    pub encoded : env.config_codec.encode cfg ≡ ok raw
    pub put : (env.storage_put config_storage_path raw s.world).0 ≡ ok tt
    pub traced : s'.trace ≡ stored config_storage_path raw (ok tt) ∷ s.trace
    pub dropped : s'.handles ≡ reset_client s.handles

  keep-Kept :
      (cfg : Config) (ws ws' : List Warning) (s s' : State W)
      → keep env ctx (cfg, ws) s ≡ (done ws', s')
      → Kept cfg s s'
  unfolding keep store
  keep-Kept cfg ws ws' s s' h =
      let (raw, encoded, h₁) = past_both (env.config_codec.encode cfg) _ _ ws' s s' h in
      let put = env.storage_put config_storage_path raw s.world in
      let (x, worked, h₂) = past (or_fail put.0) _ ws' _ s' h₁ in
      record {
        raw = raw;
        encoded = encoded;
        put = or_fail-done put.0 x worked;
        traced =
            sym (ap (λ u. u.1.trace) h₂)
            ∙ ap (λ u. stored config_storage_path raw u ∷ s.trace) (or_fail-done put.0 x worked);
        dropped = sym (ap (λ u. u.1.handles) h₂);
      }

  prove_and_keep :
      (supplied : String) (cfg : Config) (ws : List Warning) (s s' : State W)
      → (prove_credential env ctx supplied cfg >>= λ proven. keep env ctx proven) s ≡ (done ws, s')
      → (cfg' : Config) × (cfg'.api_key ≡ cfg.api_key)
        × (cfg'.api_key_id ≡ cfg.api_key_id)
        × Proven supplied cfg' s.world
        × Kept cfg' (record s { world = questioned cfg' s.world }) s'
  prove_and_keep supplied cfg ws s s' h =
      let (proven, s₁, h₁, h₂) =
        stepped (prove_credential env ctx supplied cfg) (λ proven. keep env ctx proven) ws s s' h in
      let (owner, same, facts, moved) =
        prove_credential-Proven supplied cfg proven.0 proven.1 s s₁ h₁ in
      let kept = keep-Kept proven.0 proven.1 ws s₁ s' h₂ in
      (
        record cfg { admin_service_account_id = owner },
        refl,
        refl,
        facts,
        subst (λ t. Kept (record cfg { admin_service_account_id = owner }) t s') moved
            (subst (λ c. Kept c s₁ s') same kept),
      )

  -- What a configuration write that responds rests on, and what it did.
  pub record Accepted (q : ConfigRequest) (s s' : State W) : Type 0 where
    pub cfg : Config
    pub w : W
    pub own_key : cfg.api_key ≡ q.api_key
    pub own_id : api_key_id_from_token env.token_codec q.api_key ≡ ok cfg.api_key_id
    pub proven : Proven q.admin_service_account_id cfg w
    pub kept : Kept cfg (record s { world = questioned cfg w }) s'

  -- A write of the configuration that responds asked Temporal Cloud, with a client built from the
  -- very key and address that it stores: for the key by the ID in its token, which was answered by a
  -- key that a service account owns, the one the operator named if any; and then for that service
  -- account, which was answered with the role admin or owner. Only after both answers did it put this
  -- configuration with the owner found, the put worked, it is the only call that changed anything,
  -- and the cached client was dropped.
  pub path_config_write-Accepted :
      (q : ConfigRequest) (ws : List Warning) (s s' : State W)
      → path_config_write env ctx q s ≡ (done ws, s')
      → Accepted q s s'
  unfolding path_config_write
  path_config_write-Accepted q ws s s' h =
      let (_, _, h₁) = past (request_checks q) _ ws s s' h in
      let (existing, s₁, h₂, h₃) = stepped (get_config env) _ ws s s' h₁ in
      let (cfg, s₂, h₄, h₅) = stepped (candidate env ctx existing q) _ ws s₁ s' h₃ in
      let (key, id, unmoved) = candidate-done existing q cfg s₁ s₂ h₄ in
      let read = get_config-done existing s s₁ h₂ ∙ unmoved in
      let w = (env.new_client (client_config cfg) s₂.world).1 in
      let (_, _, h₆) =
        past (client_or_reject env ctx (env.new_client (client_config cfg) s₂.world).0) _ ws _ s'
          h₅ in
      let (cfg', key', id', facts, kept) =
        prove_and_keep q.admin_service_account_id cfg ws (record s₂ { world = w }) s' h₆ in
      record {
        cfg = cfg';
        w = w;
        own_key = key' ∙ key;
        own_id = id ∙ ap ok (sym id');
        proven = facts;
        kept = subst (λ t. Kept cfg' (record t { world = questioned cfg' w }) s') (sym read) kept;
      }
