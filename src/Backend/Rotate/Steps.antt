-- ===== src/Backend/Rotate/Steps.antt =====
-- What each step of a rotation has done where it succeeds (pathRotateRootWrite), with the answers that
-- it got.
use vault_plugin_secrets_tem.Prelude.{
  String, ◌≡◌, refl, sym, ap, ◌∙◌, ◌⊎◌, inl, inr, true, false, none, List, [], ◌∷◌, ◌++◌,
  Bool-cases, Option-cases,
}
use vault_plugin_secrets_tem.Prelude.Text.{is_empty}
use vault_plugin_secrets_tem.Exec.{Result, ok, err, Context}
use vault_plugin_secrets_tem.Client.{
  ClientConfig, ServiceAccount, ApiKey, ApiKeySpec, Created, created, not_created, unconfirmed,
}
use vault_plugin_secrets_tem.Backend.Entries.{Config, config_storage_path}
use vault_plugin_secrets_tem.Backend.Handler.{done, Warning, previous_key_unknown, past}
use vault_plugin_secrets_tem.Backend.Handles.{Handles, reset_client, drop_current, retire_dropped}
use vault_plugin_secrets_tem.Backend.World.{
  Env, State, Event, key_created, key_deleted, stored, client_config, store,
}
use vault_plugin_secrets_tem.Backend.Creds.{minted, delete_key}
use vault_plugin_secrets_tem.Backend.RootConfig.Checks.{past_both, respond_cloud_err-done}
use vault_plugin_secrets_tem.Backend.Rotate.{
  with_key, deletion_warnings, root_key_spec, mint_root, verified, read_admin, verify_key,
  built_or_fail, stored_or_fail, settle_store, store_key, delete_previous,
}

reset_client-current : (hs : Handles) → (reset_client hs).current ≡ none
unfolding reset_client drop_current retire_dropped
reset_client-current hs = elim (Option-cases hs.current) [
  | inl nothing ↦ rw nothing refl
  | inr (i, now) ↦ rw now refl
]

built_or_fail-done : (r : Result (Unit {0})) (x : Unit {0}) → built_or_fail r ≡ done x → r ≡ ok tt
unfolding built_or_fail
built_or_fail-done (ok y) x h = refl
built_or_fail-done (err e) x h = cc

stored_or_fail-done : (r : Result (Unit {0})) (x : Unit {0}) → stored_or_fail r ≡ done x → r ≡ ok tt
unfolding stored_or_fail
stored_or_fail-done (ok y) x h = refl
stored_or_fail-done (err e) x h = cc

module _ {W : Type 0} (env : Env W) (ctx : Context) where
  minted-done :
      (c : ClientConfig) (op : String) (r : Created ApiKey) (key : ApiKey) (s t : State W)
      → minted env ctx c op r s ≡ (done key, t)
      → (r ≡ created key) × (s ≡ t)
  unfolding minted delete_key
  minted-done c op (created k) key s t h =
      let same : done k ≡ done key = ap (λ u. u.0) h in (cc, ap (λ u. u.1) h)
  minted-done c op (not_created e) key s t h = respond_cloud_err-done op e key (ap (λ u. u.0) h)
  minted-done c op (unconfirmed k e) key s t h = elim (Bool-cases (is_empty k.id)) [
    | inl nameless ↦ respond_cloud_err-done op e key (ap (λ u. u.0) (rw nameless at h))
    | inr named ↦ respond_cloud_err-done op e key (ap (λ u. u.0) (rw named at h))
  ]

  pub mint_root-done :
      (c : ClientConfig) (cfg : Config) (key : ApiKey) (s t : State W)
      → mint_root env ctx c cfg s ≡ (done key, t)
      → (spec : ApiKeySpec) × (spec.service_account_id ≡ cfg.admin_service_account_id)
        × (env.cloud.create_api_key c ctx spec s.world ≡ (created key, t.world))
        × (t.trace ≡ key_created c spec (created key) ∷ s.trace)
  unfolding mint_root root_key_spec
  mint_root-done c cfg key s t h =
      let spec = root_key_spec env ctx cfg (env.now s.world) in
      let made = env.cloud.create_api_key c ctx spec s.world in
      let (got, same) =
        minted-done c "minting a replacement root API key" made.0 key
          (record s { world = made.1; trace = key_created c spec made.0 ∷ s.trace }) t h in
      (
        spec,
        refl,
        ap (λ u. (u, made.1)) got ∙ ap (λ u. (created key, u.world)) same,
        sym (ap (λ u. u.trace) same) ∙ ap (λ u. key_created c spec u ∷ s.trace) got,
      )

  verified-done :
      (c : ClientConfig) (key : ApiKey) (r : Result ServiceAccount) (x : Unit {0}) (s t : State W)
      → verified env ctx c key r s ≡ (done x, t)
      → (account : ServiceAccount) × (r ≡ ok account) × (s ≡ t)
  unfolding verified delete_key
  verified-done c key (ok account) x s t h = (account, refl, ap (λ u. u.1) h)
  verified-done c key (err e) x s t h = cc

  -- The new key's own client was built, and it read the admin service account.
  pub verify_key-done :
      (c : ClientConfig) (cfg : Config) (key : ApiKey) (x : Unit {0}) (s t : State W)
      → verify_key env ctx c cfg key s ≡ (done x, t)
      → (w : W) × (account : ServiceAccount) × (env.new_client
            (client_config (with_key cfg key))
            s.world
          ≡ (ok tt, w))
        × (env.cloud.get_service_account
              (client_config (with_key cfg key))
              ctx
              cfg.admin_service_account_id
              w
            ≡ (ok account, t.world))
        × (t.trace ≡ s.trace)
  unfolding verify_key read_admin
  verify_key-done c cfg key x s t h =
      let mine = client_config (with_key cfg key) in
      let built = env.new_client mine s.world in
      let (y, made, h₁) = past (built_or_fail built.0) _ x (record s { world = built.1 }) t h in
      let read = env.cloud.get_service_account mine ctx cfg.admin_service_account_id built.1 in
      let (account, found, same) =
        verified-done c key read.0 x (record s { world = read.1 }) t h₁ in
      (
        built.1,
        account,
        ap (λ u. (u, built.1)) (built_or_fail-done built.0 y made),
        ap (λ u. (u, read.1)) found ∙ ap (λ u. (ok account, u.world)) same,
        sym (ap (λ u. u.trace) same),
      )

  -- The configuration with the new key was put, and the cached client dropped.
  pub store_key-done :
      (cfg : Config) (key : ApiKey) (x : Unit {0}) (s t : State W)
      → store_key env ctx cfg key s ≡ (done x, t)
      → (raw : String) × (env.config_codec.encode (with_key cfg key) ≡ ok raw)
        × (env.storage_put config_storage_path raw s.world ≡ (ok tt, t.world))
        × (t.trace ≡ stored config_storage_path raw (ok tt) ∷ s.trace)
        × (t.handles.current ≡ none)
  unfolding store_key store settle_store
  store_key-done cfg key x s t h =
      let (raw, encoded, h₁) = past_both (env.config_codec.encode (with_key cfg key)) _ _ x s t h in
      let put = env.storage_put config_storage_path raw s.world in
      let (y, worked, h₂) = past (stored_or_fail put.0) _ x _ t h₁ in
      let answer = stored_or_fail-done put.0 y worked in
      (
        raw,
        encoded,
        ap (λ u. (u, put.1)) answer ∙ ap (λ u. (ok tt, u.1.world)) h₂,
        sym (ap (λ u. u.1.trace) h₂) ∙ ap (λ u. stored config_storage_path raw u ∷ s.trace) answer,
        sym (ap (λ u. u.1.handles.current) h₂) ∙ reset_client-current s.handles,
      )

  -- What became of the previous key: its ID is not known, which is a warning, or it was deleted with
  -- the new key's client, and an error of this is a warning.
  abbrev pub Retired : Config → ApiKey → List Warning → W → List Event → Type 0
  Retired cfg key ws w events =
      ((is_empty cfg.api_key_id ≡ true) × (ws ≡ previous_key_unknown ∷ []) × (events ≡ []))
      ⊎ ((is_empty cfg.api_key_id ≡ false)
          × ((r : Result (Unit {0})) × ((env.cloud.delete_api_key (client_config (with_key cfg key))
                  ctx cfg.api_key_id w).0
                ≡ r)
              × (ws ≡ deletion_warnings cfg.api_key_id r)
              × (events ≡ key_deleted (client_config (with_key cfg key)) cfg.api_key_id r ∷ [])))

  pub delete_previous-done :
      (cfg : Config) (key : ApiKey) (ws : List Warning) (s t : State W)
      → delete_previous env ctx cfg key s ≡ (done ws, t)
      → (last : List Event) × Retired cfg key ws s.world last
        × (t.trace ≡ last ++ s.trace)
        × (t.handles.current ≡ s.handles.current)
  unfolding delete_previous delete_key
  delete_previous-done cfg key ws s t h = elim (Bool-cases (is_empty cfg.api_key_id)) [
    | inl unknown ↦
        let h' = rw unknown at h in
        let same : done (previous_key_unknown ∷ []) ≡ done ws = ap (λ u. u.0) h' in
        (
          [],
          inl (unknown, cc, refl),
          sym (ap (λ u. u.1.trace) h'),
          sym (ap (λ u. u.1.handles.current) h'),
        )
    | inr known ↦
        let h' = rw known at h in
        let mine = client_config (with_key cfg key) in
        let r = (env.cloud.delete_api_key mine ctx cfg.api_key_id s.world).0 in
        let same : done (deletion_warnings cfg.api_key_id r) ≡ done ws = ap (λ u. u.0) h' in
        (
          key_deleted mine cfg.api_key_id r ∷ [],
          inr (known, (r, refl, cc, refl)),
          sym (ap (λ u. u.1.trace) h'),
          sym (ap (λ u. u.1.handles.current) h'),
        )
  ]
