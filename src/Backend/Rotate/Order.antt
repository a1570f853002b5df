-- ===== src/Backend/Rotate/Order.antt =====
-- The order of the calls of a rotation of the root key (pathRotateRootWrite).
use mathlib.Core.Path.{subst}
use mathlib.Core.List.{append-nil}
use vault_plugin_secrets_tem.Prelude.{
  ◌∙◌, String, ◌≡◌, refl, sym, ap, ◌⊎◌, inl, inr, true, false, List, [], ◌∷◌, ◌++◌,
}
use vault_plugin_secrets_tem.Prelude.Text.{is_empty}
use vault_plugin_secrets_tem.Exec.{Exec, Result, ok, err, Context}
use vault_plugin_secrets_tem.Client.{ClientConfig, ApiKey, ApiKeySpec, ServiceAccount, created}
use vault_plugin_secrets_tem.Client.Errors.{Error}
use vault_plugin_secrets_tem.Backend.Entries.{Config, config_storage_path}
use vault_plugin_secrets_tem.Backend.Handler.{
  Outcome, done, rejected, failed, ◌>>=◌, or_fail, Warning,
}
use vault_plugin_secrets_tem.Backend.World.{
  store, Env, State, Event, key_deleted, key_created, stored, client_config, get_time, ask, note,
}
use vault_plugin_secrets_tem.Backend.World.Trace.{
  Post, Emits, Emits-noting, Emits-bind, Emits-get, Emits-after, Emits-if, Emits-asked,
}
use vault_plugin_secrets_tem.Backend.Creds.{delete_key}
use vault_plugin_secrets_tem.Backend.Creds.Issuance.{
  MintPost, CleansUp, minted-Settles, settled, Settles,
}
use vault_plugin_secrets_tem.Backend.Rotate.{
  with_key, mint_root, root_key_spec, verify_key, read_admin, settle_store, verified, built_or_fail,
  store_key, stored_or_fail, delete_previous, rotate_with,
}

-- The events of a verification: none, or the delete of the new key where it did not work.
abbrev pub VerifyPost : ClientConfig → ApiKey → Post (Unit {0})
VerifyPost c key (done _) events = events ≡ []
VerifyPost c key (rejected x) events =
    (r : Result (Unit {0})) × (events ≡ key_deleted c key.id r ∷ [])
VerifyPost c key (failed x) events = events ≡ []

-- The events of the storing: the new credential was put, and only a put that worked goes on.
abbrev pub StorePost : Post (Unit {0})
StorePost (done _) events = (raw : String) × (events ≡ stored config_storage_path raw (ok tt) ∷ [])
StorePost (rejected x) events = ⊥
StorePost (failed x) events =
    (events ≡ [])
    ⊎ ((raw : String) × (e : Error) × (events ≡ stored config_storage_path raw (err e) ∷ []))

-- The delete of the previous key, with the new key's client, where its ID is known.
abbrev pub Retires : Config → ApiKey → List Event → Type 0
Retires cfg key events =
    ((is_empty cfg.api_key_id ≡ true) × (events ≡ []))
    ⊎ ((is_empty cfg.api_key_id ≡ false)
        × ((r : Result (Unit {0})) × (events
              ≡ key_deleted (client_config (with_key cfg key)) cfg.api_key_id r ∷ [])))

abbrev RetirePost : Config → ApiKey → Post (List Warning)
RetirePost cfg key (done ws) events = Retires cfg key events
RetirePost cfg key _ events = ⊥

-- What a rotation that ends early did after the create: nothing, the delete of the new key, or a put
-- that failed.
abbrev pub Undone : ClientConfig → ApiKey → List Event → Type 0
Undone c key events =
    (events ≡ [])
    ⊎ ((r : Result (Unit {0})) × (events ≡ key_deleted c key.id r ∷ []))
    ⊎ ((raw : String) × (e : Error) × (events ≡ stored config_storage_path raw (err e) ∷ []))

-- What follows the create of the new key.
abbrev pub ReplacePost : ClientConfig → Config → ApiKey → Post (List Warning)
ReplacePost c cfg key (done ws) events =
    (raw : String) × (last : List Event) × Retires cfg key last
    × (events ≡ last ++ stored config_storage_path raw (ok tt) ∷ [])
ReplacePost c cfg key _ events = Undone c key events

-- What a rotation that ends early leaves of the new key.
abbrev pub Abandons : ClientConfig → List Event → Type 0
Abandons c events =
    CleansUp events
    ⊎ ((spec : ApiKeySpec) × (key : ApiKey) × (after : List Event) × Undone c key after
        × (events ≡ after ++ key_created c spec (created key) ∷ []))

-- A whole rotation, the newest event first.
abbrev pub RotatePost : ClientConfig → Config → Post (List Warning)
RotatePost c cfg (done ws) events =
    (spec : ApiKeySpec) × (key : ApiKey) × (raw : String) × (last : List Event)
    × (spec.service_account_id ≡ cfg.admin_service_account_id)
    × Retires cfg key last
    × (events
        ≡ (last ++ stored config_storage_path raw (ok tt) ∷ [])
          ++ key_created c spec (created key) ∷ [])
RotatePost c cfg _ events = Abandons c events

module _ {W : Type 0} (env : Env W) (ctx : Context) where
  abbrev admin_read : Config → ApiKey → Exec W ServiceAccount
  admin_read cfg key =
      env.cloud.get_service_account (client_config (with_key cfg key)) ctx
        cfg.admin_service_account_id

  mint_root-MintPost :
      (c : ClientConfig) (cfg : Config)
      → Emits
          (MintPost c λ spec. spec.service_account_id ≡ cfg.admin_service_account_id)
          (mint_root env ctx c cfg)
  unfolding mint_root
  mint_root-MintPost c cfg =
      Emits-after (MintPost c λ spec. spec.service_account_id ≡ cfg.admin_service_account_id)
        (get_time env) _ (Emits-get (λ s. env.now s.world))
        λ now.
          Emits-noting (Settles c)
            (MintPost c λ spec. spec.service_account_id ≡ cfg.admin_service_account_id)
            (key_created c (root_key_spec env ctx cfg now))
            (env.cloud.create_api_key c ctx (root_key_spec env ctx cfg now)) _
            (λ made r e h.
              settled _ c (root_key_spec env ctx cfg now) (unfold root_key_spec in refl) made r e h)
            (minted-Settles env ctx c "minting a replacement root API key")

  verified-VerifyPost :
      (c : ClientConfig) (key : ApiKey) (read : Result ServiceAccount)
      → Emits (VerifyPost c key) (verified env ctx c key read)
  unfolding verified delete_key
  verified-VerifyPost c key (ok sa) = record { at = λ s. ([], refl, refl) }
  verified-VerifyPost c key (err e) = record {
    at = λ s.
        let r = env.cloud.delete_api_key c ctx key.id s.world in
        (key_deleted c key.id r.0 ∷ [], refl, (r.0, refl));
  }

  read_admin-VerifyPost :
      (c : ClientConfig) (cfg : Config) (key : ApiKey) (made : Result (Unit {0}))
      → Emits (VerifyPost c key) (read_admin env ctx c cfg key made)
  unfolding read_admin built_or_fail
  read_admin-VerifyPost c cfg key (ok _) = record {
    at = λ s.
        (Emits-after (VerifyPost c key) (ask (admin_read cfg key)) (verified env ctx c key)
            (Emits-asked (admin_read cfg key)) (verified-VerifyPost c key)).at
          s;
  }
  read_admin-VerifyPost c cfg key (err e) = record { at = λ s. ([], refl, refl) }

  verify_key-VerifyPost :
      (c : ClientConfig) (cfg : Config) (key : ApiKey)
      → Emits (VerifyPost c key) (verify_key env ctx c cfg key)
  unfolding verify_key
  verify_key-VerifyPost c cfg key =
      Emits-after (VerifyPost c key) (ask (env.new_client (client_config (with_key cfg key))))
        (read_admin env ctx c cfg key)
        (Emits-asked (env.new_client (client_config (with_key cfg key))))
        (read_admin-VerifyPost c cfg key)

  put_at :
      (raw : String) (put : Result (Unit {0}) × W) (s : State W)
      → (events : List Event) × ((settle_store env ctx put.0 (record s {
        world = put.1;
        trace = stored config_storage_path raw put.0 ∷ s.trace;
      })).1.trace
          ≡ events ++ s.trace)
        × StorePost
            (settle_store env ctx put.0 (record s {
              world = put.1;
              trace = stored config_storage_path raw put.0 ∷ s.trace;
            })).0
            events
  unfolding settle_store stored_or_fail
  put_at raw (ok _, w) s = (stored config_storage_path raw (ok tt) ∷ [], refl, (raw, refl))
  put_at raw (err e, w) s = (stored config_storage_path raw (err e) ∷ [], refl, inr (raw, e, refl))

  encoded_at :
      (encoded : Result String) (s : State W)
      → (events : List Event) × (((((λ s'. (or_fail encoded, s')) >>= λ raw.
                note (stored config_storage_path raw) (env.storage_put config_storage_path raw))
              >>= settle_store env ctx)
            s).1.trace
          ≡ events ++ s.trace)
        × StorePost
            ((((λ s'. (or_fail encoded, s')) >>= λ raw.
                  note (stored config_storage_path raw) (env.storage_put config_storage_path raw))
                >>= settle_store env ctx)
              s).0
            events
  encoded_at (ok raw) s = put_at raw (env.storage_put config_storage_path raw s.world) s
  encoded_at (err e) s = ([], refl, inl refl)

  store_key-StorePost : (cfg : Config) (key : ApiKey) → Emits StorePost (store_key env ctx cfg key)
  unfolding store_key store
  store_key-StorePost cfg key = record {
    at = λ s. encoded_at (env.config_codec.encode (with_key cfg key)) s;
  }

  delete_previous-RetirePost :
      (cfg : Config) (key : ApiKey) → Emits (RetirePost cfg key) (delete_previous env ctx cfg key)
  unfolding delete_previous delete_key
  delete_previous-RetirePost cfg key =
      Emits-if (RetirePost cfg key) (is_empty cfg.api_key_id) _ _
        (λ unknown. record { at = λ s. ([], refl, inl (unknown, refl)) })
        λ known. record {
          at = λ s.
              let r =
                env.cloud.delete_api_key (client_config (with_key cfg key)) ctx cfg.api_key_id
                  s.world in
              (
                key_deleted (client_config (with_key cfg key)) cfg.api_key_id r.0 ∷ [],
                refl,
                inr (known, (r.0, refl)),
              );
        }

  stored_and_retired :
      (c : ClientConfig) (cfg : Config) (key : ApiKey) (e₁ : List Event)
      (r : Outcome (List Warning)) (e₂ : List Event)
      → StorePost (done tt) e₁
      → RetirePost cfg key r e₂
      → ReplacePost c cfg key r (e₂ ++ e₁)
  stored_and_retired c cfg key e₁ (done ws) e₂ p q = rw p.1 (p.0, e₂, q, refl)
  stored_and_retired c cfg key e₁ (rejected x) e₂ p q = absurd q
  stored_and_retired c cfg key e₁ (failed x) e₂ p q = absurd q

  not_stored :
      (c : ClientConfig) (cfg : Config) (key : ApiKey) (x : Error) (e : List Event)
      → StorePost (failed x) e
      → Undone c key e
  not_stored c cfg key x e (inl q) = inl q
  not_stored c cfg key x e (inr q) = inr (inr q)

  store_and_retire-ReplacePost :
      (c : ClientConfig) (cfg : Config) (key : ApiKey)
      → Emits
          (ReplacePost c cfg key)
          (store_key env ctx cfg key >>= λ _. delete_previous env ctx cfg key)
  store_and_retire-ReplacePost c cfg key =
      Emits-bind StorePost (λ _. RetirePost cfg key) (ReplacePost c cfg key)
        (λ _. delete_previous env ctx cfg key)
        (λ a e₁ r e₂ p q. stored_and_retired c cfg key e₁ r e₂ p q) (λ x e q. absurd q)
        (λ x e q. not_stored c cfg key x e q) (λ _. delete_previous-RetirePost cfg key)
        (store_key env ctx cfg key) (store_key-StorePost cfg key)

  replace-ReplacePost :
      (c : ClientConfig) (cfg : Config) (key : ApiKey)
      → Emits (ReplacePost c cfg key) (
          verify_key env ctx c cfg key >>= λ _.
          store_key env ctx cfg key >>= λ _. delete_previous env ctx cfg key)
  replace-ReplacePost c cfg key =
      Emits-bind (VerifyPost c key) (λ _. ReplacePost c cfg key) (ReplacePost c cfg key)
        (λ _. store_key env ctx cfg key >>= λ _. delete_previous env ctx cfg key)
        (λ a e₁ r e₂ q p.
          subst (ReplacePost c cfg key r) (sym (append-nil e₂) ∙ ap (λ l. e₂ ++ l) (sym q)) p)
        (λ x e q. inr (inl q)) (λ x e q. inl q) (λ _. store_and_retire-ReplacePost c cfg key)
        (verify_key env ctx c cfg key) (verify_key-VerifyPost c cfg key)

  rotated :
      (cfg : Config) (key : ApiKey) (e₁ : List Event) (c : ClientConfig)
      (r : Outcome (List Warning)) (e₂ : List Event)
      → ((spec : ApiKeySpec) × (spec.service_account_id ≡ cfg.admin_service_account_id)
          × (e₁ ≡ key_created c spec (created key) ∷ []))
      → ReplacePost c cfg key r e₂
      → RotatePost c cfg r (e₂ ++ e₁)
  rotated cfg key e₁ c (done ws) e₂ p q = rw (p.2, q.3) (p.0, key, q.0, q.1, p.1, q.2, refl)
  rotated cfg key e₁ c (rejected x) e₂ p q = rw p.2 (inr (p.0, key, e₂, q, refl))
  rotated cfg key e₁ c (failed x) e₂ p q = rw p.2 (inr (p.0, key, e₂, q, refl))

  -- The calls of a rotation of the root key of the configuration `cfg`, with its client `c`, in order.
  -- A rotation that responds made a confirmed create of a key for the configuration's service
  -- account, then a put of a configuration that worked, then, where the ID of the configuration's key
  -- is known, a delete by that ID with the new key's client, and no other call that changes anything.
  -- A rotation that ends early created nothing, or made a create that was refused or that gave an
  -- error beside a key, followed by a delete of that key if it has an ID; or it created a key with `c`
  -- and after that made no call, or a delete of this key, or a put that failed.
  pub rotate_with-RotatePost :
      (cfg : Config) (c : ClientConfig) → Emits (RotatePost c cfg) (rotate_with env ctx cfg c)
  unfolding rotate_with
  rotate_with-RotatePost cfg c =
      Emits-bind (MintPost c λ spec. spec.service_account_id ≡ cfg.admin_service_account_id)
        (ReplacePost c cfg) (RotatePost c cfg)
        (λ key. verify_key env ctx c cfg key >>= λ _.
          store_key env ctx cfg key >>= λ _. delete_previous env ctx cfg key)
        (λ key e₁ r e₂ p q. rotated cfg key e₁ c r e₂ p q) (λ x e q. inl q) (λ x e q. inl q)
        (replace-ReplacePost c cfg) (mint_root env ctx c cfg) (mint_root-MintPost c cfg)
