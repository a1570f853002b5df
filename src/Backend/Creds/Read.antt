-- ===== src/Backend/Creds/Read.antt =====
-- A read of creds/<name> as a whole: a credential, or a failure that cleans up after itself.
use Prim.Native.String.{◌++◌ as str_append}
use vault_plugin_secrets_tem.Backend.Accounts.Lookup.{get_service_account-Quiet}
use vault_plugin_secrets_tem.Prelude.{
  ℕ, String, ◌≡◌, refl, inl, Option, none, some, List, [], ◌∷◌, ◌++◌,
}
use vault_plugin_secrets_tem.Exec.{Result, ok, err, Context, with_timeout}
use vault_plugin_secrets_tem.Client.{ClientConfig, ApiKey, ApiKeySpec, created, NamespaceAccess}
use vault_plugin_secrets_tem.Backend.Entries.{
  ServiceAccountEntry, ProbeConfig, probe_config_storage_path,
}
use vault_plugin_secrets_tem.Backend.Handler.{
  Outcome, done, rejected, failed, ◌>>=◌, respond_cloud_err, Response, Warning, no_time_to_verify,
  nothing_to_verify, at_capacity,
}
use vault_plugin_secrets_tem.Backend.World.{Env, Event, ask, key_created, get_time}
use vault_plugin_secrets_tem.Backend.World.Trace.{
  Post, Emits, Quiet, Harmless, Emits-ask, Emits-lift, Emits-bind, Emits-quiet, Emits-silent,
  Emits-reject_if, Emits-load, Emits-with_client, Emits-get, Emits-if, Emits-asked, Emits-after,
}
use vault_plugin_secrets_tem.Backend.Entries.{text}
use vault_plugin_secrets_tem.Backend.Lease.{internal_value}
use vault_plugin_secrets_tem.Backend.Probing.{
  probe_all, probe_within, probe_budget, warning_of, verify_from, verify_propagation,
  get_probe_config, effective_checked, default_probe_config, credential_request_timeout,
}
use vault_plugin_secrets_tem.Backend.Creds.{
  Credential, mint, verify, credential, check_capacity, capacity_checked, issue, is_at_capacity,
  key_expiry_at, settings_for, issue_for, path_creds_read, creds_within,
}
use vault_plugin_secrets_tem.Backend.Creds.Issuance.{CleansUp, MintPost, mint-MintPost}
use vault_plugin_secrets_tem.Backend.World.{load}
use vault_plugin_secrets_tem.Backend.Accounts.{get_service_account}

-- The whole request: a credential for a key that was created for its service account and confirmed,
-- and whose ID the lease keeps; or a failure that cleans up after itself.
abbrev pub CredsPost : Post (Response Credential)
CredsPost (done resp) events =
    (c : ClientConfig) × (spec : ApiKeySpec) × (key : ApiKey) × (events
      ≡ key_created c spec (created key) ∷ [])
    × (spec.service_account_id ≡ resp.body.service_account_id)
    × (resp.body.api_key ≡ key.token)
    × (resp.body.api_key_id ≡ key.id)
    × (internal_value "api_key_id" resp.body.internal_data ≡ some (text key.id))
CredsPost (rejected x) events = CleansUp events
CredsPost (failed x) events = CleansUp events

module _ {W : Type 0} (env : Env W) (ctx : Context) where
  probe_all-Harmless :
      (k : Context) (token : String) (settings : ProbeConfig) (m : NamespaceAccess)
      → Emits Harmless (probe_all env k token settings m)
  unfolding probe_all
  probe_all-Harmless k token settings [] = Emits-get (λ s. [])
  probe_all-Harmless k token settings ((namespace, permission) ∷ m) =
      Emits-after Harmless (ask (env.probe_namespace k token namespace settings)) _
        (Emits-asked (env.probe_namespace k token namespace settings))
        λ probed.
          Emits-after Harmless (probe_all env k token settings m) _
            (probe_all-Harmless k token settings m)
            λ ws. Emits-get (λ s. warning_of namespace probed ws)

  probe_within-Harmless :
      (k : Context) (entry : ServiceAccountEntry) (token : String) (settings : ProbeConfig)
      (budget : Option ℕ)
      → Emits Harmless (probe_within env k entry token settings budget)
  unfolding probe_within
  probe_within-Harmless k entry token settings none = Emits-get (λ s. no_time_to_verify ∷ [])
  probe_within-Harmless k entry token settings (some budget) =
      Emits-after Harmless (get_time env) _ (Emits-get (λ s. env.now s.world))
        λ now. probe_all-Harmless (with_timeout k budget now) token settings entry.namespace_access

  verify_from-Harmless :
      (entry : ServiceAccountEntry) (token : String) (settings : ProbeConfig) (m : NamespaceAccess)
      → Emits Harmless (verify_from env ctx entry token settings m)
  unfolding verify_from
  verify_from-Harmless entry token settings [] = Emits-get (λ s. nothing_to_verify ∷ [])
  verify_from-Harmless entry token settings (a ∷ m) =
      Emits-after Harmless (get_time env) _ (Emits-get (λ s. env.now s.world))
        λ now. probe_within-Harmless ctx entry token settings (probe_budget ctx now)

  verify-Harmless :
      (entry : ServiceAccountEntry) (token : String) (settings : ProbeConfig)
      → Emits Harmless (verify env ctx entry token settings)
  unfolding verify verify_propagation
  verify-Harmless entry token settings =
      Emits-if Harmless entry.verify_propagation _ _
        (λ on. verify_from-Harmless entry token settings entry.namespace_access)
        λ off. Emits-get (λ s. [])

  capacity_checked-Quiet :
      (name : String) (entry : ServiceAccountEntry) (counted : Result ℕ)
      → Emits Quiet (capacity_checked env ctx name entry counted)
  unfolding capacity_checked
  capacity_checked-Quiet name entry (ok count) =
      Emits-reject_if (is_at_capacity count) (at_capacity name count entry.ttl)
  capacity_checked-Quiet name entry (err e) =
      Emits-lift (respond_cloud_err (str_append "counting existing API keys for " name) e)

  check_capacity-Quiet :
      (c : ClientConfig) (name : String) (entry : ServiceAccountEntry)
      → Emits Quiet (check_capacity env ctx c name entry)
  unfolding check_capacity
  check_capacity-Quiet c name entry =
      Emits-silent (ask (env.cloud.count_api_keys c ctx entry.service_account_id)) _
        (Emits-ask (env.cloud.count_api_keys c ctx entry.service_account_id))
        (capacity_checked-Quiet name entry)

  issued :
      (c : ClientConfig) (name : String) (entry : ServiceAccountEntry) (expiry : ℕ) (key : ApiKey)
      (e₁ : List Event) (r : Outcome (Response Credential)) (e₂ : List Event)
      → MintPost c
          (λ spec.
            (spec.service_account_id ≡ entry.service_account_id) × (spec.expiry_time ≡ some expiry))
          (done key)
          e₁
      → ((ws : List Warning) × (r
            ≡ done (record { body = credential env ctx name entry expiry key; warnings = ws }))
          × (e₂ ≡ []))
      → CredsPost r (e₂ ++ e₁)
  unfolding credential internal_value
  issued c name entry expiry key e₁ r e₂ p q =
      rw (q.1, q.2) (c, p.0, key, p.2, p.1.0, refl, refl, refl)

  -- The end of the request: a key, and the warnings of its verification.
  finish :
      (name : String) (entry : ServiceAccountEntry) (settings : ProbeConfig) (expiry : ℕ)
      (key : ApiKey)
      → Emits
          (λ (r : Outcome (Response Credential)) e.
            (ws : List Warning) × (r
              ≡ done (record { body = credential env ctx name entry expiry key; warnings = ws }))
            × (e ≡ []))
          (verify env ctx entry key.token settings >>= λ ws s.
            (done (record { body = credential env ctx name entry expiry key; warnings = ws }), s))
  finish name entry settings expiry key =
      Emits-after _ (verify env ctx entry key.token settings) _
        (verify-Harmless entry key.token settings)
        λ ws. record { at = λ s. ([], refl, (ws, refl, refl)) }

  issue-CredsPost :
      (name mount : String) (entry : ServiceAccountEntry) (settings : ProbeConfig)
      (c : ClientConfig)
      → Emits CredsPost (issue env ctx name mount entry settings c)
  unfolding issue
  issue-CredsPost name mount entry settings c =
      Emits-quiet CredsPost (check_capacity env ctx c name entry) _ (λ x. inl refl) (λ x. inl refl)
        (check_capacity-Quiet c name entry)
        λ _. Emits-after CredsPost (get_time env) _ (Emits-get (λ s. env.now s.world)) λ now.
          Emits-bind
            (MintPost c λ spec.
              (spec.service_account_id ≡ entry.service_account_id)
              × (spec.expiry_time ≡ some (key_expiry_at now entry.max_ttl)))
            (λ key (r : Outcome (Response Credential)) e.
              (ws : List Warning) × (r
                ≡ done (record {
                  body = credential env ctx name entry (key_expiry_at now entry.max_ttl) key;
                  warnings = ws;
                }))
              × (e ≡ []))
            CredsPost _
            (λ key e₁ r e₂ p q.
              issued c name entry (key_expiry_at now entry.max_ttl) key e₁ r e₂ p q)
            (λ x e h. h) (λ x e h. h)
            (λ key. finish name entry settings (key_expiry_at now entry.max_ttl) key)
            (mint env ctx c name mount entry (key_expiry_at now entry.max_ttl))
            (mint-MintPost env ctx c name mount entry (key_expiry_at now entry.max_ttl))

  get_probe_config-Quiet : Emits Quiet (get_probe_config env)
  unfolding get_probe_config
  get_probe_config-Quiet =
      Emits-silent (load env env.probe_codec probe_config_storage_path) _
        (Emits-load env env.probe_codec probe_config_storage_path)
        λ stored. Emits-lift (effective_checked stored)

  settings_for-Quiet : (entry : ServiceAccountEntry) → Emits Quiet (settings_for env ctx entry)
  unfolding settings_for
  settings_for-Quiet entry =
      Emits-if Quiet entry.verify_propagation _ _ (λ on. get_probe_config-Quiet)
        (λ off. Emits-lift (done default_probe_config))

  issue_for-CredsPost :
      (name mount : String) (found : Option ServiceAccountEntry)
      → Emits CredsPost (issue_for env ctx name mount found)
  unfolding issue_for
  issue_for-CredsPost name mount none = record { at = λ s. ([], refl, inl refl) }
  issue_for-CredsPost name mount (some entry) =
      Emits-quiet CredsPost (settings_for env ctx entry) _ (λ x. inl refl) (λ x. inl refl)
        (settings_for-Quiet entry)
        λ settings.
          Emits-with_client env CredsPost (issue env ctx name mount entry settings) (λ x. inl refl)
            (λ x. inl refl) (issue-CredsPost name mount entry settings)

  creds_within-CredsPost : (name mount : String) → Emits CredsPost (creds_within env ctx name mount)
  unfolding creds_within
  creds_within-CredsPost name mount =
      Emits-quiet CredsPost (get_service_account env ctx name) (issue_for env ctx name mount)
        (λ x. inl refl) (λ x. inl refl) (get_service_account-Quiet env ctx name)
        (issue_for-CredsPost name mount)

-- Where a read of creds/<name> responds, exactly one event was added to the trace: the confirmed
-- creation of one API key, for the service account the response names, with the response's token and
-- ID, and the lease's internal data keeps that ID. On an error response or a failure, either nothing
-- was created, or Temporal Cloud refused the create, or it gave an error beside a key and the one
-- call after that was a delete of that key by its ID with the same client, left out only for a key
-- that came without an ID; that delete may itself have failed.
pub path_creds_read-CredsPost :
    {W : Type 0} (env : Env W) (ctx : Context) (name mount : String)
    → Emits CredsPost (path_creds_read env ctx name mount)
unfolding path_creds_read
path_creds_read-CredsPost env ctx name mount =
    Emits-after CredsPost (get_time env) _ (Emits-get (λ s. env.now s.world))
      λ now. creds_within-CredsPost env (with_timeout ctx credential_request_timeout now) name mount
