-- ===== src/Backend/Creds/Issuance.antt =====
-- What a read of creds/<name> creates and deletes in Temporal Cloud.
use Prim.Native.String.{◌++◌ as str_append}
use vault_plugin_secrets_tem.Prelude.{
  ℕ, String, ◌≡◌, refl, ap, ◌⊎◌, inl, inr, true, some, List, [], ◌∷◌, ◌++◌,
}
use vault_plugin_secrets_tem.Prelude.Text.{is_empty}
use vault_plugin_secrets_tem.Exec.{Result, Context}
use vault_plugin_secrets_tem.Client.{
  ClientConfig, ApiKey, ApiKeySpec, Created, created, not_created, unconfirmed,
}
use vault_plugin_secrets_tem.Client.Errors.{Error}
use vault_plugin_secrets_tem.Backend.Entries.{ServiceAccountEntry}
use vault_plugin_secrets_tem.Backend.Handler.{
  Outcome, done, rejected, failed, ◌>>=◌, respond_cloud_err, respond_cloud_err-fails,
}
use vault_plugin_secrets_tem.Backend.World.{Env, Event, key_created, key_deleted}
use vault_plugin_secrets_tem.Backend.World.Trace.{
  Post, Emits, OnFailure, Harmless, Emits-if, Emits-noting, OnFailure-map, Emits-after,
}
use vault_plugin_secrets_tem.Backend.Creds.{delete_key, minted, mint, suffix, key_spec}

-- What is done about a key that is not handed out: it is deleted with the client that created it,
-- unless Temporal Cloud gave no ID for it.
abbrev pub Cleans : ClientConfig → ApiKey → List Event → Type 0
Cleans c key events =
    ((is_empty key.id ≡ true) × (events ≡ []))
    ⊎ ((deleted : Result (Unit {0})) × (events ≡ key_deleted c key.id deleted ∷ []))

-- What follows a create, for its result.
abbrev pub Settles : ClientConfig → Created ApiKey → Post ApiKey
Settles c (created key) r events = (r ≡ done key) × (events ≡ [])
Settles c (not_created e) r events = OnFailure (λ l. l ≡ []) r events
Settles c (unconfirmed key e) r events = OnFailure (Cleans c key) r events

pub cloud_failure :
    {W A : Type 0} (P : List Event → Type 0) (op : String) (e : Error)
    → P []
    → Emits {W = W} {A = A} (OnFailure P) (λ s. (respond_cloud_err op e, s))
cloud_failure {A = A} P op e p = record {
  at = λ s. (
    [],
    refl,
    elim (respond_cloud_err-fails {A = A} op e) [ inl (x, q) ↦ rw q p | inr (x, q) ↦ rw q p ],
  );
}

-- What a failed request leaves: nothing was created; Temporal Cloud refused the create; or it gave
-- an error beside a key, and the key was cleaned up.
abbrev pub CleansUp : List Event → Type 0
CleansUp events =
    (events ≡ [])
    ⊎ ((c : ClientConfig) × (spec : ApiKeySpec) × (e : Error) × (events
          ≡ key_created c spec (not_created e) ∷ []))
    ⊎ ((c : ClientConfig) × (spec : ApiKeySpec) × (key : ApiKey) × (e : Error) × (after : List
          Event)
        × Cleans c key after
        × (events ≡ after ++ key_created c spec (unconfirmed key e) ∷ []))

-- A mint: the key of a create that was confirmed, or a failure that cleans up.
abbrev pub MintPost : ClientConfig → (ApiKeySpec → Type 0) → Post ApiKey
MintPost c Asked (done key) events =
    (spec : ApiKeySpec) × Asked spec × (events ≡ key_created c spec (created key) ∷ [])
MintPost c Asked (rejected x) events = CleansUp events
MintPost c Asked (failed x) events = CleansUp events

pub settled :
    (Asked : ApiKeySpec → Type 0) (c : ClientConfig) (spec : ApiKeySpec)
    → Asked spec
    → (made : Created ApiKey) (r : Outcome ApiKey) (e : List Event) → Settles c made r e
    → MintPost c Asked r (e ++ key_created c spec made ∷ [])
settled Asked c spec asked (created key) r e h = rw (h.0, h.1) (spec, asked, refl)
settled Asked c spec asked (not_created x) (rejected y) e h = inr (inl (c, spec, x, rw h refl))
settled Asked c spec asked (not_created x) (failed y) e h = inr (inl (c, spec, x, rw h refl))
settled Asked c spec asked (not_created x) (done a) e h = absurd h
settled Asked c spec asked (unconfirmed key x) (rejected y) e h =
    inr (inr (c, spec, key, x, e, h, refl))
settled Asked c spec asked (unconfirmed key x) (failed y) e h =
    inr (inr (c, spec, key, x, e, h, refl))
settled Asked c spec asked (unconfirmed key x) (done a) e h = absurd h

module _ {W : Type 0} (env : Env W) (ctx : Context) where
  cleaned :
      (c : ClientConfig) (key : ApiKey) (op : String) (e : Error)
      → Emits {A = ApiKey}
          (OnFailure (Cleans c key))
          (delete_key env ctx c key.id >>= λ _. λ s. (respond_cloud_err op e, s))
  unfolding delete_key
  cleaned c key op e =
      Emits-noting (λ _. OnFailure (λ l. l ≡ [])) (OnFailure (Cleans c key)) (key_deleted c key.id)
        (env.cloud.delete_api_key c ctx key.id) (λ _. λ s. (respond_cloud_err op e, s))
        (λ a r l h.
          OnFailure-map (λ l. l ≡ []) (Cleans c key) r l (l ++ key_deleted c key.id a ∷ [])
            (λ q. inr (a, ap (λ k. k ++ key_deleted c key.id a ∷ []) q)) h)
        λ _. cloud_failure (λ l. l ≡ []) op e refl

  pub minted-Settles :
      (c : ClientConfig) (op : String) (made : Created ApiKey)
      → Emits (Settles c made) (minted env ctx c op made)
  unfolding minted
  minted-Settles c op (created key) = record { at = λ s. ([], refl, (refl, refl)) }
  minted-Settles c op (not_created e) = cloud_failure (λ l. l ≡ []) op e refl
  minted-Settles c op (unconfirmed key e) =
      Emits-if (OnFailure (Cleans c key)) (is_empty key.id) (λ s. (respond_cloud_err op e, s))
        (delete_key env ctx c key.id >>= λ _. λ s. (respond_cloud_err op e, s))
        (λ nameless. cloud_failure (Cleans c key) op e (inl (nameless, refl)))
        λ named. cleaned c key op e

  suffix-Harmless : Emits Harmless (suffix env ctx)
  unfolding suffix
  suffix-Harmless = record { at = λ s. ([], refl, refl) }

  pub mint-MintPost :
      (c : ClientConfig) (name mount : String) (entry : ServiceAccountEntry) (expiry : ℕ)
      → Emits
          (MintPost c λ spec.
            (spec.service_account_id ≡ entry.service_account_id) × (spec.expiry_time ≡ some expiry))
          (mint env ctx c name mount entry expiry)
  unfolding mint
  mint-MintPost c name mount entry expiry =
      Emits-after
        (MintPost c λ spec.
          (spec.service_account_id ≡ entry.service_account_id) × (spec.expiry_time ≡ some expiry))
        (suffix env ctx) _ suffix-Harmless
        λ random.
          Emits-noting (Settles c)
            (MintPost c λ spec.
              (spec.service_account_id ≡ entry.service_account_id)
              × (spec.expiry_time ≡ some expiry))
            (key_created c (key_spec env ctx name mount entry expiry random))
            (env.cloud.create_api_key c ctx (key_spec env ctx name mount entry expiry random))
            (minted env ctx c (str_append "minting an API key for " name))
            (λ made r e h.
              settled _ c (key_spec env ctx name mount entry expiry random)
                (unfold key_spec in (refl, refl)) made r e h)
            (minted-Settles c (str_append "minting an API key for " name))
