-- ===== src/Backend/Lease/Revocation.antt =====
-- What the revocation of a lease deletes (secretAPIKeyRevoke).
use vault_plugin_secrets_tem.Prelude.{
  String, ◌≡◌, refl, ◌⊎◌, inl, inr, if◌then◌else◌, Bool, true, false, Option, List, [], ◌∷◌, ◌++◌,
}
use vault_plugin_secrets_tem.Exec.{Result, ok, err, Context}
use vault_plugin_secrets_tem.Client.{ClientConfig}
use vault_plugin_secrets_tem.Client.Errors.{Error, is_not_found, wrap}
use vault_plugin_secrets_tem.Backend.Entries.{Lease}
use vault_plugin_secrets_tem.Backend.Handler.{Outcome, done, rejected, failed}
use vault_plugin_secrets_tem.Backend.World.{Env, Event, key_deleted}
use vault_plugin_secrets_tem.Backend.World.Trace.{Post, Emits, Emits-noting, Emits-with_client}
use vault_plugin_secrets_tem.Backend.Creds.{delete_key}
use vault_plugin_secrets_tem.Backend.Lease.{
  internal_string, secret_api_key_revoke, revoke_with, revoked,
}

-- The key is gone: its deletion was confirmed, or Temporal Cloud does not know it.
abbrev pub IsGone : Result (Unit {0}) → Type 0
IsGone (ok _) = Unit {0}
IsGone (err e) = is_not_found e.kind ≡ true

abbrev pub IsKept : Result (Unit {0}) → Type 0
IsKept (ok _) = ⊥
IsKept (err e) = is_not_found e.kind ≡ false

-- A revocation of the key `id`, for what its one call gave.
abbrev pub RevokePost : String → Post (Unit {0})
RevokePost id (done _) events =
    (c : ClientConfig) × (r : Result (Unit {0})) × IsGone r × (events ≡ key_deleted c id r ∷ [])
RevokePost id (rejected x) events = events ≡ []
RevokePost id (failed x) events =
    (events ≡ [])
    ⊎ ((c : ClientConfig) × (r : Result (Unit {0})) × IsKept r × (events ≡ key_deleted c id r ∷ []))

-- The answer to a delete that gave `r`.
abbrev Answers : Result (Unit {0}) → Post (Unit {0})
Answers r (done _) events = IsGone r × (events ≡ [])
Answers r (rejected x) events = ⊥
Answers r (failed x) events = IsKept r × (events ≡ [])

not_found_or_kept :
    (e : Error) (b : Bool)
    → is_not_found e.kind ≡ b
    → Answers (err e) (if b then done tt else failed (wrap "deleting API key" e)) []
not_found_or_kept e true q = (q, refl)
not_found_or_kept e false q = (q, refl)

module _ {W : Type 0} (env : Env W) (ctx : Context) where
  answered :
      (id : String) (c : ClientConfig) (r : Result (Unit {0})) (o : Outcome (Unit {0}))
      (e : List Event)
      → Answers r o e
      → RevokePost id o (e ++ key_deleted c id r ∷ [])
  answered id c r (done _) e h = rw h.1 (c, r, h.0, refl)
  answered id c r (rejected x) e h = absurd h
  answered id c r (failed x) e h = rw h.1 (inr (c, r, h.0, refl))

  revoked-Answers :
      (id : String) (r : Result (Unit {0}))
      → Emits {W = W} (Answers r) (λ s. (revoked env ctx id r, s))
  unfolding revoked
  revoked-Answers id (ok _) = record { at = λ s. ([], refl, (tt, refl)) }
  revoked-Answers id (err e) = record {
    at = λ s. ([], refl, not_found_or_kept e (is_not_found e.kind) refl);
  }

  revoke_with-RevokePost :
      (id : String) (c : ClientConfig) → Emits (RevokePost id) (revoke_with env ctx id c)
  unfolding revoke_with delete_key
  revoke_with-RevokePost id c =
      Emits-noting Answers (RevokePost id) (key_deleted c id) (env.cloud.delete_api_key c ctx id) _
        (λ r o e h. answered id c r o e h) (revoked-Answers id)

-- The revocation of a lease that holds the key ID `id` makes at most one call that changes anything,
-- a delete of that key. It succeeds only after a delete that
-- was confirmed or for which Temporal Cloud knows no such key, and fails after any other delete; an
-- error response comes before any call.
pub secret_api_key_revoke-RevokePost :
    {W : Type 0} (env : Env W) (ctx : Context) (lease : Option Lease) (id : String)
    → internal_string lease "api_key_id" ≡ ok id
    → Emits (RevokePost id) (secret_api_key_revoke env ctx lease)
unfolding secret_api_key_revoke
secret_api_key_revoke-RevokePost env ctx lease id q = rw q (
    Emits-with_client env (RevokePost id) (revoke_with env ctx id) (λ x. refl) (λ x. inl refl)
      (revoke_with-RevokePost env ctx id))
