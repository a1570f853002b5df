-- ===== src/Backend/Lease/Gone.antt =====
-- Revocation over a client that keeps its contract: the engine and the client together.
use mathlib.Core.Path.{subst}
use vault_plugin_secrets_tem.Prelude.{String, ◌≡◌, refl, ap, ◌⊎◌, inl, inr, Option, arith}
use vault_plugin_secrets_tem.Exec.{Result, ok, err, Context}
use vault_plugin_secrets_tem.Client.{ClientConfig}
use vault_plugin_secrets_tem.Client.Errors.{Error, Kind}
use vault_plugin_secrets_tem.Client.Service.{CloudService}
use vault_plugin_secrets_tem.Client.Confirm.Outcome.{SawGone}
use vault_plugin_secrets_tem.Client.Grpc.Promises.{IsConfirmed}
use vault_plugin_secrets_tem.Backend.Entries.{Lease}
use vault_plugin_secrets_tem.Backend.Handler.{done, stepped}
use vault_plugin_secrets_tem.Backend.World.{Env, State, get_client, with_client}
use vault_plugin_secrets_tem.Backend.Creds.{delete_key}
use vault_plugin_secrets_tem.Backend.Lease.{
  internal_string, revoked, revoke_with, secret_api_key_revoke,
}

module _ {W : Type 0} (env : Env W) (dial : ClientConfig → CloudService W) (ctx : Context) where
  -- The key is gone in the world `w'`: a read of the service said so last, or the client's delete
  -- answered NotFound last.
  abbrev pub IsRevoked : String → W → Type 0
  IsRevoked id w' =
      (c : ClientConfig) × (SawGone (dial c) id w'
        ⊎ ((e : Error) × (w : W) × (e.kind ≡ Kind.not_found)
            × (env.cloud.delete_api_key c ctx id w ≡ (err e, w'))))

module _ {W : Type 0} (env : Env W) (dial : ClientConfig → CloudService W)
    (promised : IsConfirmed dial env.cloud) (ctx : Context) where
  revoked-done :
      (id : String) (c : ClientConfig) (w : W) (made : Result (Unit {0}) × W)
      → env.cloud.delete_api_key c ctx id w ≡ made
      → revoked env ctx id made.0 ≡ done tt
      → IsRevoked env dial ctx id made.1
  unfolding revoked
  revoked-done id c w (ok _, w') made h = (c, inl (promised.key_gone c ctx id w w' made))
  revoked-done id c w (err e, w') made h = (c, inr (e, w, ground arith, made))

  -- Over a client that keeps its contract, a revocation that succeeds, of a lease that holds a key ID,
  -- ended with a read of that key that answered that it is removed, or with a delete of it that
  -- answered NotFound.
  pub secret_api_key_revoke-IsRevoked :
      (lease : Option Lease) (id : String) (s s' : State W)
      → internal_string lease "api_key_id" ≡ ok id
      → secret_api_key_revoke env ctx lease s ≡ (done tt, s')
      → IsRevoked env dial ctx id s'.world
  unfolding secret_api_key_revoke with_client revoke_with delete_key
  secret_api_key_revoke-IsRevoked lease id s s' held h =
      let h₀ = rw held at h in
      let (ic, s₁, _, h₁) = stepped (get_client env) _ tt s s' h₀ in
      subst (IsRevoked env dial ctx id) (ap (λ u. u.1.world) h₁) (
        revoked-done id ic.1 s₁.world (env.cloud.delete_api_key ic.1 ctx id s₁.world) refl
          (ap (λ u. u.0) h₁))
