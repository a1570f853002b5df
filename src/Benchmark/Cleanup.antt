-- ===== src/Benchmark/Cleanup.antt =====
-- deleteKey, deleteServiceAccount and createBenchmarkServiceAccount of
-- cmd/propagation-benchmark/main.go.
pub mod Deleted
use Prim.Native.String.{◌++◌}
use vault_plugin_secrets_tem.Prelude.{
  ℕ, zero, suc, ◌+◌, ◌*◌, String, Bool, true, false, Option, none, some, List, [], ◌∷◌,
  if◌then◌else◌,
}
use vault_plugin_secrets_tem.Prelude.Text.{is_empty, decimal}
use vault_plugin_secrets_tem.Exec.{Result, ok, err, Context, with_timeout, second}
use vault_plugin_secrets_tem.Client.{ServiceAccountSpec, Created, created, not_created, unconfirmed}
use vault_plugin_secrets_tem.Client.Errors.{Error, Kind, is_not_found}
use vault_plugin_secrets_tem.Benchmark.{
  Rig, CleanupError, interrupted, gave_up, cleanup_timeout, cleanup_attempts,
}

-- What an answer to the delete of a key leaves to do: nothing where it worked or the key was not
-- found, else the error.
unfoldable pub key_error : Result (Unit {0}) → Option Error
key_error (ok _) = none
key_error (err e) = if is_not_found e.kind then none else some e

-- The same of a service account: only a delete that worked ends the cleanup.
unfoldable pub account_error : Result (Unit {0}) → Option Error
account_error (ok _) = none
account_error (err e) = some e

module _ {W : Type 0} (rig : Rig W) where
  -- The loop of deleteKey: the attempts left, and the number of the next one.
  unfoldable pub delete_key_loop :
      ℕ → Context → String → ℕ → Option Error → W → Option CleanupError × W
  unfolding key_error
  delete_key_loop zero ctx id attempt last w = (some (gave_up id last), w)
  delete_key_loop (suc left) ctx id attempt last w =
      let (r, w₁) = rig.cleanup.delete_api_key rig.cleanup_config ctx id w in
      let (fired, w₂) = rig.frontend.wait_until ctx (rig.frontend.now w₁ + attempt * second) w₁ in
      elim (key_error r) [
        | none ↦ (none, w₁)
        | some e ↦
            let rest = delete_key_loop left ctx id (suc attempt) (some e) w₂ in
            if fired then rest else (some (interrupted id e), w₂)
      ]

  -- deleteKey
  unfoldable pub delete_key : String → W → Option CleanupError × W
  unfolding delete_key_loop
  delete_key id w =
      delete_key_loop cleanup_attempts (with_timeout none cleanup_timeout (rig.frontend.now w)) id 1
        none w

  unfoldable pub delete_account_loop :
      ℕ → Context → String → ℕ → Option Error → W → Option CleanupError × W
  unfolding account_error
  delete_account_loop zero ctx id attempt last w = (some (gave_up id last), w)
  delete_account_loop (suc left) ctx id attempt last w =
      let (r, w₁) = rig.cleanup.delete_service_account rig.cleanup_config ctx id w in
      let (fired, w₂) = rig.frontend.wait_until ctx (rig.frontend.now w₁ + attempt * second) w₁ in
      elim (account_error r) [
        | none ↦ (none, w₁)
        | some e ↦
            let rest = delete_account_loop left ctx id (suc attempt) (some e) w₂ in
            if fired then rest else (some (interrupted id e), w₂)
      ]

  -- deleteServiceAccount
  unfoldable pub delete_service_account : String → W → Option CleanupError × W
  unfolding delete_account_loop
  delete_service_account id w =
      delete_account_loop cleanup_attempts (with_timeout none cleanup_timeout (rig.frontend.now w))
        id 1 none w

  benchmark_account : String → ℕ → ServiceAccountSpec
  benchmark_account namespace now = record {
    name = "vault-acctest-propagation-" ++ decimal now;
    description = "Transient service account created by propagation-benchmark";
    account_role = "metrics-read";
    namespace_access = (namespace, "read") ∷ [];
  }

  -- What createBenchmarkServiceAccount returns for each outcome of the create.
  unfoldable pub settle_account : Created String × W → Result String × Option CleanupError × W
  settle_account (created id, w) = (ok id, none, w)
  settle_account (not_created e, w) = (err e, none, w)
  settle_account (unconfirmed id e, w) =
      let (failure, w') = delete_service_account id w in
      if is_empty id then (err e, none, w) else (err e, failure, w')

  -- createBenchmarkServiceAccount: the ID or the error of the create, and the error of the cleanup
  -- after a create that gave both.
  unfoldable pub create_benchmark_service_account :
      Context → String → W → Result String × Option CleanupError × W
  unfolding benchmark_account settle_account delete_service_account
  create_benchmark_service_account ctx namespace w = settle_account (
      rig.cleanup.create_service_account rig.cleanup_config ctx
        (benchmark_account namespace (rig.frontend.now w)) w)
