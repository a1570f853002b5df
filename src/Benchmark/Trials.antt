-- ===== src/Benchmark/Trials.antt =====
-- runTrial and waitForAcceptance of cmd/propagation-benchmark/main.go. Durations between two readings
-- of the clock are not negative, as Go's monotonic clock gives them.
pub mod Cleans
pub mod Accepted
use Prim.Native.String.{◌++◌}
use vault_plugin_secrets_tem.Prelude.{
  ℕ, zero, suc, ◌+◌, ◌-◌, ◌*◌, ◌/◌, String, Bool, true, false, not, ◌||◌, Option, none, some,
  if◌then◌else◌,
}
use vault_plugin_secrets_tem.Prelude.Int.{pos_part}
use vault_plugin_secrets_tem.Prelude.Text.{is_empty, decimal}
use vault_plugin_secrets_tem.Exec.{Context, with_timeout, second}
use vault_plugin_secrets_tem.Client.{min_api_key_expiry}
use vault_plugin_secrets_tem.Client.Errors.{Code, RpcError, status, plain}
use vault_plugin_secrets_tem.Client.Service.{CreatedKey, ProtoKeySpec, ProtoOwner}
use vault_plugin_secrets_tem.Client.Probe.{Frontend}
use vault_plugin_secrets_tem.Benchmark.{
  BenchmarkConfig, Rig, Trial, TrialError, create_failed, incomplete, stopped, timed_out,
  out_of_polls, CleanupError, unidentified, join,
}
use vault_plugin_secrets_tem.Benchmark.Cleanup.{delete_key}

-- status.Code of the error of a call.
unfoldable pub rpc_code : RpcError → Code
rpc_code (status c m) = c
rpc_code (plain m) = Code.unknown

-- The codes on which waitForAcceptance asks again.
unfoldable pub retried_code : Code → Bool
retried_code Code.unauthenticated = true
retried_code Code.permission_denied = true
retried_code Code.not_found = true
retried_code Code.unavailable = true
retried_code Code.deadline_exceeded = true
retried_code _ = false

-- The three results of waitForAcceptance.
pub record Wait : Type 0 where
  pub attempts : ℕ
  pub last_code : Code
  pub error : Option TrialError

-- What one answer of the frontend decides: `none` to wait and ask again.
unfoldable pub decide : ℕ → Option RpcError → Option Wait
unfolding rpc_code retried_code
decide attempts none = some (record { attempts = attempts; last_code = Code.ok; error = none })
decide attempts (some e) =
    if retried_code (rpc_code e)
    then none
    else some (record {
      attempts = attempts;
      last_code = rpc_code e;
      error = some (stopped (rpc_code e));
    })

-- The code of an answer that is asked again.
unfoldable pub last_code_of : Option RpcError → Code
unfolding rpc_code
last_code_of none = Code.ok
last_code_of (some e) = rpc_code e

unfoldable pub pending : String → ℕ → ℕ → ℕ → ProtoKeySpec
pending id started now trial = record {
  owner_id = id;
  owner_type = ProtoOwner.service_account;
  display_name = "propagation-benchmark-" ++ (decimal now ++ ("-" ++ decimal trial));
  description = "Transient key created by propagation-benchmark";
  expiry_time = now + (min_api_key_expiry + 3600 * second);
}

-- The trial with the outcome of its cleanup.
unfoldable pub with_cleanup : Trial → Option CleanupError → Trial
unfolding join
with_cleanup r none = r
with_cleanup r (some e) = record r { cleanup_err = some e; error = some (join r.error e) }

module _ {W : Type 0} (rig : Rig W) (cfg : BenchmarkConfig) where
  -- The loop of waitForAcceptance, with the attempts so far, over one connection.
  unfoldable pub wait_loop : ℕ → Context → ℕ → String → ℕ → W → Wait × W
  unfolding decide last_code_of
  wait_loop zero ctx conn token attempts w =
      (record { attempts = attempts; last_code = Code.ok; error = some out_of_polls }, w)
  wait_loop (suc fuel) ctx conn token attempts w =
      let now = rig.frontend.now w in
      let (r, w₁) =
        rig.frontend.describe_namespace conn (with_timeout ctx (pos_part cfg.rpc_timeout) now) token
          cfg.namespace w in
      let (fired, w₂) =
        rig.frontend.wait_until ctx (rig.frontend.now w₁ + pos_part cfg.poll_interval) w₁ in
      elim (decide (suc attempts) r) [
        | some wait ↦ (wait, w₁)
        | none ↦
            let rest = wait_loop fuel ctx conn token (suc attempts) w₂ in
            if fired then rest else (
              record {
                attempts = suc attempts;
                last_code = last_code_of r;
                error = some (timed_out (last_code_of r));
              },
              w₂,
            )
      ]

  -- The polls that fit into a trial's timeout.
  abbrev pub poll_fuel : ℕ
  poll_fuel = suc (suc (pos_part cfg.trial_timeout / pos_part cfg.poll_interval))

  -- waitForAcceptance
  unfoldable pub wait_for_acceptance : Context → ℕ → String → W → Wait × W
  unfolding wait_loop
  wait_for_acceptance ctx conn token w = wait_loop poll_fuel ctx conn token 0 w

  -- The part of runTrial between the create and the cleanup: the result so far, from the response,
  -- its error and the clock at the start and after the create.
  unfoldable pub measure :
      Context → ℕ → ℕ → ℕ → ℕ → Option CreatedKey × Option RpcError → W → Trial × W
  unfolding wait_for_acceptance
  measure ctx conn trial started created_at (key, some e) w = (
    record {
      trial = trial;
      started_at = started;
      create = created_at - started;
      propagation = 0;
      total = rig.frontend.now w - started;
      attempts = 0;
      last_code = Code.ok;
      cleanup_err = none;
      error = some (create_failed e);
    },
    w,
  )
  measure ctx conn trial started created_at (none, none) w = (
    record {
      trial = trial;
      started_at = started;
      create = created_at - started;
      propagation = 0;
      total = rig.frontend.now w - started;
      attempts = 0;
      last_code = Code.ok;
      cleanup_err = none;
      error = some incomplete;
    },
    w,
  )
  measure ctx conn trial started created_at (some key, none) w =
      let (wait, w') = wait_for_acceptance ctx conn key.token w in
      if is_empty key.id || is_empty key.token
      then (
        record {
          trial = trial;
          started_at = started;
          create = created_at - started;
          propagation = 0;
          total = rig.frontend.now w - started;
          attempts = 0;
          last_code = Code.ok;
          cleanup_err = none;
          error = some incomplete;
        },
        w,
      )
      else (
        record {
          trial = trial;
          started_at = started;
          create = created_at - started;
          propagation = rig.frontend.now w' - created_at;
          total = rig.frontend.now w' - started;
          attempts = wait.attempts;
          last_code = wait.last_code;
          cleanup_err = none;
          error = wait.error;
        },
        w',
      )

  -- The end of runTrial: the key with an ID is deleted, whatever the trial gave.
  unfoldable pub clean_up : Option CreatedKey → Trial × W → Trial × W
  unfolding with_cleanup delete_key
  clean_up none (r, w) = (r, w)
  clean_up (some key) (r, w) =
      let (failure, w') = delete_key rig key.id w in
      if not (is_empty key.id)
      then (with_cleanup r failure, w')
      else if not (is_empty key.token)
      then (with_cleanup r (some unidentified), w)
      else (r, w)

  -- runTrial
  unfoldable pub run_trial : Context → ℕ → String → ℕ → W → Trial × W
  unfolding measure clean_up pending
  run_trial parent conn account trial w =
      let started = rig.frontend.now w in
      let ctx = with_timeout parent (pos_part cfg.trial_timeout) started in
      let (made, w₁) = rig.create_api_key ctx (pending account started started trial) w in
      clean_up made.0 (measure ctx conn trial started (rig.frontend.now w₁) made w₁)
