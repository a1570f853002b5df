-- ===== src/Benchmark.antt =====
-- cmd/propagation-benchmark/main.go: how long new API keys take to become usable. What the command
-- calls is the parameter `Rig`; its frontend and the repository's client are those of the model.
pub mod Cleanup
pub mod Trials
pub mod Run
use vault_plugin_secrets_tem.Prelude.{ℕ, ◌*◌, String, Bool, ◌||◌, Option, none, some, List}
use vault_plugin_secrets_tem.Prelude.Int.{ℤ, pos, ltb_ℤ, leb_ℤ}
use vault_plugin_secrets_tem.Prelude.Text.{is_empty}
use vault_plugin_secrets_tem.Exec.{Context, second}
use vault_plugin_secrets_tem.Client.{ClientConfig, CloudOps}
use vault_plugin_secrets_tem.Client.Errors.{Code, Error, RpcError}
use vault_plugin_secrets_tem.Client.Service.{CreatedKey, ProtoKeySpec}
use vault_plugin_secrets_tem.Client.Probe.{Frontend}

abbrev pub cleanup_timeout : ℕ
cleanup_timeout = 120 * second

abbrev pub cleanup_attempts : ℕ
cleanup_attempts = 5

-- config
pub record BenchmarkConfig : Type 0 where
  pub namespace : String
  pub trials : ℤ
  pub interval : ℤ
  pub report_every : ℤ
  pub poll_interval : ℤ
  pub trial_timeout : ℤ
  pub rpc_timeout : ℤ

-- The check on the flags.
unfoldable pub bad_flags : BenchmarkConfig → Bool
bad_flags cfg =
    is_empty cfg.namespace
    || ltb_ℤ cfg.trials (pos 1)
    || ltb_ℤ cfg.interval (pos 0)
    || ltb_ℤ cfg.report_every (pos 0)
    || leb_ℤ cfg.poll_interval (pos 0)
    || leb_ℤ cfg.trial_timeout (pos 0)
    || leb_ℤ cfg.rpc_timeout (pos 0)

-- Why a cleanup failed.
pub data CleanupError : Type 0 where
  interrupted : String → Error → CleanupError
  gave_up : String → Option Error → CleanupError
  unidentified : CleanupError

-- Why a trial failed, without the texts of the services; `joined` is an error beside that of the
-- trial's cleanup.
pub data TrialError : Type 0 where
  create_failed : RpcError → TrialError
  incomplete out_of_polls : TrialError
  stopped timed_out : Code → TrialError
  joined : TrialError → CleanupError → TrialError
  unclean : CleanupError → TrialError

-- errors.Join(r.err, e)
unfoldable pub join : Option TrialError → CleanupError → TrialError
join none e = unclean e
join (some first) e = joined first e

-- result
pub record Trial : Type 0 where
  pub trial : ℕ
  pub started_at : ℕ
  pub create : ℕ
  pub propagation : ℕ
  pub total : ℕ
  pub attempts : ℕ
  pub last_code : Code
  pub cleanup_err : Option CleanupError
  pub error : Option TrialError

-- connectivity.State
pub data Connectivity : Type 0 where
  idle connecting ready transient_failure shutdown : Connectivity

pub record Rig (W : Type 0) : Type 0 where
  pub frontend : Frontend W
  pub get_state : ℕ → W → Connectivity × W
  pub wait_for_state_change : Context → ℕ → Connectivity → W → Bool × W
  -- The raw CreateApiKey: its response if any beside its error if any.
  pub create_api_key : Context → ProtoKeySpec → W → (Option CreatedKey × Option RpcError) × W
  -- The repository's client, and the two connections; the text is the error of making one.
  pub cleanup : CloudOps W
  pub cleanup_config : ClientConfig
  pub connect_cloud : W → Option String × W
  pub connect_cleanup : W → Option String × W
  -- ctx.Err() of a context that a signal may end.
  pub cancelled : Context → W → Bool
  -- csv.Writer: Write, Flush and Error.
  pub write_row : List String → W → Option String × W
  pub flush : W → Option String × W
  pub format_time : ℕ → String
  pub show_code : Code → String
  pub show_error : TrialError → String
