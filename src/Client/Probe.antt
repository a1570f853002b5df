-- ===== src/Client/Probe.antt =====
-- client/probe.go: the confirmation that a namespace's frontend accepts a new key. The frontend is a
-- gRPC server reached over a connection, so dialling, the one call and the closing are a parameter.
pub mod Confirmed
pub mod Connections
pub mod Ends
use Prim.Native.String.{◌++◌}
use vault_plugin_secrets_tem.Prelude.{
  ℕ, zero, suc, ◌+◌, ◌*◌, String, Bool, true, false, not, ◌&&◌, Option, none, some, nat_eq,
  if◌then◌else◌,
}
use vault_plugin_secrets_tem.Prelude.Int.{ℤ, pos, negsuc, leb_ℤ, pos_part}
use vault_plugin_secrets_tem.Exec.{Result, ok, err, Exec, Context, second, millisecond}
use vault_plugin_secrets_tem.Client.Errors.{
  Code, RpcError, status, plain, Kind, Error, error, wrap, Detail, message, not_confirmed,
  success_of, dialling, no_response, bad_probe_interval, bad_probe_successes, unavailable,
  invalid_argument, out_of_fuel, other, map_grpc_error,
}

abbrev pub max_probe_timeout : ℕ
max_probe_timeout = 50 * second

abbrev pub default_probe_interval : ℕ
default_probe_interval = 50 * millisecond

abbrev pub default_probe_successes : ℕ
default_probe_successes = 10

-- What grpc.NewClient gives: a connection, or the text of its error.
pub data Dialled : Type 0 where
  connected : ℕ → Dialled
  no_connection : String → Dialled

pub record Frontend (W : Type 0) : Type 0 where
  pub now : W → ℕ
  -- ctx.Err() is not nil: the context is past its deadline or was cancelled.
  pub over : Context → W → Bool
  -- The select of the loop: true when the timer for the given time fires, false when the context ends.
  pub wait_until : Context → ℕ → W → Bool × W
  pub dial : String → W → Dialled × W
  -- DescribeNamespace on a connection, as the bearer of a token: `none` for an answer.
  pub describe_namespace : ℕ → Context → String → String → W → Option RpcError × W
  pub close : ℕ → W → W

-- ProbeSettings
pub record ProbeSettings : Type 0 where
  pub interval : ℤ
  pub consecutive_successes : ℤ

-- DefaultProbeSettings
abbrev pub default_probe_settings : ProbeSettings
default_probe_settings = record {
  interval = pos default_probe_interval;
  consecutive_successes = pos default_probe_successes;
}

-- namespaceEndpoint
unfoldable pub namespace_endpoint : String → String
namespace_endpoint namespace = namespace ++ ".tmprl.cloud:7233"

-- retryableProbeCode
unfoldable pub retryable_probe_code : Code → Bool
retryable_probe_code Code.unauthenticated = true
retryable_probe_code Code.permission_denied = true
retryable_probe_code Code.not_found = true
retryable_probe_code Code.unavailable = true
retryable_probe_code Code.deadline_exceeded = true
retryable_probe_code _ = false

-- The error of an attempt: of the dialling, which wraps ErrUnavailable, or of the call.
pub data AttemptError : Type 0 where
  undialled : String → String → AttemptError
  rpc : RpcError → AttemptError

-- status.Code: `Unknown` for an error that carries no status.
unfoldable pub code_of : AttemptError → Code
code_of (rpc (status c m)) = c
code_of _ = Code.unknown

-- status.Convert(err).Message(), with the texts that the program makes as details.
unfoldable pub message_of : AttemptError → Detail
message_of (undialled namespace m) = dialling namespace m
message_of (rpc (status c m)) = message m
message_of (rpc (plain m)) = message m

-- MapGRPCError on the error of an attempt: an error without a status is returned as it is.
unfoldable pub map_attempt_error : AttemptError → Error
map_attempt_error (undialled namespace m) = error unavailable (dialling namespace m)
map_attempt_error (rpc e) = map_grpc_error e

-- What an attempt decides for the run of successes so far.
pub data Verdict : Type 0 where
  confirmed : Verdict
  refused : Error → Verdict
  again : ℕ → Detail → Verdict

-- The body of the loop up to its timer: the count of successes, and the last response.
unfoldable pub judge : String → ℕ → Bool → ℕ → Option AttemptError → Verdict
unfolding retryable_probe_code code_of message_of map_attempt_error
judge namespace required over successes none =
    if nat_eq (successes + 1) required
    then confirmed
    else again (successes + 1) (success_of (successes + 1) required)
judge namespace required over successes (some e) =
    if not over && not (retryable_probe_code (code_of e))
    then refused (wrap namespace (map_attempt_error e))
    else again 0 (message_of e)

module _ {W : Type 0} (svc : Frontend W) where
  unfoldable pub called : ℕ → Option RpcError × W → Option AttemptError × W
  called conn (none, w) = (none, svc.close conn w)
  called conn (some e, w) = (some (rpc e), svc.close conn w)

  unfoldable pub on_connection : Context → String → String → Dialled × W → Option AttemptError × W
  unfolding called
  on_connection ctx token namespace (connected conn, w) =
      called conn (svc.describe_namespace conn ctx token namespace w)
  on_connection ctx token namespace (no_connection m, w) = (some (undialled namespace m), w)

  -- probeNamespaceOnce: the connection is closed whatever the call gave.
  unfoldable pub probe_namespace_once : Context → String → String → W → Option AttemptError × W
  unfolding on_connection namespace_endpoint
  probe_namespace_once ctx token namespace w =
      on_connection ctx token namespace (svc.dial (namespace_endpoint namespace) w)

  -- The loop of probeNamespaceUntilConfirmed, at a count of successes.
  unfoldable pub probe_loop : ℕ → Context → String → String → ℕ → ℕ → ℕ → Exec W (Unit {0})
  unfolding judge
  probe_loop zero ctx token namespace interval required successes w =
      (err (error other out_of_fuel), w)
  probe_loop (suc fuel) ctx token namespace interval required successes w =
      let (r, w₁) = probe_namespace_once ctx token namespace w in
      let (fired, w₂) = svc.wait_until ctx (svc.now w₁ + interval) w₁ in
      elim (judge namespace required (svc.over ctx w₁) successes r) [
        | confirmed ↦ (ok tt, w₁)
        | refused e ↦ (err e, w₁)
        | again more last ↦
            let rest = probe_loop fuel ctx token namespace interval required more w₂ in
            if fired
            then rest
            else (err (error unavailable (not_confirmed namespace required last)), w₂)
      ]

  -- probeNamespaceUntilConfirmed
  unfoldable pub probe_namespace_until_confirmed :
      ℕ → Context → String → String → ℕ → ℕ → Exec W (Unit {0})
  unfolding probe_loop
  probe_namespace_until_confirmed fuel ctx token namespace interval required w =
      probe_loop fuel ctx token namespace interval required 0 w

  -- ProbeNamespaceWithSettings
  unfoldable pub probe_namespace_with_settings :
      ℕ → Context → String → String → ProbeSettings → Exec W (Unit {0})
  unfolding probe_namespace_until_confirmed
  probe_namespace_with_settings fuel ctx token namespace settings w =
      if leb_ℤ settings.interval (pos 0)
      then (err (error invalid_argument bad_probe_interval), w)
      else if leb_ℤ settings.consecutive_successes (pos 0)
      then (err (error invalid_argument bad_probe_successes), w)
      else probe_namespace_until_confirmed fuel ctx token namespace (pos_part settings.interval)
          (pos_part settings.consecutive_successes) w

  -- ProbeNamespace
  unfoldable pub probe_namespace : ℕ → Context → String → String → Exec W (Unit {0})
  unfolding probe_namespace_with_settings
  probe_namespace fuel ctx token namespace =
      probe_namespace_with_settings fuel ctx token namespace default_probe_settings
