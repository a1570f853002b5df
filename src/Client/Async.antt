-- ===== src/Client/Async.antt =====
-- client/async.go: the wait for an asynchronous operation of Temporal Cloud.
pub mod Termination
pub mod Outcome
use vault_plugin_secrets_tem.Prelude.{
  ℕ, zero, suc, ◌+◌, ◌*◌, String, Bool, true, false, Option, none, some, if◌then◌else◌,
}
use vault_plugin_secrets_tem.Exec.{Result, ok, err, Exec, Context, with_timeout, second}
use vault_plugin_secrets_tem.Client.Errors.{
  Error, error, invalid_argument, unavailable, other, OperationState, operation_ended,
  operation_timed_out, operation_unreported, out_of_fuel, map_grpc_error,
}
use vault_plugin_secrets_tem.Client.Service.{AsyncOperation, Reply, answer, fault, CloudService}

abbrev pub operation_poll_interval : ℕ
operation_poll_interval = second

abbrev pub operation_timeout : ℕ
operation_timeout = 60 * second

-- The polls that fit into the timeout.
abbrev pub operation_fuel : ℕ
operation_fuel = 60

classify_state : OperationState → String → Result Bool
classify_state OperationState.fulfilled reason = ok true
classify_state OperationState.failed reason =
    err (error invalid_argument (operation_ended OperationState.failed reason))
classify_state OperationState.cancelled reason =
    err (error invalid_argument (operation_ended OperationState.cancelled reason))
classify_state OperationState.rejected reason =
    err (error invalid_argument (operation_ended OperationState.rejected reason))
classify_state _ reason = ok false

-- classifyOperationState: whether the operation is done. Where it reports an error, Go's first
-- result is true and no caller reads it.
unfoldable pub classify_operation_state : Option AsyncOperation → Result Bool
unfolding classify_state
classify_operation_state none = ok true
classify_operation_state (some op) = classify_state op.state op.failure_reason

ended : Result Bool → Option (Result (Unit {0}))
ended (err e) = some (err e)
ended (ok true) = some (ok tt)
ended (ok false) = none

-- What one answer to a poll decides: `none` to go on polling.
unfoldable pub poll_answer : String → Reply (Option AsyncOperation) → Option (Result (Unit {0}))
unfolding ended classify_operation_state map_grpc_error
poll_answer id (fault e) = some (err (map_grpc_error e))
poll_answer id (answer none) = some (err (error unavailable (operation_unreported id)))
poll_answer id (answer (some op)) = ended (classify_operation_state (some op))

unfoldable pub op_id : Option AsyncOperation → String
op_id none = ""
op_id (some op) = op.id

module _ {W : Type 0} (svc : CloudService W) where
  -- The loop, from the tick number `k` of a ticker that was started at `start`.
  unfoldable pub poll_operation : ℕ → Context → ℕ → ℕ → String → Exec W (Unit {0})
  unfolding poll_answer
  poll_operation zero ctx start k id w = (err (error other out_of_fuel), w)
  poll_operation (suc fuel) ctx start k id w =
      let (fired, w₁) = svc.wait_until ctx (start + k * operation_poll_interval) w in
      let (reply, w₂) = svc.get_async_operation ctx id w₁ in
      let rest = poll_operation fuel ctx start (suc k) id w₂ in
      if fired
      then elim (poll_answer id reply) [ none ↦ rest | some r ↦ (r, w₂) ]
      else (err (error unavailable (operation_timed_out id)), w₁)

  -- awaitOperation
  unfoldable pub await_operation : Context → Option AsyncOperation → Exec W (Unit {0})
  unfolding ended classify_operation_state poll_operation op_id
  await_operation ctx op w =
      let ctx' = with_timeout ctx operation_timeout (svc.now w) in
      let polled = poll_operation operation_fuel ctx' (svc.now w) 1 (op_id op) w in
      elim (ended (classify_operation_state op)) [ none ↦ polled | some r ↦ (r, w) ]
