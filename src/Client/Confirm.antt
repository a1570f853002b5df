-- ===== src/Client/Confirm.antt =====
-- client/confirm.go: every mutating call reads the resource back until it has reached the state
-- that was asked for.
pub mod Termination
pub mod Outcome
use vault_plugin_secrets_tem.Prelude.{
  ℕ, zero, suc, ◌+◌, ◌*◌, String, Bool, true, false, Option, none, some, if◌then◌else◌,
}
use vault_plugin_secrets_tem.Exec.{
  Result, ok, err, Exec, Context, with_timeout, second, millisecond,
}
use vault_plugin_secrets_tem.Client.Errors.{
  Error, error, not_found, invalid_argument, unavailable, other, is_not_found, ResourceState,
  not_in_effect, in_state, created_but_deleted, out_of_fuel, map_grpc_error,
}
use vault_plugin_secrets_tem.Client.Service.{
  ProtoAccount, ProtoKey, Reply, answer, fault, CloudService,
}

abbrev pub confirm_poll_interval : ℕ
confirm_poll_interval = 500 * millisecond

abbrev pub confirm_timeout : ℕ
confirm_timeout = 15 * second

-- The checks that fit into the timeout.
abbrev pub confirm_fuel : ℕ
confirm_fuel = 31

unfoldable pub failed_state : ResourceState → Bool
failed_state ResourceState.activation_failed = true
failed_state ResourceState.update_failed = true
failed_state ResourceState.delete_failed = true
failed_state _ = false

unfoldable pub deleted_state : ResourceState → Bool
deleted_state ResourceState.deleted = true
deleted_state _ = false

unfoldable pub delete_failed_state : ResourceState → Bool
delete_failed_state ResourceState.delete_failed = true
delete_failed_state _ = false

-- The common end of serviceAccountPresent and apiKeyPresent: a resource that was found.
unfoldable pub state_present : String → ResourceState → Result Bool
state_present id state =
    if failed_state state
    then err (error invalid_argument (in_state id state))
    else if deleted_state state
    then err (error not_found (created_but_deleted id))
    else ok true

-- The common end of serviceAccountGone and apiKeyGone.
state_gone : String → ResourceState → Result Bool
state_gone id state =
    if delete_failed_state state
    then err (error invalid_argument (in_state id state))
    else ok (deleted_state state)

-- A call that failed: `absent` where the error says that the resource was not found.
unless_not_found : Bool → Error → Result Bool
unless_not_found absent e = if is_not_found e.kind then ok absent else err e

unfoldable pub account_present_answer : String → Reply (Option ProtoAccount) → Result Bool
unfolding unless_not_found state_present map_grpc_error failed_state deleted_state
account_present_answer id (fault e) = unless_not_found false (map_grpc_error e)
account_present_answer id (answer none) = ok false
account_present_answer id (answer (some sa)) = state_present id sa.state

unfoldable pub account_gone_answer : String → Reply (Option ProtoAccount) → Result Bool
unfolding unless_not_found state_gone map_grpc_error deleted_state delete_failed_state
account_gone_answer id (fault e) = unless_not_found true (map_grpc_error e)
account_gone_answer id (answer none) = ok true
account_gone_answer id (answer (some sa)) = state_gone id sa.state

unfoldable pub key_present_answer : String → Reply (Option ProtoKey) → Result Bool
unfolding unless_not_found state_present map_grpc_error failed_state deleted_state
key_present_answer id (fault e) = unless_not_found false (map_grpc_error e)
key_present_answer id (answer none) = ok false
key_present_answer id (answer (some key)) = state_present id key.state

unfoldable pub key_gone_answer : String → Reply (Option ProtoKey) → Result Bool
unfolding unless_not_found state_gone map_grpc_error deleted_state delete_failed_state
key_gone_answer id (fault e) = unless_not_found true (map_grpc_error e)
key_gone_answer id (answer none) = ok true
key_gone_answer id (answer (some key)) = state_gone id key.state

-- What one check decides: `none` to wait and check again.
unfoldable pub satisfied : Result Bool → Option (Result (Unit {0}))
satisfied (err e) = some (err e)
satisfied (ok true) = some (ok tt)
satisfied (ok false) = none

module _ {W : Type 0} (svc : CloudService W) where
  unfoldable pub await_loop : ℕ → Context → String → (Context → Exec W Bool) → Exec W (Unit {0})
  unfolding satisfied
  await_loop zero ctx what check w = (err (error other out_of_fuel), w)
  await_loop (suc fuel) ctx what check w =
      let (r, w₁) = check ctx w in
      let (fired, w₂) = svc.wait_until ctx (svc.now w₁ + confirm_poll_interval) w₁ in
      let rest = await_loop fuel ctx what check w₂ in
      elim (satisfied r) [
        | some done ↦ (done, w₁)
        | none ↦ if fired then rest else (err (error unavailable (not_in_effect what)), w₂)
      ]

  -- awaitCondition
  unfoldable pub await_condition : Context → String → (Context → Exec W Bool) → Exec W (Unit {0})
  unfolding await_loop
  await_condition ctx what check w =
      await_loop confirm_fuel (with_timeout ctx confirm_timeout (svc.now w)) what check w

  unfoldable pub service_account_present : String → Context → Exec W Bool
  unfolding account_present_answer
  service_account_present id ctx w =
      let (r, w') = svc.get_service_account ctx id w in (account_present_answer id r, w')

  unfoldable pub service_account_gone : String → Context → Exec W Bool
  unfolding account_gone_answer
  service_account_gone id ctx w =
      let (r, w') = svc.get_service_account ctx id w in (account_gone_answer id r, w')

  unfoldable pub api_key_present : String → Context → Exec W Bool
  unfolding key_present_answer
  api_key_present id ctx w = let (r, w') = svc.get_api_key ctx id w in (key_present_answer id r, w')

  unfoldable pub api_key_gone : String → Context → Exec W Bool
  unfolding key_gone_answer
  api_key_gone id ctx w = let (r, w') = svc.get_api_key ctx id w in (key_gone_answer id r, w')

  unfoldable pub confirm_service_account_exists : Context → String → Exec W (Unit {0})
  confirm_service_account_exists ctx id = await_condition ctx id (service_account_present id)

  unfoldable pub confirm_service_account_gone : Context → String → Exec W (Unit {0})
  confirm_service_account_gone ctx id = await_condition ctx id (service_account_gone id)

  unfoldable pub confirm_api_key_exists : Context → String → Exec W (Unit {0})
  confirm_api_key_exists ctx id = await_condition ctx id (api_key_present id)

  unfoldable pub confirm_api_key_gone : Context → String → Exec W (Unit {0})
  confirm_api_key_gone ctx id = await_condition ctx id (api_key_gone id)
