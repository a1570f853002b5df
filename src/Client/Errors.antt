-- ===== src/Client/Errors.antt =====
-- client/errors.go: the error categories that the path handlers switch on, and the mapping of gRPC
-- statuses to them. An error is its category, which `errors.Is` reads through every wrapping, and a
-- detail: one constructor for each place of the program that builds a message, with the values that
-- the message shows.
use vault_plugin_secrets_tem.Prelude.{ℕ, String, Bool, true, false}

-- google.golang.org/grpc/codes
pub data Code : Type 0 where
  ok canceled unknown invalid_argument deadline_exceeded not_found already_exists : Code
  permission_denied resource_exhausted failed_precondition aborted out_of_range : Code
  unimplemented internal unavailable data_loss unauthenticated : Code

-- An error of a gRPC call: one that carries a status, or any other.
pub data RpcError : Type 0 where
  status : Code → String → RpcError
  plain : String → RpcError

-- The sentinel errors; `other` is an error that wraps none of them.
pub data Kind : Type 0 where
  not_found permission_denied invalid_argument resource_exhausted unavailable other : Kind

-- The states of an asynchronous operation and of a resource in the Cloud API.
pub data OperationState : Type 0 where
  unspecified pending in_progress fulfilled failed cancelled rejected : OperationState

pub data ResourceState : Type 0 where
  unspecified activating activation_failed active updating update_failed deleting : ResourceState
  delete_failed deleted suspended expired : ResourceState

pub data Detail : Type 0 where
  message : String → Detail
  within : String → Detail → Detail
  no_service_account no_account_named no_api_key api_key_has_no_spec : String → Detail
  created_but_deleted already_deleted not_in_effect : String → Detail
  in_state : String → ResourceState → Detail
  operation_ended : OperationState → String → Detail
  operation_timed_out operation_unreported : String → Detail
  empty_name empty_namespace empty_api_key expiry_required page_token_stuck : Detail
  unknown_account_role unknown_permission : String → Detail
  not_jwt : ℕ → Detail
  bad_payload_encoding bad_payload no_key_id_claim : Detail
  bad_probe_interval bad_probe_successes : Detail
  not_confirmed : String → ℕ → Detail → Detail
  success_of : ℕ → ℕ → Detail
  dialling : String → String → Detail
  no_response : Detail
  not_configured empty_entry_name : Detail
  missing_lease : Detail
  missing_internal not_a_string not_a_time entry_gone : String → Detail
  key_expired : ℕ → Detail
  invalid_interval invalid_successes window_too_long : Detail
  out_of_fuel : Detail

pub record Error : Type 0 where
  pub kind : Kind
  pub detail : Detail

abbrev pub error : Kind → Detail → Error
error k d = record { kind = k; detail = d }

-- fmt.Errorf("...: %w", err) keeps the category.
abbrev pub wrap : String → Error → Error
wrap op e = record e { detail = within op e.detail }

-- errors.Is(err, ErrNotFound) and the like.
abbrev pub is_not_found : Kind → Bool
is_not_found not_found = true
is_not_found _ = false

-- The category of a status code; `other` where MapGRPCError returns its argument.
unfoldable pub category : Code → Kind
category not_found = not_found
category permission_denied = permission_denied
category unauthenticated = permission_denied
category invalid_argument = invalid_argument
category failed_precondition = invalid_argument
category already_exists = invalid_argument
category resource_exhausted = resource_exhausted
category unavailable = unavailable
category deadline_exceeded = unavailable
category aborted = unavailable
category internal = unavailable
category _ = other

unfoldable pub map_grpc_error : RpcError → Error
unfolding category
map_grpc_error (status c m) = error (category c) (message m)
map_grpc_error (plain m) = error other (message m)
