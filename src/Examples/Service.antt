-- ===== src/Examples/Service.antt =====
-- A small Cloud Ops service, whose clock is the state, and the theorems on the client at concrete
-- inputs.
use Prim.Native.Nat.{max}
use vault_plugin_secrets_tem.Prelude.{
  ℕ, ◌*◌, ◌≡◌, ◌≢◌, refl, String, true, none, some, [], ◌∷◌, arith, ltb, if◌then◌else◌,
}
use vault_plugin_secrets_tem.Exec.{ok, Context, is_over, second}
use vault_plugin_secrets_tem.Client.{ServiceAccountSpec}
use vault_plugin_secrets_tem.Client.Errors.{status, Code, OperationState}
use vault_plugin_secrets_tem.Client.Service.{
  Clocked, CloudService, Reply, answer, fault, is_deadline, AsyncOperation, ProtoSpec, Role,
  Permission,
}
use vault_plugin_secrets_tem.Client.Async.{await_operation}
use vault_plugin_secrets_tem.Client.Async.Termination.{await_operation-ne-stuck, stuck}
use vault_plugin_secrets_tem.Client.Confirm.{
  confirm_api_key_gone, confirm_api_key_exists, confirm_service_account_gone,
  confirm_service_account_exists,
}
use vault_plugin_secrets_tem.Client.Confirm.Termination.{confirmations-ne-stuck}
use vault_plugin_secrets_tem.Prelude.Text.{trim_space, lower, codes, codes_eq}
use vault_plugin_secrets_tem.Client.Access.{
  to_proto, spec_from_proto, parse_account_role, parse_namespace_permission, convert_accesses,
  render_role, render_permission,
}
use vault_plugin_secrets_tem.Client.Access.Roundtrip.{
  to_proto-spec_from_proto, render_role_parsed, render_permission_parsed,
}
use vault_plugin_secrets_tem.Client.Access.Accepted.{IsConversion, to_proto-IsConversion}
use vault_plugin_secrets_tem.Client.Token.{TokenCodec, api_key_id_from_token}
use vault_plugin_secrets_tem.Client.Token.Carried.{Carries, api_key_id_from_token-Carries}
use vault_plugin_secrets_tem.Prelude.{ap, ◌↔◌, ◌⊎◌}
use vault_plugin_secrets_tem.Client.Async.{
  classify_operation_state, poll_operation, op_id, poll_answer,
}
use vault_plugin_secrets_tem.Client.Async.Outcome.{await_operation-ok, IsFulfilled, SawFulfilled}

abbrev pub when_live : {A : Type 0} → Context → ℕ → A → Reply A
when_live c w a = if is_over c w then fault (status Code.deadline_exceeded "deadline") else answer a

abbrev pub refused : {A : Type 0} → Reply A
refused = fault (status Code.permission_denied "no")

abbrev operation_at : ℕ → String → AsyncOperation
operation_at w id = record {
  id = id;
  state = if ltb w (3 * second) then OperationState.pending else OperationState.fulfilled;
  failure_reason = "";
}

-- The clock is the state; an operation is fulfilled after three seconds; nothing else exists.
abbrev pub service : CloudService ℕ
service = record {
  now = λ w. w;
  wait_until = λ c t w. (true, max t w);
  create_service_account = λ c s w. (refused, w);
  get_service_account = λ c id w. (when_live c w none, w);
  update_service_account = λ c id s v w. (refused, w);
  delete_service_account = λ c id v w. (refused, w);
  get_service_accounts = λ c t w. (refused, w);
  create_api_key = λ c s w. (refused, w);
  get_api_key = λ c id w. (when_live c w none, w);
  delete_api_key = λ c id v w. (refused, w);
  get_api_keys = λ c id t w. (refused, w);
  get_async_operation = λ c id w. (when_live c w (some (operation_at w id)), w);
}

late_is_deadline :
    {A : Type 0} (c : Context) (w : ℕ) (a : A)
    → is_over c w ≡ true
    → is_deadline (when_live c w a) ≡ true
late_is_deadline c w a over = rw over refl

service-Clocked : Clocked service
service-Clocked = record {
  fires_late = λ c t w fired. omega arith;
  operation_over = λ c id w over. late_is_deadline c w (some (operation_at w id)) over;
  account_over = λ c id w over. late_is_deadline c w none over;
  account_clock = λ c id w. omega arith;
  key_over = λ c id w over. late_is_deadline c w none over;
  key_clock = λ c id w. omega arith;
}

abbrev pending_operation : AsyncOperation
pending_operation = record { id = "op"; state = OperationState.pending; failure_reason = "" }

await_operation-ne-stuck_example :
    (await_operation service none (some pending_operation) 0).0 ≢ stuck
await_operation-ne-stuck_example =
    await_operation-ne-stuck service service-Clocked none (some pending_operation) 0

confirmations-ne-stuck_example :
    ((confirm_service_account_exists service none "id" 0).0 ≢ stuck)
    × ((confirm_service_account_gone service none "id" 0).0 ≢ stuck)
    × ((confirm_api_key_exists service none "id" 0).0 ≢ stuck)
    × ((confirm_api_key_gone service none "id" 0).0 ≢ stuck)
confirmations-ne-stuck_example = confirmations-ne-stuck service service-Clocked none "id" 0

-- The operation is fulfilled at the third poll, three seconds in.
abbrev three_seconds : ℕ
three_seconds = 3 * second

operation_done : await_operation service none (some pending_operation) 0 ≡ (ok tt, three_seconds)
unfolding await_operation classify_operation_state poll_operation op_id poll_answer
operation_done = refl

await_operation-ok_example :
    ((some pending_operation ≡ none)
      × ((await_operation service none (some pending_operation) 0).1 ≡ 0))
    ⊎ ((o : AsyncOperation) × (some pending_operation ≡ some o)
        × IsFulfilled o
        × ((await_operation service none (some pending_operation) 0).1 ≡ 0))
    ⊎ SawFulfilled service
        (op_id (some pending_operation))
        (await_operation service none (some pending_operation) 0).1
await_operation-ok_example =
    await_operation-ok service none (some pending_operation) 0 (ap (λ x. x.0) operation_done)

-- The names of enum values that the generated code does not know.
abbrev pub role_name : Role → String
role_name r = "role"

abbrev pub permission_name : Permission → String
permission_name p = "permission"

abbrev account : ServiceAccountSpec
account = record {
  name = "ci";
  description = "builds";
  account_role = " Developer ";
  namespace_access = ("prod.a1", "WRITE") ∷ [];
}

abbrev account_proto : ProtoSpec
account_proto = record {
  name = "ci";
  description = "builds";
  role = Role.developer;
  namespace_accesses = ("prod.a1", Permission.write) ∷ [];
}

account_converted : to_proto account ≡ ok account_proto
unfolding to_proto parse_account_role parse_namespace_permission trim_space lower convert_accesses
account_converted = refl

to_proto-spec_from_proto_example :
    to_proto (spec_from_proto role_name permission_name account_proto) ≡ ok account_proto
to_proto-spec_from_proto_example =
    to_proto-spec_from_proto role_name permission_name account account_proto account_converted

to_proto-IsConversion_example :
    to_proto account ≡ ok account_proto ↔ IsConversion account account_proto
to_proto-IsConversion_example = to_proto-IsConversion account account_proto

owner_parsed : parse_account_role " OWNER " ≡ ok Role.owner
unfolding parse_account_role lower trim_space
owner_parsed = refl

write_parsed : parse_namespace_permission "Write" ≡ ok Permission.write
unfolding parse_namespace_permission lower trim_space
write_parsed = refl

render_role_parsed_example :
    (codes_eq
        (codes (render_role role_name permission_name Role.owner))
        (lower (trim_space " OWNER "))
      ≡ true)
    × (parse_account_role (render_role role_name permission_name Role.owner) ≡ ok Role.owner)
render_role_parsed_example =
    render_role_parsed role_name permission_name " OWNER " Role.owner owner_parsed

render_permission_parsed_example :
    (codes_eq
        (codes (render_permission role_name permission_name Permission.write))
        (lower (trim_space "Write"))
      ≡ true)
    × (parse_namespace_permission (render_permission role_name permission_name Permission.write)
        ≡ ok Permission.write)
render_permission_parsed_example =
    render_permission_parsed role_name permission_name "Write" Permission.write write_parsed

abbrev codec : TokenCodec
codec = record { decode_base64 = λ t. some t; key_id_claim = λ t. some t }

api_key_id_from_token-Carries_example :
    api_key_id_from_token codec "h.key.s" ≡ ok "key" ↔ Carries codec "h.key.s" "key"
api_key_id_from_token-Carries_example = api_key_id_from_token-Carries codec "h.key.s" "key"
