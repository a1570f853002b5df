-- ===== src/Client/Service.antt =====
-- The Cloud Ops API that client/grpc.go, client/async.go and client/confirm.go call. The service is
-- generated code and a server, so its calls and the clock are a parameter, `CloudService`; what the
-- program relies on for its loops to end is the record of hypotheses `Clocked`.
use vault_plugin_secrets_tem.Prelude.{ℕ, ◌≤◌, String, ◌≡◌, Bool, true, false, Option, List}
use vault_plugin_secrets_tem.Exec.{Context, is_over}
use vault_plugin_secrets_tem.Client.Errors.{
  RpcError, status, deadline_exceeded, OperationState, ResourceState,
}

-- An enum value that the generated code has no name for is `unmapped` with its number.
pub data Role : Type 0 where
  unspecified owner admin developer finance_admin read metrics_read : Role
  unmapped : ℕ → Role

pub data Permission : Type 0 where
  unspecified admin write read : Permission
  unmapped : ℕ → Permission

pub data ProtoOwner : Type 0 where
  unspecified user service_account : ProtoOwner
  unmapped : ℕ → ProtoOwner

-- identityv1.ServiceAccountSpec with its Access.
pub record ProtoSpec : Type 0 where
  pub name : String
  pub description : String
  pub role : Role
  pub namespace_accesses : List (String × Permission)

pub record ProtoAccount : Type 0 where
  pub id : String
  pub resource_version : String
  pub state : ResourceState
  pub spec : ProtoSpec

pub record ProtoKeySpec : Type 0 where
  pub owner_id : String
  pub owner_type : ProtoOwner
  pub display_name : String
  pub description : String
  pub expiry_time : ℕ

pub record ProtoKey : Type 0 where
  pub id : String
  pub resource_version : String
  pub state : ResourceState
  pub spec : Option ProtoKeySpec

pub record AsyncOperation : Type 0 where
  pub id : String
  pub state : OperationState
  pub failure_reason : String

pub record CreatedAccount : Type 0 where
  pub id : String
  pub operation : Option AsyncOperation

pub record CreatedKey : Type 0 where
  pub id : String
  pub token : String
  pub operation : Option AsyncOperation

pub record Page (A : Type 0) : Type 0 where
  pub items : List A
  pub next_token : String

pub data Reply (A : Type 0) : Type 0 where
  answer : A → Reply A
  fault : RpcError → Reply A

-- The error that gRPC gives for a call whose deadline has passed.
abbrev pub is_deadline : {A : Type 0} → Reply A → Bool
is_deadline (fault (status deadline_exceeded m)) = true
is_deadline _ = false

pub record CloudService (W : Type 0) : Type 0 where
  pub now : W → ℕ
  -- The select of a loop: true when the timer for the given time fires, false when the context ends.
  pub wait_until : Context → ℕ → W → Bool × W
  pub create_service_account : Context → ProtoSpec → W → Reply CreatedAccount × W
  pub get_service_account : Context → String → W → Reply (Option ProtoAccount) × W
  pub update_service_account :
      Context → String → ProtoSpec → String → W → Reply (Option AsyncOperation) × W
  pub delete_service_account : Context → String → String → W → Reply (Option AsyncOperation) × W
  pub get_service_accounts : Context → String → W → Reply (Page ProtoAccount) × W
  pub create_api_key : Context → ProtoKeySpec → W → Reply CreatedKey × W
  pub get_api_key : Context → String → W → Reply (Option ProtoKey) × W
  pub delete_api_key : Context → String → String → W → Reply (Option AsyncOperation) × W
  pub get_api_keys : Context → String → String → W → Reply (Page String) × W
  pub get_async_operation : Context → String → W → Reply (Option AsyncOperation) × W

-- The hypotheses on time: a timer does not fire early, the clock never runs back, and a call made
-- on a context that is over gives
-- DeadlineExceeded.
pub record Clocked {W : Type 0} (svc : CloudService W) : Type 0 where
  pub fires_late :
      (c : Context) (t : ℕ) (w : W)
      → (svc.wait_until c t w).0 ≡ true
      → t ≤ svc.now (svc.wait_until c t w).1
  pub operation_over :
      (c : Context) (id : String) (w : W)
      → is_over c (svc.now w) ≡ true
      → is_deadline (svc.get_async_operation c id w).0 ≡ true
  pub account_over :
      (c : Context) (id : String) (w : W)
      → is_over c (svc.now w) ≡ true
      → is_deadline (svc.get_service_account c id w).0 ≡ true
  pub account_clock :
      (c : Context) (id : String) (w : W) → svc.now w ≤ svc.now (svc.get_service_account c id w).1
  pub key_over :
      (c : Context) (id : String) (w : W)
      → is_over c (svc.now w) ≡ true
      → is_deadline (svc.get_api_key c id w).0 ≡ true
  pub key_clock :
      (c : Context) (id : String) (w : W) → svc.now w ≤ svc.now (svc.get_api_key c id w).1
