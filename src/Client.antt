-- ===== src/Client.antt =====
-- client/client.go: the types that the engine and the Cloud Ops client share, and the interface
-- `CloudOps` between them. The state `W` of the world outside is a parameter.
pub mod Errors
pub mod Service
pub mod Access
pub mod Token
pub mod Async
pub mod Confirm
pub mod Grpc
pub mod Probe
use vault_plugin_secrets_tem.Prelude.{ℕ, ◌*◌, String, Bool, Option, List}
use vault_plugin_secrets_tem.Exec.{Exec, Context, second}
use Errors.{Error}

-- Config: the credential and the address that a client uses.
pub record ClientConfig : Type 0 where
  pub api_key : String
  pub host_port : String

-- A Go map from namespaces to permissions, as the list of its pairs.
abbrev pub NamespaceAccess : Type 0
NamespaceAccess = List (String × String)

pub record ServiceAccountSpec : Type 0 where
  pub name : String
  pub description : String
  pub account_role : String
  pub namespace_access : NamespaceAccess

pub record ServiceAccount : Type 0 where
  pub id : String
  pub resource_version : String
  pub spec : ServiceAccountSpec

-- The expiry is a time; `none` is Go's zero time.
pub record ApiKeySpec : Type 0 where
  pub service_account_id : String
  pub display_name : String
  pub description : String
  pub expiry_time : Option ℕ

pub record ApiKey : Type 0 where
  pub id : String
  pub token : String

pub data OwnerType : Type 0 where
  unknown user service_account : OwnerType

pub record ApiKeyMetadata : Type 0 where
  pub id : String
  pub owner_id : String
  pub owner_type : OwnerType

abbrev pub max_api_keys_per_service_account : ℕ
max_api_keys_per_service_account = 20

abbrev pub max_api_key_expiry : ℕ
max_api_key_expiry = 2 * 365 * 24 * 3600 * second

abbrev pub min_api_key_expiry : ℕ
min_api_key_expiry = 24 * 3600 * second

-- What a create gives: the value; nothing but an error; or an error beside what was created, which
-- may exist and is the caller's to clean up.
pub data Created (A : Type 0) : Type 0 where
  created : A → Created A
  not_created : Error → Created A
  unconfirmed : A → Error → Created A

-- The operations of one client take the configuration that it was built from.
pub record CloudOps (W : Type 0) : Type 0 where
  pub create_service_account : ClientConfig → Context → ServiceAccountSpec → W → Created String × W
  pub get_service_account : ClientConfig → Context → String → Exec W ServiceAccount
  pub update_service_account :
      ClientConfig → Context → String → ServiceAccountSpec → Exec W (Unit {0})
  pub delete_service_account : ClientConfig → Context → String → Exec W (Unit {0})
  pub find_service_account_by_name : ClientConfig → Context → String → Exec W ServiceAccount
  pub create_api_key : ClientConfig → Context → ApiKeySpec → W → Created ApiKey × W
  pub get_api_key : ClientConfig → Context → String → Exec W ApiKeyMetadata
  pub delete_api_key : ClientConfig → Context → String → Exec W (Unit {0})
  pub count_api_keys : ClientConfig → Context → String → Exec W ℕ
