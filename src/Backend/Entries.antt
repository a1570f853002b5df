-- ===== src/Backend/Entries.antt =====
-- What the engine stores and what its requests carry: config of path_config.go, probeConfig of
-- path_probe_config.go, serviceAccountEntry of path_service_accounts.go, the lease of
-- secret_api_key.go, and the constants of these files. Durations are int64 nanoseconds.
use vault_plugin_secrets_tem.Prelude.{ℕ, ◌*◌, String, Bool, Option, List}
use vault_plugin_secrets_tem.Prelude.Int.{ℤ}
use vault_plugin_secrets_tem.Exec.{second, millisecond}
use vault_plugin_secrets_tem.Client.{NamespaceAccess}

abbrev pub config_storage_path : String
config_storage_path = "config"

abbrev pub probe_config_storage_path : String
probe_config_storage_path = "probe-config"

abbrev pub service_account_storage_prefix : String
service_account_storage_prefix = "service-account/"

abbrev pub default_service_account_ttl : ℕ
default_service_account_ttl = 3600 * second

abbrev pub default_service_account_max_ttl : ℕ
default_service_account_max_ttl = 24 * 3600 * second

abbrev pub api_key_expiry_grace : ℕ
api_key_expiry_grace = 600 * second

abbrev pub default_address : String
default_address = "saas-api.tmprl.cloud:443"

abbrev pub default_root_key_ttl : ℕ
default_root_key_ttl = 2160 * 3600 * second

abbrev pub min_probe_interval : ℕ
min_probe_interval = 50 * millisecond

abbrev pub max_probe_interval : ℕ
max_probe_interval = 5 * second

abbrev pub min_probe_successes : ℕ
min_probe_successes = 1

abbrev pub max_probe_successes : ℕ
max_probe_successes = 20

pub record ServiceAccountEntry : Type 0 where
  pub service_account_id : String
  pub account_role : String
  pub namespace_access : NamespaceAccess
  pub description : String
  pub ttl : ℤ
  pub max_ttl : ℤ
  pub adopted : Bool
  pub verify_propagation : Bool

pub record Config : Type 0 where
  pub api_key : String
  pub api_key_id : String
  pub admin_service_account_id : String
  pub address : String
  pub root_key_ttl : ℤ

pub record ProbeConfig : Type 0 where
  pub interval : ℤ
  pub consecutive_successes : ℤ

-- The fields of a write to service-accounts/<name>: `none` for a field that the request omits.
pub record AccountRequest : Type 0 where
  pub name : String
  pub mount_point : String
  pub account_role : String
  pub namespace_access : Option (List String)
  pub description : Option String
  pub ttl : Option ℕ
  pub max_ttl : Option ℕ
  pub force : Bool
  pub verify_propagation : Option Bool

-- The fields of a write to config.
pub record ConfigRequest : Type 0 where
  pub api_key : String
  pub has_api_key_id : Bool
  pub admin_service_account_id : String
  pub address : Option String
  pub root_key_ttl : Option ℕ

-- The fields of a write to config/probe.
pub record ProbeRequest : Type 0 where
  pub interval : Option String
  pub consecutive_successes : Option ℤ

-- A value of a lease's internal data.
pub data Value : Type 0 where
  null : Value
  text : String → Value
  other : Value

-- logical.Secret; `none` for a time is Go's zero time.
pub record Lease : Type 0 where
  pub internal_data : List (String × Value)
  pub issue_time : Option ℕ
  pub ttl : ℤ
  pub max_ttl : ℤ
