-- ===== src/Examples/Engine.antt =====
-- Surroundings of the engine that store one entry and create one key, and the theorems on the
-- backend at concrete inputs.
use vault_plugin_secrets_tem.Prelude.{
  ℕ, ◌+◌, ◌*◌, ◌≡◌, refl, true, false, none, some, [], ◌∷◌, arith, ◌≤◌, ◌<◌, ◌==◌, if◌then◌else◌,
  get_elem?,
}
use vault_plugin_secrets_tem.Prelude.Int.{pos, pos_part, neg_part}
use vault_plugin_secrets_tem.Exec.{ok, err, second}
use vault_plugin_secrets_tem.Client.{
  ClientConfig, CloudOps, created, max_api_key_expiry, min_api_key_expiry, service_account,
}
use vault_plugin_secrets_tem.Client.Errors.{Error, error, message, Kind}
use vault_plugin_secrets_tem.Backend.Entries.{
  ServiceAccountEntry, Config, Lease, text, api_key_expiry_grace,
}
use vault_plugin_secrets_tem.Backend.Handler.{done}
use vault_plugin_secrets_tem.Backend.Handles.{
  ClientHandle, new_handle, acquire, release, release_at, install, retire, drop_current, retire_at,
  update, close_if_idle,
}
use vault_plugin_secrets_tem.Backend.Handles.Steps.{
  System, build, finish, drop, retire_one, Reach, here, next, init, first, is_current,
}
use vault_plugin_secrets_tem.Backend.Handles.Lifetime.{open_while_used, closed_when_unused}
use vault_plugin_secrets_tem.Backend.World.{Env}
use vault_plugin_secrets_tem.Backend.World.Trace.{Emits}
use vault_plugin_secrets_tem.Backend.Policy.{ttl_checks}
use vault_plugin_secrets_tem.Backend.Policy.Checks.{accepted-key_lifetime, overflow-key_lifetime}
use vault_plugin_secrets_tem.Backend.Probing.{
  default_probe_config, effective_checked, effective, validate_probe_config, probe_budget,
  min_useful_probe_budget, max_probe_timeout,
}
use vault_plugin_secrets_tem.Backend.Probing.Bounds.{
  InRange, effective_checked-InRange, probe_budget-bounds,
}
use vault_plugin_secrets_tem.Backend.Creds.{key_lifetime, path_creds_read}
use vault_plugin_secrets_tem.Backend.Creds.Read.{CredsPost, path_creds_read-CredsPost}
use vault_plugin_secrets_tem.Backend.Lease.{
  ceiling_for, window, start_of, issue_time_of, internal_string, internal_value,
  secret_api_key_revoke,
}
use vault_plugin_secrets_tem.Backend.Lease.Ceiling.{
  granted, ceiling_for-bounded, ceiling_for-greatest,
}
use vault_plugin_secrets_tem.Backend.Lease.Revocation.{RevokePost, secret_api_key_revoke-RevokePost}
use vault_plugin_secrets_tem.Backend.Rotate.{rotate_with}
use vault_plugin_secrets_tem.Backend.Rotate.Order.{RotatePost, rotate_with-RotatePost}

abbrev pub absent : Error
absent = error Kind.not_found (message "absent")

abbrev pub config : Config
config = record {
  api_key = "h.root.s";
  api_key_id = "root";
  admin_service_account_id = "admin";
  address = "localhost:443";
  root_key_ttl = pos (90 * 24 * 3600 * second);
}

abbrev pub entry : ServiceAccountEntry
entry = record {
  service_account_id = "sa";
  account_role = "developer";
  namespace_access = ("prod.a1", "write") ∷ [];
  description = "builds";
  ttl = pos (3600 * second);
  max_ttl = pos (24 * 3600 * second);
  adopted = false;
  verify_propagation = true;
}

-- Every create gives a key, every delete succeeds.
abbrev pub cloud : CloudOps ℕ
cloud = record {
  create_service_account = λ c k s w. (created "sa", w);
  get_service_account = λ c k id w. (err absent, w);
  update_service_account = λ c k id s w. (ok tt, w);
  delete_service_account = λ c k id w. (ok tt, w);
  find_service_account_by_name = λ c k n w. (err absent, w);
  create_api_key = λ c k s w. (created (record { id = "key"; token = "h.key.s" }), w);
  get_api_key =
      λ c k id w. (ok (record { id = id; owner_id = "sa"; owner_type = service_account }), w);
  delete_api_key = λ c k id w. (ok tt, w);
  count_api_keys = λ c k id w. (ok 3, w);
}

-- The clock is the state; one configuration and one entry are stored.
abbrev pub env : Env ℕ
env = record {
  storage_get = λ path w. (
    ok (
        if path == "config"
        then some "config"
        else if path == "service-account/ci"
        then some "ci"
        else none),
    w,
  );
  storage_put = λ path raw w. (ok tt, w);
  storage_delete = λ path w. (ok tt, w);
  storage_list = λ path w. (ok ("ci" ∷ []), w);
  account_codec = record { encode = λ e. ok "ci"; decode = λ raw. ok entry };
  config_codec = record { encode = λ c. ok "config"; decode = λ raw. ok config };
  probe_codec = record { encode = λ c. ok "probe"; decode = λ raw. ok default_probe_config };
  token_codec = record { decode_base64 = λ t. some t; key_id_claim = λ t. some t };
  now = λ w. w;
  random_suffix = λ w. (some "0a1b2c3d", w);
  format_time = λ t. "time";
  parse_time = λ t. some 0;
  parse_duration = λ t. some (pos 0);
  new_client = λ c w. (ok tt, w);
  cloud = cloud;
  probe_namespace = λ c t n p w. (ok tt, w);
}

path_creds_read-CredsPost_example : Emits CredsPost (path_creds_read env none "ci" "temporal/")
path_creds_read-CredsPost_example = path_creds_read-CredsPost env none "ci" "temporal/"

abbrev lease : Lease
lease = record {
  internal_data = ("api_key_id", text "key") ∷ [];
  issue_time = some 0;
  ttl = pos 0;
  max_ttl = pos 0;
}

lease_key : internal_string (some lease) "api_key_id" ≡ ok "key"
unfolding internal_string internal_value
lease_key = refl

secret_api_key_revoke-RevokePost_example :
    Emits (RevokePost "key") (secret_api_key_revoke env none (some lease))
secret_api_key_revoke-RevokePost_example =
    secret_api_key_revoke-RevokePost env none (some lease) "key" lease_key

abbrev pub client : ClientConfig
client = record { api_key = "h.root.s"; host_port = "localhost:443" }

rotate_with-RotatePost_example :
    Emits (RotatePost client config) (rotate_with env none config client)
rotate_with-RotatePost_example = rotate_with-RotatePost env none config client

-- A request builds a client, a reset drops it and retires it, and the request ends.
abbrev built : System
built = record {
  handles = install client (record { cells = []; current = none });
  users = 0 ∷ [];
  retiring = [];
}

abbrev dropped : System
dropped = record built { handles = drop_current built.handles; retiring = 0 ∷ [] }

abbrev retired_in_use : System
retired_in_use = record dropped { handles = retire_at 0 dropped.handles; retiring = [] }

abbrev ended : System
ended = record retired_in_use { handles = release_at 0 retired_in_use.handles; users = [] }

abbrev used_handle : ClientHandle
used_handle = record { client = client; refs = 1; retired = true; closed = false; closes = 0 }

abbrev closed_handle : ClientHandle
closed_handle = record { client = client; refs = 0; retired = true; closed = true; closes = 1 }

Reach-retired : Reach retired_in_use
Reach-retired =
    next (next (next here (build init client refl)) (drop built 0 (unfold install in refl)))
      (retire_one dropped 0 [] (first []))

Reach-ended : Reach ended
Reach-ended = next Reach-retired (finish retired_in_use 0 [] (first []))

used_there : get_elem? retired_in_use.handles.cells 0 ≡ some used_handle
unfolding install acquire new_handle drop_current retire_at update retire close_if_idle
used_there = refl

closed_there : get_elem? ended.handles.cells 0 ≡ some closed_handle
unfolding install acquire new_handle drop_current retire_at update retire close_if_idle release_at
    release
closed_there = refl

not_current : is_current ended.handles.current 0 ≡ false
unfolding install drop_current retire_at release_at
not_current = refl

open_while_used_example : (used_handle.closed ≡ false) × (used_handle.closes ≡ 0)
open_while_used_example = open_while_used 0 used_handle Reach-retired used_there (omega arith)

closed_when_unused_example : (closed_handle.closed ≡ true) × (closed_handle.closes ≡ 1)
closed_when_unused_example =
    closed_when_unused 0 closed_handle Reach-ended closed_there not_current refl refl

-- TTLs of one hour and one day, and TTLs past the range of an int64 with the grace.
abbrev hour : ℕ
hour = 3600 * second

abbrev day : ℕ
day = 24 * 3600 * second

abbrev huge : ℕ
huge = 9223371500 * second

day_accepted : ttl_checks (pos hour) (pos day) ≡ done tt
unfolding ttl_checks
day_accepted = refl

accepted-key_lifetime_example :
    (hour ≤ day)
    × (day + api_key_expiry_grace ≤ pos_part (key_lifetime (pos day)))
    × (min_api_key_expiry + api_key_expiry_grace ≤ pos_part (key_lifetime (pos day)))
    × (pos_part (key_lifetime (pos day)) ≤ max_api_key_expiry)
accepted-key_lifetime_example = accepted-key_lifetime hour day (omega arith) day_accepted

overflow-key_lifetime_example :
    (ttl_checks (pos hour) (pos huge) ≡ done tt)
    × (key_lifetime (pos huge) ≡ pos (min_api_key_expiry + api_key_expiry_grace))
    × (min_api_key_expiry + api_key_expiry_grace < huge)
overflow-key_lifetime_example =
    overflow-key_lifetime hour huge (omega arith) (omega arith) (omega arith)

-- A key that expires two hours after the lease's start, for a max_ttl of one day.
ceiling_granted :
    ceiling_for (some lease) hour (pos day) (some (2 * hour)) ≡ ok (pos (6600 * second))
unfolding ceiling_for window start_of issue_time_of
ceiling_granted = refl

ceiling_for-bounded_example :
    (neg_part (pos (6600 * second)) ≡ 0)
    × (pos_part (pos (6600 * second)) ≤ day)
    × (start_of (issue_time_of (some lease)) hour
          + api_key_expiry_grace
          + pos_part (pos (6600 * second))
        ≤ 2 * hour)
ceiling_for-bounded_example =
    ceiling_for-bounded (some lease) hour day (2 * hour) (pos (6600 * second)) ceiling_granted

hour_fits : start_of (issue_time_of (some lease)) hour + api_key_expiry_grace + hour ≤ 2 * hour
unfolding start_of issue_time_of
hour_fits = omega arith

ceiling_for-greatest_example :
    hour ≤ granted (ceiling_for (some lease) hour (pos day) (some (2 * hour)))
ceiling_for-greatest_example =
    ceiling_for-greatest (some lease) hour day (2 * hour) hour (omega arith) (omega arith)
      (omega arith) hour_fits

default_in_force : effective_checked (some default_probe_config) ≡ done default_probe_config
unfolding effective_checked effective validate_probe_config
default_in_force = refl

effective_checked-InRange_example : InRange default_probe_config
effective_checked-InRange_example =
    effective_checked-InRange (some default_probe_config) default_probe_config default_in_force

probe_given : probe_budget (some (30 * second)) (10 * second) ≡ some (20 * second)
unfolding probe_budget
probe_given = refl

probe_budget-bounds_example :
    (min_useful_probe_budget ≤ 20 * second)
    × (20 * second ≤ max_probe_timeout)
    × (10 * second + 20 * second ≤ 30 * second)
probe_budget-bounds_example =
    probe_budget-bounds (30 * second) (10 * second) (20 * second) probe_given
