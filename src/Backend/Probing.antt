-- ===== src/Backend/Probing.antt =====
-- config/probe (path_probe_config.go), the probe's time budget (probe_budget.go,
-- credential_request_budget.go) and the verification of a new key (path_creds_probe.go).
pub mod Bounds
pub mod Ends
use vault_plugin_secrets_tem.Prelude.{
  is_some, Bool, ℕ, ◌-◌, ◌*◌, String, ◌||◌, Option, none, some, List, [], ◌∷◌, ltb, leb, nat_eq,
  if◌then◌else◌,
}
use vault_plugin_secrets_tem.Prelude.Int.{ℤ, pos, negsuc, pos_part, ltb_ℤ}
use vault_plugin_secrets_tem.Prelude.Text.{trim_space}
use vault_plugin_secrets_tem.Exec.{Result, ok, err, Context, with_timeout, second, millisecond}
use vault_plugin_secrets_tem.Client.{NamespaceAccess}
pub use vault_plugin_secrets_tem.Client.Probe.{
  max_probe_timeout, default_probe_interval, default_probe_successes,
}
use vault_plugin_secrets_tem.Client.Probe.{ProbeSettings}
use vault_plugin_secrets_tem.Client.Errors.{
  Error, error, other, wrap, invalid_interval, invalid_successes, window_too_long,
}
use vault_plugin_secrets_tem.Backend.Entries.{
  ProbeConfig, ProbeRequest, ServiceAccountEntry, probe_config_storage_path, min_probe_interval,
  max_probe_interval, min_probe_successes, max_probe_successes,
}
use vault_plugin_secrets_tem.Backend.Handler.{
  Outcome, done, rejected, failed, Handler, ◌>>=◌, pure, lift, or_fail, bad_interval,
  bad_probe_config, Warning, nothing_to_verify, no_time_to_verify, not_confirmed,
}
use vault_plugin_secrets_tem.Backend.World.{Env, State, ask, note, load, store, get_time, removed}

abbrev pub credential_request_timeout : ℕ
credential_request_timeout = 55 * second

abbrev pub min_useful_probe_budget : ℕ
min_useful_probe_budget = second

-- defaultProbeConfig and DefaultProbeSettings
abbrev pub default_probe_config : ProbeConfig
default_probe_config = record {
  interval = pos default_probe_interval;
  consecutive_successes = pos default_probe_successes;
}

-- clientSettings
abbrev pub client_settings : ProbeConfig → ProbeSettings
client_settings cfg = record {
  interval = cfg.interval;
  consecutive_successes = cfg.consecutive_successes;
}

-- The check on the shortest time that the confirmations need. It runs after the range checks, where
-- both numbers are positive and the int64 product cannot wrap.
window_check : ℤ → ℤ → Result (Unit {0})
window_check interval successes =
    if leb max_probe_timeout ((pos_part successes - 1) * pos_part interval)
    then err (error other window_too_long)
    else ok tt

-- validateProbeConfig
unfoldable pub validate_probe_config : ProbeConfig → Result (Unit {0})
unfolding window_check
validate_probe_config cfg =
    if ltb_ℤ cfg.interval (pos min_probe_interval) || ltb_ℤ (pos max_probe_interval) cfg.interval
    then err (error other invalid_interval)
    else if ltb_ℤ cfg.consecutive_successes (pos min_probe_successes)
        || ltb_ℤ (pos max_probe_successes) cfg.consecutive_successes
    then err (error other invalid_successes)
    else window_check cfg.interval cfg.consecutive_successes

unless_zero : ℤ → ℤ → ℤ
unless_zero d (pos n) = if nat_eq n 0 then d else pos n
unless_zero d (negsuc n) = negsuc n

-- The defaults, overridden by the stored fields that are not zero.
unfoldable pub effective : Option ProbeConfig → ProbeConfig
unfolding unless_zero
effective none = default_probe_config
effective (some stored) = record {
  interval = unless_zero (pos default_probe_interval) stored.interval;
  consecutive_successes = unless_zero (pos default_probe_successes) stored.consecutive_successes;
}

abbrev checked_with : {A : Type 0} → (Error → Outcome A) → A → Result (Unit {0}) → Outcome A
checked_with bad a (ok _) = done a
checked_with bad a (err e) = bad e

-- Stored settings are checked on the way in; where nothing is stored the defaults are not.
unfoldable pub effective_checked : Option ProbeConfig → Outcome ProbeConfig
unfolding effective validate_probe_config
effective_checked none = done default_probe_config
effective_checked (some stored) =
    checked_with (λ e. failed (wrap "stored probe config is invalid" e)) (effective (some stored))
      (validate_probe_config (effective (some stored)))

module _ (parse_duration : String → Option ℤ) where
  new_interval : ProbeConfig → Option String → Outcome ProbeConfig
  new_interval cfg none = done cfg
  new_interval cfg (some raw) = elim (parse_duration (trim_space raw)) [
    | none ↦ rejected (bad_interval (trim_space raw))
    | some d ↦ done (record cfg { interval = d })
  ]

new_successes : ProbeConfig → Option ℤ → ProbeConfig
new_successes cfg none = cfg
new_successes cfg (some n) = record cfg { consecutive_successes = n }

-- probeBudget at the time `now`: `none` where probing is not worthwhile.
unfoldable pub probe_budget : Context → ℕ → Option ℕ
probe_budget none now = some max_probe_timeout
probe_budget (some deadline) now =
    let budget = deadline - now in
    if ltb budget min_useful_probe_budget
    then none
    else some (if ltb max_probe_timeout budget then max_probe_timeout else budget)

unfoldable pub warning_of : String → Result (Unit {0}) → List Warning → List Warning
warning_of namespace (ok _) ws = ws
warning_of namespace (err e) ws = not_confirmed namespace e ∷ ws

module _ {W : Type 0} (env : Env W) where
  -- getProbeConfig
  unfoldable pub get_probe_config : Handler (State W) ProbeConfig
  unfolding load effective_checked
  get_probe_config = do
    stored ← load env env.probe_codec probe_config_storage_path
    lift (effective_checked stored)

  -- The settings that a write to config/probe asks for, over those in force.
  unfoldable pub requested_probe_config : ProbeConfig → ProbeRequest → Outcome ProbeConfig
  unfolding new_interval new_successes validate_probe_config
  requested_probe_config cfg q = elim (new_interval env.parse_duration cfg q.interval) [
    | done timed ↦
        checked_with (λ e. rejected (bad_probe_config e))
          (new_successes timed q.consecutive_successes)
          (validate_probe_config (new_successes timed q.consecutive_successes))
    | rejected r ↦ rejected r
    | failed e ↦ failed e
  ]

  -- pathProbeConfigWrite
  unfoldable pub path_probe_config_write : ProbeRequest → Handler (State W) (Unit {0})
  unfolding get_probe_config requested_probe_config store
  path_probe_config_write q = do
    cfg ← get_probe_config
    new ← lift (requested_probe_config cfg q)
    stored ← store env env.probe_codec probe_config_storage_path new
    lift (or_fail stored)

  -- pathProbeConfigRead returns what is in force.
  unfoldable pub path_probe_config_read : Handler (State W) ProbeConfig
  unfolding get_probe_config
  path_probe_config_read = get_probe_config

  -- pathProbeConfigDelete
  unfoldable pub path_probe_config_delete : Handler (State W) (Unit {0})
  path_probe_config_delete = do
    gone ← note (removed probe_config_storage_path) (env.storage_delete probe_config_storage_path)
    lift (or_fail gone)

  -- probeConfigExists
  unfoldable pub probe_config_exists : Handler (State W) Bool
  probe_config_exists = do
    got ← ask (env.storage_get probe_config_storage_path)
    raw ← lift (or_fail got)
    pure (is_some raw)

  -- The goroutines of verifyPropagation, one for each namespace, and their warnings. They share
  -- nothing but the list of warnings, so they run in turn here; the sorting of texts is left out.
  unfoldable pub probe_all :
      Context → String → ProbeConfig → NamespaceAccess → Handler (State W) (List Warning)
  unfolding warning_of
  probe_all ctx token settings [] = pure []
  probe_all ctx token settings ((namespace, permission) ∷ m) = do
    probed ← ask (env.probe_namespace ctx token namespace settings)
    ws ← probe_all ctx token settings m
    pure (warning_of namespace probed ws)

  unfoldable pub probe_within :
      Context
      → ServiceAccountEntry
      → String
      → ProbeConfig
      → Option ℕ
      → Handler (State W) (List Warning)
  probe_within ctx entry token settings none = pure (no_time_to_verify ∷ [])
  probe_within ctx entry token settings (some budget) = do
    now ← get_time env
    probe_all (with_timeout ctx budget now) token settings entry.namespace_access

  unfoldable pub verify_from :
      Context
      → ServiceAccountEntry
      → String
      → ProbeConfig
      → NamespaceAccess
      → Handler (State W) (List Warning)
  unfolding probe_within probe_budget
  verify_from ctx entry token settings [] = pure (nothing_to_verify ∷ [])
  verify_from ctx entry token settings (a ∷ m) = do
    now ← get_time env
    probe_within ctx entry token settings (probe_budget ctx now)

  -- verifyPropagation
  unfoldable pub verify_propagation :
      Context → ServiceAccountEntry → String → ProbeConfig → Handler (State W) (List Warning)
  unfolding verify_from
  verify_propagation ctx entry token settings =
      verify_from ctx entry token settings entry.namespace_access
