-- ===== src/Backend/Probing/Bounds.antt =====
-- The settings and the time that a probe runs with (validateProbeConfig, probeBudget).
use mathlib.Core.Path.{subst}
use vault_plugin_secrets_tem.Prelude.{
  refl, sym, ℕ, ◌+◌, ◌*◌, ◌-◌, ◌≤◌, ◌<◌, ◌≡◌, Option, some, none, arith,
}
use vault_plugin_secrets_tem.Prelude.Int.{pos, pos_part, ◌≤ℤ◌}
use vault_plugin_secrets_tem.Exec.{Result, ok, err}
use vault_plugin_secrets_tem.Client.Errors.{Error, wrap}
use vault_plugin_secrets_tem.Backend.Entries.{
  ProbeConfig, min_probe_interval, max_probe_interval, min_probe_successes, max_probe_successes,
}
use vault_plugin_secrets_tem.Backend.Handler.{Outcome, done, failed}
use vault_plugin_secrets_tem.Backend.Probing.{
  effective_checked, default_probe_config, effective, checked_with, validate_probe_config,
  window_check, probe_budget, max_probe_timeout, min_useful_probe_budget,
}

-- Settings within both ranges, whose confirmations fit in the probe's longest time.
abbrev pub InRange : ProbeConfig → Type 0
InRange cfg =
    (pos min_probe_interval ≤ℤ cfg.interval)
    × (cfg.interval ≤ℤ pos max_probe_interval)
    × (pos min_probe_successes ≤ℤ cfg.consecutive_successes)
    × (cfg.consecutive_successes ≤ℤ pos max_probe_successes)
    × ((pos_part cfg.consecutive_successes - 1) * pos_part cfg.interval < max_probe_timeout)

validate-InRange : (cfg : ProbeConfig) → validate_probe_config cfg ≡ ok tt → InRange cfg
unfolding validate_probe_config window_check
validate-InRange cfg h = ground arith

checked-InRange :
    (cfg new : ProbeConfig) (bad : Error → Outcome ProbeConfig)
    → ((e : Error) → ¬ (bad e ≡ done new))
    → (v : Result (Unit {0})) → v ≡ validate_probe_config cfg
    → checked_with bad cfg v ≡ done new
    → InRange new
checked-InRange cfg new bad fails (ok _) q h =
    subst InRange {x = cfg} {y = new} (cc) (validate-InRange cfg (sym q))
checked-InRange cfg new bad fails (err e) q h = absurd (fails e h)

-- The probe settings in force, the defaults or the stored ones, are within both ranges, and the
-- consecutive confirmations they ask for fit in the probe's longest time.
pub effective_checked-InRange :
    (stored : Option ProbeConfig) (cfg : ProbeConfig)
    → effective_checked stored ≡ done cfg
    → InRange cfg
unfolding effective_checked
effective_checked-InRange none cfg h =
    subst InRange {x = default_probe_config} {y = cfg} (cc) (ground arith)
effective_checked-InRange (some stored) cfg h =
    checked-InRange (effective (some stored)) cfg
      (λ e. failed (wrap "stored probe config is invalid" e)) (λ e q. cc)
      (validate_probe_config (effective (some stored))) refl h

-- The time given to the probes, against a deadline: at least one second, at most fifty, and over by
-- the deadline.
pub probe_budget-bounds :
    (deadline now b : ℕ)
    → probe_budget (some deadline) now ≡ some b
    → (min_useful_probe_budget ≤ b) × (b ≤ max_probe_timeout) × (now + b ≤ deadline)
unfolding probe_budget
probe_budget-bounds deadline now b h = ground arith
