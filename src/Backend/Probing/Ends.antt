-- ===== src/Backend/Probing/Ends.antt =====
-- The probes of a new key end within the request (verifyPropagation with client/probe.go).
use Prim.Native.Nat.{min}
use vault_plugin_secrets_tem.Prelude.{
  refl, ℕ, ◌+◌, ◌≤◌, ◌≡◌, ◌≢◌, String, Option, none, some, false, arith,
}
use vault_plugin_secrets_tem.Prelude.Int.{pos, pos_part, leb_ℤ}
use vault_plugin_secrets_tem.Exec.{Context, with_timeout}
use vault_plugin_secrets_tem.Client.Async.Termination.{stuck}
use vault_plugin_secrets_tem.Client.Probe.{
  Frontend, probe_namespace_with_settings, max_probe_timeout,
}
use vault_plugin_secrets_tem.Client.Probe.Ends.{Timed, probe_namespace_until_confirmed-ne-stuck}
use vault_plugin_secrets_tem.Backend.Entries.{ProbeConfig}
use vault_plugin_secrets_tem.Backend.Handler.{done}
use vault_plugin_secrets_tem.Backend.Probing.{effective_checked, probe_budget, client_settings}
use vault_plugin_secrets_tem.Backend.Probing.Bounds.{effective_checked-InRange}

-- A round each fifty milliseconds for fifty seconds, and one more.
abbrev pub probe_fuel : ℕ
probe_fuel = 1001

budget_deadline :
    (ctx : Context) (now b : ℕ)
    → probe_budget ctx now ≡ some b
    → (d : ℕ) × (with_timeout ctx b now ≡ some d) × (d ≤ now + max_probe_timeout)
unfolding probe_budget
budget_deadline none now b h = (now + b, refl, ground arith)
budget_deadline (some t) now b h = (min t (now + b), refl, ground arith)

-- Where the settings in force and the budget allow a probe at the time `now`, the probe that starts
-- at that time or later, on the context of that budget, returns: 1001 rounds are enough.
pub probe_in_force-ne-stuck :
    {W : Type 0} (svc : Frontend W) (timed : Timed svc) (stored : Option ProbeConfig)
    (cfg : ProbeConfig) (ctx : Context) (now b : ℕ) (token namespace : String) (w : W)
    → effective_checked stored ≡ done cfg
    → probe_budget ctx now ≡ some b
    → now ≤ svc.now w
    → (probe_namespace_with_settings svc probe_fuel
        (with_timeout ctx b now)
        token
        namespace
        (client_settings cfg)
        w).0
      ≢ stuck
unfolding probe_namespace_with_settings
probe_in_force-ne-stuck svc timed stored cfg ctx now b token namespace w force given begun =
    let ranges = effective_checked-InRange stored cfg force in
    let (d, same, soon) = budget_deadline ctx now b given in
    let timed_out : leb_ℤ cfg.interval (pos 0) ≡ false = ground arith in
    let counted : leb_ℤ cfg.consecutive_successes (pos 0) ≡ false = ground arith in
    rw (probe_namespace_with_settings, timed_out, counted, same)
      (probe_namespace_until_confirmed-ne-stuck svc timed d token namespace (pos_part cfg.interval)
        (pos_part cfg.consecutive_successes) 1000 w (ground arith) (ground arith))
