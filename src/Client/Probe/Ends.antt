-- ===== src/Client/Probe/Ends.antt =====
-- The probe of a namespace ends with its context (probeNamespaceUntilConfirmed).
use vault_plugin_secrets_tem.Prelude.{
  ℕ, zero, suc, ◌+◌, ◌*◌, ◌≤◌, ◌<◌, ◌≡◌, ◌≢◌, refl, String, Bool, true, false, Option, none, some,
  arith, if◌then◌else◌,
}
use vault_plugin_secrets_tem.Exec.{Result, ok, err, Context, is_over}
use vault_plugin_secrets_tem.Client.Errors.{
  Error, error, Detail, RpcError, unavailable, not_confirmed,
}
use vault_plugin_secrets_tem.Client.Async.Termination.{stuck}
use vault_plugin_secrets_tem.Client.Probe.{
  Frontend, Dialled, connected, no_connection, AttemptError, Verdict, confirmed, refused, again,
  judge, probe_namespace_once, on_connection, called, namespace_endpoint, probe_loop,
  probe_namespace_until_confirmed,
}

-- The hypotheses on time: a timer does not fire early, a wait on a context that has ended does not
-- fire a timer of the future, and no call turns the clock back.
pub record Timed {W : Type 0} (svc : Frontend W) : Type 0 where
  pub fires_late :
      (c : Context) (t : ℕ) (w : W)
      → (svc.wait_until c t w).0 ≡ true
      → t ≤ svc.now (svc.wait_until c t w).1
  pub ends :
      (c : Context) (t : ℕ) (w : W)
      → is_over c (svc.now w) ≡ true
      → svc.now w < t
      → (svc.wait_until c t w).0 ≡ false
  pub dial_clock : (e : String) (w : W) → svc.now w ≤ svc.now (svc.dial e w).1
  pub call_clock :
      (conn : ℕ) (c : Context) (token namespace : String) (w : W)
      → svc.now w ≤ svc.now (svc.describe_namespace conn c token namespace w).1
  pub close_clock : (conn : ℕ) (w : W) → svc.now w ≤ svc.now (svc.close conn w)

module _ {W : Type 0} (svc : Frontend W) (timed : Timed svc) (ctx : Context)
    (token namespace : String) where
  called_clock : (conn : ℕ) (r : Option RpcError × W) → svc.now r.1 ≤ svc.now (called svc conn r).1
  unfolding called
  called_clock conn (none, w) = timed.close_clock conn w
  called_clock conn (some e, w) = timed.close_clock conn w

  on_connection_clock :
      (d : Dialled × W) → svc.now d.1 ≤ svc.now (on_connection svc ctx token namespace d).1
  unfolding on_connection
  on_connection_clock (connected conn, w) = omega (
    arith,
    timed.call_clock conn ctx token namespace w,
    called_clock conn (svc.describe_namespace conn ctx token namespace w),
  )
  on_connection_clock (no_connection m, w) = omega arith

  attempt_clock : (w : W) → svc.now w ≤ svc.now (probe_namespace_once svc ctx token namespace w).1
  unfolding probe_namespace_once
  attempt_clock w = omega (
    arith,
    timed.dial_clock (namespace_endpoint namespace) w,
    on_connection_clock (svc.dial (namespace_endpoint namespace) w),
  )

after_verdict-ne-stuck :
    {W : Type 0} (v : Verdict) (fired : Bool) (rest : ℕ → Result (Unit {0}) × W)
    (late : Detail → Error) (w₁ w₂ : W)
    → ((e : Error) → v ≡ refused e → ¬ (◌≡◌ {A = Result (Unit {0})} (err e) stuck))
    → ((last : Detail) → ¬ (◌≡◌ {A = Result (Unit {0})} (err (late last)) stuck))
    → (fired ≡ true → (more : ℕ) → (rest more).0 ≢ stuck)
    → let after : Result (Unit {0}) × W = elim v [
      | confirmed ↦ (ok tt, w₁)
      | refused e ↦ (err e, w₁)
      | again more last ↦ if fired then rest more else (err (late last), w₂)
    ] in
      after.0 ≢ stuck
after_verdict-ne-stuck confirmed fired rest late w₁ w₂ r l more = λ e. cc
after_verdict-ne-stuck (refused e) fired rest late w₁ w₂ r l more = r e refl
after_verdict-ne-stuck (again n last) true rest late w₁ w₂ r l more = more refl n
after_verdict-ne-stuck (again n last) false rest late w₁ w₂ r l more = l last

judge-ne-stuck :
    (namespace : String) (required : ℕ) (over : Bool) (successes : ℕ) (r : Option AttemptError)
    (e : Error)
    → judge namespace required over successes r ≡ refused e
    → ¬ (◌≡◌ {A = Result (Unit {0})} (err e) stuck)
unfolding judge
judge-ne-stuck namespace required over successes r e h q = ground arith

module _ {W : Type 0} (svc : Frontend W) (timed : Timed svc) (deadline : ℕ)
    (token namespace : String) (interval required : ℕ) where
  abbrev c : Context
  c = some deadline

  -- One round: unless its timer fires, the loop ends.
  round-ne-stuck :
      (fuel successes : ℕ) (w : W)
      → let tried = probe_namespace_once svc c token namespace w in
        let waited = svc.wait_until c (svc.now tried.1 + interval) tried.1 in
        (waited.0 ≡ true
          → (more : ℕ)
          → (probe_loop svc fuel c token namespace interval required more waited.1).0 ≢ stuck)
        → (probe_loop svc (suc fuel) c token namespace interval required successes w).0 ≢ stuck
  unfolding probe_loop
  round-ne-stuck fuel successes w more =
      let tried = probe_namespace_once svc c token namespace w in
      let waited = svc.wait_until c (svc.now tried.1 + interval) tried.1 in
      after_verdict-ne-stuck (judge namespace required (svc.over c tried.1) successes tried.0)
        waited.0 (λ n. probe_loop svc fuel c token namespace interval required n waited.1)
        (λ last. error unavailable (not_confirmed namespace required last)) tried.1 waited.1
        (λ e. judge-ne-stuck namespace required (svc.over c tried.1) successes tried.0 e)
        (λ last. λ q. cc) more

  -- The round that starts at the deadline is the last.
  loop-ne-stuck :
      (n successes : ℕ) (w : W)
      → 0 < interval
      → deadline ≤ svc.now w + n * interval
      → (probe_loop svc (suc n) c token namespace interval required successes w).0 ≢ stuck
  loop-ne-stuck zero successes w positive enough = round-ne-stuck zero successes w λ fired more.
      let tried = probe_namespace_once svc c token namespace w in
      let at : svc.now w ≤ svc.now tried.1 = attempt_clock svc timed c token namespace w in
      let over : is_over c (svc.now tried.1) ≡ true = ground arith in
      let shut = timed.ends c (svc.now tried.1 + interval) tried.1 over (omega arith) in
      absurd (cc (shut, fired))
  loop-ne-stuck (suc n) successes w positive enough =
      round-ne-stuck (suc n) successes w λ fired more.
        let tried = probe_namespace_once svc c token namespace w in
        let waited = svc.wait_until c (svc.now tried.1 + interval) tried.1 in
        loop-ne-stuck n more waited.1 positive (
          grind (
            arith,
            attempt_clock svc timed c token namespace w,
            timed.fires_late c (svc.now tried.1 + interval) tried.1 fired,
          ))

  -- On a context with a deadline the probe returns, whatever the frontend answers: one round more
  -- than the intervals until the deadline is enough.
  pub probe_namespace_until_confirmed-ne-stuck :
      (n : ℕ) (w : W)
      → 0 < interval
      → deadline ≤ svc.now w + n * interval
      → (probe_namespace_until_confirmed svc (suc n) c token namespace interval required w).0
        ≢ stuck
  unfolding probe_namespace_until_confirmed
  probe_namespace_until_confirmed-ne-stuck n w positive enough = loop-ne-stuck n 0 w positive enough
