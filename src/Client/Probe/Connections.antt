-- ===== src/Client/Probe/Connections.antt =====
-- The connections of the attempts of a probe (probeNamespaceOnce, probeNamespaceUntilConfirmed).
use vault_plugin_secrets_tem.Prelude.{
  ℕ, zero, suc, ◌+◌, ◌<◌, ◌≡◌, refl, ◌⊎◌, inl, inr, String, true, Option, none, some,
}
use vault_plugin_secrets_tem.Exec.{ok, Context}
use vault_plugin_secrets_tem.Client.Errors.{RpcError}
use vault_plugin_secrets_tem.Client.Probe.{
  Frontend, Dialled, connected, no_connection, namespace_endpoint, called, on_connection,
  probe_namespace_once, probe_namespace_until_confirmed,
}
use vault_plugin_secrets_tem.Client.Probe.Confirmed.{
  Streak, Rounds, probe_namespace_until_confirmed-ok,
}

module _ {W : Type 0} (svc : Frontend W) (ctx : Context) (token namespace : String)
    (interval : ℕ) where
  -- From `w` the namespace's endpoint is dialled, the token is accepted on the connection that this
  -- gives, and this connection is closed, which leaves `w₁`.
  abbrev pub AcceptedFrom : W → W → Type 0
  AcceptedFrom w w₁ =
      let dialled = svc.dial (namespace_endpoint namespace) w in
      (conn : ℕ) × (dialled.0 ≡ connected conn)
      × ((svc.describe_namespace conn ctx token namespace dialled.1).0 ≡ none)
      × (w₁ ≡ svc.close conn (svc.describe_namespace conn ctx token namespace dialled.1).1)

  -- `n` such attempts one after another, with a whole interval between each two of them.
  abbrev pub AcceptedTimes : ℕ → W → W → Type 0
  AcceptedTimes zero w w' = ⊥
  AcceptedTimes (suc n) w w' =
      (w₁ : W) × AcceptedFrom w w₁
      × (((n ≡ 0) × (w₁ ≡ w'))
          ⊎ (((svc.wait_until ctx (svc.now w₁ + interval) w₁).0 ≡ true)
              × AcceptedTimes n (svc.wait_until ctx (svc.now w₁ + interval) w₁).1 w'))

  called-none :
      (conn : ℕ) (r : Option RpcError) (w : W)
      → (called svc conn (r, w)).0 ≡ none
      → (r ≡ none) × ((called svc conn (r, w)).1 ≡ svc.close conn w)
  unfolding called
  called-none conn none w h = (refl, refl)
  called-none conn (some e) w h = cc

  on_connection-none :
      (d : Dialled) (w : W)
      → (on_connection svc ctx token namespace (d, w)).0 ≡ none
      → (conn : ℕ) × (d ≡ connected conn)
        × ((svc.describe_namespace conn ctx token namespace w).0 ≡ none)
        × ((on_connection svc ctx token namespace (d, w)).1
            ≡ svc.close conn (svc.describe_namespace conn ctx token namespace w).1)
  unfolding on_connection
  on_connection-none (connected conn) w h =
      let asked = svc.describe_namespace conn ctx token namespace w in
      let (accepted, closed) = called-none conn asked.0 asked.1 h in (conn, refl, accepted, closed)
  on_connection-none (no_connection m) w h = cc

  probe_namespace_once-AcceptedFrom :
      (w : W)
      → (probe_namespace_once svc ctx token namespace w).0 ≡ none
      → AcceptedFrom w (probe_namespace_once svc ctx token namespace w).1
  unfolding probe_namespace_once
  probe_namespace_once-AcceptedFrom w h =
      let dialled = svc.dial (namespace_endpoint namespace) w in
      on_connection-none dialled.0 dialled.1 h

  Streak-AcceptedTimes :
      (n : ℕ) (w w' : W) → Streak svc ctx token namespace interval n w w' → AcceptedTimes n w w'
  Streak-AcceptedTimes zero w w' streak = absurd streak
  Streak-AcceptedTimes (suc n) w w' (accepted, inl last) = (
    (probe_namespace_once svc ctx token namespace w).1,
    probe_namespace_once-AcceptedFrom w accepted,
    inl last,
  )
  Streak-AcceptedTimes (suc n) w w' (accepted, inr (fired, streak)) = (
    (probe_namespace_once svc ctx token namespace w).1,
    probe_namespace_once-AcceptedFrom w accepted,
    inr (fired, Streak-AcceptedTimes n _ w' streak),
  )

  -- The probe confirms a key only after `required` attempts in a row that succeeded, a whole interval
  -- apart, the last of them its last calls: each dialled the namespace's endpoint, had the key
  -- accepted on the connection that this gave, and closed this connection. Before them it made whole
  -- rounds of an attempt and an interval.
  pub probe_namespace_until_confirmed-AcceptedTimes :
      (fuel required : ℕ) (w : W)
      → 0 < required
      → (probe_namespace_until_confirmed svc fuel ctx token namespace interval required w).0 ≡ ok tt
      → (start : W) × Rounds svc ctx token namespace interval w start
        × AcceptedTimes required start
            (probe_namespace_until_confirmed svc fuel ctx token namespace interval required w).1
  probe_namespace_until_confirmed-AcceptedTimes fuel required w positive h =
      let (start, rounds, streak) =
        probe_namespace_until_confirmed-ok svc ctx token namespace interval fuel required w positive
          h in
      (start, rounds, Streak-AcceptedTimes required start _ streak)
