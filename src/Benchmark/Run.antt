-- ===== src/Benchmark/Run.antt =====
-- run of cmd/propagation-benchmark/main.go: its service account is deleted on every way out, and the
-- trials stop at the first key that could not be cleaned up. The summaries on stderr are left out.
pub mod Stops
use vault_plugin_secrets_tem.Prelude.{
  ℕ, zero, suc, ◌+◌, ◌*◌, ◌/◌, String, Bool, true, false, Option, none, some, List, [], ◌∷◌,
  if◌then◌else◌, ltb, leb,
}
use vault_plugin_secrets_tem.Prelude.Int.{pos_part}
use vault_plugin_secrets_tem.Prelude.Text.{is_empty, decimal}
use vault_plugin_secrets_tem.Exec.{Result, ok, err, Context, with_timeout, second, millisecond}
use vault_plugin_secrets_tem.Client.Errors.{Error}
use vault_plugin_secrets_tem.Client.Probe.{Dialled, connected, no_connection, namespace_endpoint}
use vault_plugin_secrets_tem.Benchmark.{
  BenchmarkConfig, bad_flags, Rig, Trial, TrialError, CleanupError, Connectivity,
}
use vault_plugin_secrets_tem.Benchmark.Cleanup.{
  delete_service_account, create_benchmark_service_account,
}
use vault_plugin_secrets_tem.Benchmark.Trials.{run_trial}

-- How the command's run ends; all but `finished` are errors.
pub data Ended : Type 0 where
  finished interrupted no_api_key wrong_flags shut_down not_ready out_of_states : Ended
  no_cloud no_cleanup_client no_frontend csv_failed : String → Ended
  no_account : Error → Option CleanupError → Ended
  stopped : ℕ → CleanupError → Ended

module _ {W : Type 0} (rig : Rig W) (cfg : BenchmarkConfig) where
  -- waitUntil: true when the time has come, false when the context ended first.
  unfoldable pub wait_until : Context → ℕ → W → Bool × W
  wait_until ctx when w =
      if leb when (rig.frontend.now w) then (true, w) else rig.frontend.wait_until ctx when w

  unfoldable pub flushed : Option String × W → Option String × W
  flushed (some e, w) = (some e, w)
  flushed (none, w) = rig.flush w

  -- writeCSV
  unfoldable pub write_csv : List String → W → Option String × W
  unfolding flushed
  write_csv row w = flushed (rig.write_row row w)

  unfoldable pub outcome_of : Option TrialError → String
  outcome_of none = "accepted"
  outcome_of (some e) = rig.show_error e

  unfoldable pub milliseconds : ℕ → String
  milliseconds d = decimal (d / millisecond)

  -- The row of a trial.
  unfoldable pub row_of : Trial → List String
  unfolding outcome_of milliseconds
  row_of r =
      decimal r.trial
      ∷ rig.format_time r.started_at
      ∷ milliseconds r.create
      ∷ milliseconds r.propagation
      ∷ milliseconds r.total
      ∷ decimal r.attempts
      ∷ rig.show_code r.last_code
      ∷ outcome_of r.error
      ∷ []

  -- What follows the row of a trial: true to go on with the next one.
  unfoldable pub after_row : Context → ℕ → ℕ → Trial → Option String × W → Option Ended × W
  unfolding wait_until
  after_row ctx started trial r (some e, w) = (some (csv_failed e), w)
  after_row ctx started trial r (none, w) = elim r.cleanup_err [
    | some e ↦ (some (stopped trial e), w)
    | none ↦
        let (come, w') = wait_until ctx (started + pos_part cfg.interval) w in
        if ltb trial (pos_part cfg.trials)
        then (if come then (none, w') else (some interrupted, w'))
        else (none, w)
  ]

  -- The loop over the trials: those left, the number of the next one, and the results so far.
  unfoldable pub trials_loop :
      ℕ → Context → ℕ → String → ℕ → List Trial → W → Ended × List Trial × W
  unfolding after_row row_of write_csv
  trials_loop zero ctx conn account trial results w = (finished, results, w)
  trials_loop (suc left) ctx conn account trial results w =
      let (r, w₁) = run_trial rig cfg ctx conn account trial w in
      let (ended, w₂) = after_row ctx (rig.frontend.now w) trial r (write_csv (row_of r) w₁) in
      let rest = trials_loop left ctx conn account (suc trial) (r ∷ results) w₂ in
      if rig.cancelled ctx w
      then (interrupted, results, w)
      else elim ended [ some e ↦ (e, r ∷ results, w₂) | none ↦ rest ]

  -- The loop of waitForReady, on fuel: the number of its state changes is up to the connection.
  unfoldable pub wait_for_ready : ℕ → Context → ℕ → W → Option Ended × W
  wait_for_ready zero ctx conn w = (some out_of_states, w)
  wait_for_ready (suc fuel) ctx conn w =
      let (state, w₁) = rig.get_state conn w in
      let (changed, w₂) = rig.wait_for_state_change ctx conn state w₁ in
      let rest = wait_for_ready fuel ctx conn w₂ in
      elim state [
        | Connectivity.ready ↦ (none, w₁)
        | Connectivity.shutdown ↦ (some shut_down, w₁)
        | other ↦ if changed then rest else (some not_ready, w₂)
      ]

  unfoldable pub header : List String
  header =
      "trial" ∷ "started_at" ∷ "create_ms" ∷ "propagation_ms" ∷ "total_ms" ∷ "attempts"
      ∷ "last_code" ∷ "result" ∷ []

  unfoldable pub trials_after_header :
      Context → ℕ → String → Option String × W → Ended × List Trial × W
  unfolding trials_loop
  trials_after_header ctx conn account (some e, w) = (csv_failed e, [], w)
  trials_after_header ctx conn account (none, w) =
      trials_loop (pos_part cfg.trials) ctx conn account 1 [] w

  unfoldable pub when_ready : Context → ℕ → String → Option Ended × W → Ended × List Trial × W
  unfolding trials_after_header write_csv header
  when_ready ctx conn account (some e, w) = (e, [], w)
  when_ready ctx conn account (none, w) = trials_after_header ctx conn account (write_csv header w)

  unfoldable pub closed : ℕ → Ended × List Trial × W → Ended × List Trial × W
  closed conn (ended, results, w) = (ended, results, rig.frontend.close conn w)

  -- The part of run from the dialling of the frontend to its closing.
  unfoldable pub on_frontend : ℕ → Context → String → Dialled × W → Ended × List Trial × W
  unfolding when_ready closed wait_for_ready
  on_frontend fuel ctx account (no_connection m, w) = (no_frontend m, [], w)
  on_frontend fuel ctx account (connected conn, w) =
      let ready = with_timeout ctx (15 * second) (rig.frontend.now w) in
      closed conn (when_ready ctx conn account (wait_for_ready fuel ready conn w))

  -- The deferred delete of the service account; its failure is a warning.
  unfoldable pub with_deleted :
      String → Ended × List Trial × W → Ended × List Trial × Option CleanupError × W
  unfolding delete_service_account
  with_deleted account (ended, results, w) =
      let (failure, w') = delete_service_account rig account w in (ended, results, failure, w')

  unfoldable pub with_account :
      ℕ
      → Context
      → Result String × Option CleanupError × W
      → Ended × List Trial × Option CleanupError × W
  unfolding with_deleted on_frontend
  with_account fuel ctx (err e, cleanup, w) = (no_account e cleanup, [], none, w)
  with_account fuel ctx (ok account, _, w) =
      with_deleted account
        (on_frontend fuel ctx account (rig.frontend.dial (namespace_endpoint cfg.namespace) w))

  unfoldable pub with_cleanup_client :
      ℕ → Context → Option String × W → Ended × List Trial × Option CleanupError × W
  unfolding with_account create_benchmark_service_account
  with_cleanup_client fuel ctx (some m, w) = (no_cleanup_client m, [], none, w)
  with_cleanup_client fuel ctx (none, w) =
      with_account fuel ctx (create_benchmark_service_account rig ctx cfg.namespace w)

  unfoldable pub with_cloud :
      ℕ → Context → Option String × W → Ended × List Trial × Option CleanupError × W
  unfolding with_cleanup_client
  with_cloud fuel ctx (some m, w) = (no_cloud m, [], none, w)
  with_cloud fuel ctx (none, w) = with_cleanup_client fuel ctx (rig.connect_cleanup w)

  -- run: its end, the trials, newest first, the failure of the deferred delete, and the world.
  unfoldable pub run : ℕ → Context → String → W → Ended × List Trial × Option CleanupError × W
  unfolding with_cloud
  run fuel ctx api_key w =
      if is_empty api_key
      then (no_api_key, [], none, w)
      else if bad_flags cfg
      then (wrong_flags, [], none, w)
      else with_cloud fuel ctx (rig.connect_cloud w)
