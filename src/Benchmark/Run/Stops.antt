-- ===== src/Benchmark/Run/Stops.antt =====
-- That a benchmark never leaves keys of more than one trial.
use vault_plugin_secrets_tem.Prelude.{
  ℕ, zero, suc, ◌*◌, String, ◌≡◌, refl, Bool, true, false, Option, none, some, List, [], ◌∷◌,
  if◌then◌else◌, All, Bool-cases, inl, inr,
}
use vault_plugin_secrets_tem.Prelude.Int.{pos_part}
use vault_plugin_secrets_tem.Prelude.Text.{is_empty}
use vault_plugin_secrets_tem.Exec.{Result, ok, err, Context, with_timeout, second}
use vault_plugin_secrets_tem.Client.Probe.{Dialled, connected, no_connection, namespace_endpoint}
use vault_plugin_secrets_tem.Benchmark.{BenchmarkConfig, bad_flags, Rig, Trial, CleanupError}
use vault_plugin_secrets_tem.Benchmark.Cleanup.{create_benchmark_service_account}
use vault_plugin_secrets_tem.Benchmark.Trials.{run_trial}
use vault_plugin_secrets_tem.Benchmark.Run.{
  Ended, after_row, row_of, write_csv, trials_loop, wait_for_ready, header, trials_after_header,
  when_ready, closed, on_frontend, with_deleted, with_account, with_cleanup_client, with_cloud, run,
}

abbrev pub IsClean : Trial → Type 0
IsClean r = r.cleanup_err ≡ none

-- Every trial but the newest cleaned up.
abbrev pub IsContained : List Trial → Type 0
IsContained [] = Unit
IsContained (newest ∷ older) = All IsClean older

All-IsContained : (results : List Trial) → All IsClean results → IsContained results
All-IsContained [] clean = tt
All-IsContained (r ∷ rest) clean = clean.1

module _ {W : Type 0} (rig : Rig W) (cfg : BenchmarkConfig) where
  by_cleanup :
      (failure : Option CleanupError) (trial : ℕ) (next : Option Ended × W) (w : W)
      → let after : Option Ended × W = elim failure [
        | some e ↦ (some (Ended.stopped trial e), w)
        | none ↦ next
      ] in
        after.0 ≡ none → failure ≡ none
  by_cleanup none trial next w h = refl
  by_cleanup (some e) trial next w h = cc

  after_row-IsClean :
      (ctx : Context) (started trial : ℕ) (r : Trial) (row : Option String × W)
      → (after_row rig cfg ctx started trial r row).0 ≡ none
      → IsClean r
  unfolding after_row
  after_row-IsClean ctx started trial r (some e, w) h = cc
  after_row-IsClean ctx started trial r (none, w) h = by_cleanup r.cleanup_err trial _ w h

  round-IsContained :
      (off : Bool) (ended : Option Ended) (r : Trial) (results : List Trial) (w₁ w₂ : W)
      (rest : Ended × List Trial × W)
      → All IsClean results
      → (ended ≡ none → IsContained rest.1)
      → let after : Ended × List Trial × W =
          if off
          then (Ended.interrupted, results, w₁)
          else elim ended [ some e ↦ (e, r ∷ results, w₂) | none ↦ rest ] in
        IsContained after.1
  round-IsContained true ended r results w₁ w₂ rest clean more = All-IsContained results clean
  round-IsContained false (some e) r results w₁ w₂ rest clean more = clean
  round-IsContained false none r results w₁ w₂ rest clean more = more refl

  trials_loop-IsContained :
      (left : ℕ) (ctx : Context) (conn : ℕ) (account : String) (trial : ℕ) (results : List Trial)
      (w : W)
      → All IsClean results
      → IsContained (trials_loop rig cfg left ctx conn account trial results w).1
  unfolding trials_loop
  trials_loop-IsContained zero ctx conn account trial results w clean =
      All-IsContained results clean
  trials_loop-IsContained (suc left) ctx conn account trial results w clean =
      let ran = run_trial rig cfg ctx conn account trial w in
      let row = write_csv rig cfg (row_of rig cfg ran.0) ran.1 in
      let after = after_row rig cfg ctx (rig.frontend.now w) trial ran.0 row in
      round-IsContained (rig.cancelled ctx w) after.0 ran.0 results w after.1
        (trials_loop rig cfg left ctx conn account (suc trial) (ran.0 ∷ results) after.1) clean
        λ next.
          trials_loop-IsContained left ctx conn account (suc trial) (ran.0 ∷ results) after.1
            (after_row-IsClean ctx (rig.frontend.now w) trial ran.0 row next, clean)

  trials_after_header-IsContained :
      (ctx : Context) (conn : ℕ) (account : String) (row : Option String × W)
      → IsContained (trials_after_header rig cfg ctx conn account row).1
  unfolding trials_after_header
  trials_after_header-IsContained ctx conn account (some e, w) = tt
  trials_after_header-IsContained ctx conn account (none, w) =
      trials_loop-IsContained (pos_part cfg.trials) ctx conn account 1 [] w tt

  when_ready-IsContained :
      (ctx : Context) (conn : ℕ) (account : String) (ready : Option Ended × W)
      → IsContained (when_ready rig cfg ctx conn account ready).1
  unfolding when_ready
  when_ready-IsContained ctx conn account (some e, w) = tt
  when_ready-IsContained ctx conn account (none, w) =
      trials_after_header-IsContained ctx conn account (write_csv rig cfg (header rig cfg) w)

  on_frontend-IsContained :
      (fuel : ℕ) (ctx : Context) (account : String) (dialled : Dialled × W)
      → IsContained (on_frontend rig cfg fuel ctx account dialled).1
  unfolding on_frontend closed
  on_frontend-IsContained fuel ctx account (no_connection m, w) = tt
  on_frontend-IsContained fuel ctx account (connected conn, w) =
      when_ready-IsContained ctx conn account
        (wait_for_ready rig cfg fuel (with_timeout ctx (15 * second) (rig.frontend.now w)) conn w)

  with_account-IsContained :
      (fuel : ℕ) (ctx : Context) (made : Result String × Option CleanupError × W)
      → IsContained (with_account rig cfg fuel ctx made).1
  unfolding with_account with_deleted
  with_account-IsContained fuel ctx (err e, cleanup, w) = tt
  with_account-IsContained fuel ctx (ok account, cleanup, w) =
      on_frontend-IsContained fuel ctx account
        (rig.frontend.dial (namespace_endpoint cfg.namespace) w)

  with_cleanup_client-IsContained :
      (fuel : ℕ) (ctx : Context) (made : Option String × W)
      → IsContained (with_cleanup_client rig cfg fuel ctx made).1
  unfolding with_cleanup_client
  with_cleanup_client-IsContained fuel ctx (some m, w) = tt
  with_cleanup_client-IsContained fuel ctx (none, w) =
      with_account-IsContained fuel ctx (create_benchmark_service_account rig ctx cfg.namespace w)

  with_cloud-IsContained :
      (fuel : ℕ) (ctx : Context) (made : Option String × W)
      → IsContained (with_cloud rig cfg fuel ctx made).1
  unfolding with_cloud
  with_cloud-IsContained fuel ctx (some m, w) = tt
  with_cloud-IsContained fuel ctx (none, w) =
      with_cleanup_client-IsContained fuel ctx (rig.connect_cleanup w)

  -- However a run ends and whatever the services answer, every trial it made but the newest reported
  -- no failed cleanup.
  pub run-IsContained :
      (fuel : ℕ) (ctx : Context) (api_key : String) (w : W)
      → IsContained (run rig cfg fuel ctx api_key w).1
  unfolding run
  run-IsContained fuel ctx api_key w = elim (Bool-cases (is_empty api_key)) [
    | inl empty ↦ rw empty tt
    | inr full ↦ elim (Bool-cases (bad_flags cfg)) [
      | inl bad ↦ rw (full, bad) tt
      | inr good ↦ rw (full, good) (with_cloud-IsContained fuel ctx (rig.connect_cloud w))
    ]
  ]
