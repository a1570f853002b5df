-- ===== src/Benchmark/Trials/Cleans.antt =====
-- What a trial leaves of its key.
use vault_plugin_secrets_tem.Prelude.{
  ℕ, String, ◌≡◌, refl, ◌∙◌, ◌⊎◌, inl, inr, Bool, true, false, not, Option, none, some,
  if◌then◌else◌,
}
use vault_plugin_secrets_tem.Prelude.Int.{pos_part}
use vault_plugin_secrets_tem.Prelude.Text.{is_empty}
use vault_plugin_secrets_tem.Exec.{Context, with_timeout}
use vault_plugin_secrets_tem.Client.Service.{CreatedKey}
use vault_plugin_secrets_tem.Benchmark.{BenchmarkConfig, Rig, Trial, CleanupError, unidentified}
use vault_plugin_secrets_tem.Benchmark.Cleanup.{delete_key}
use vault_plugin_secrets_tem.Benchmark.Cleanup.Deleted.{SawAbsent, delete_key-none}
use vault_plugin_secrets_tem.Benchmark.Trials.{measure, with_cleanup, clean_up, pending, run_trial}

with_cleanup-none :
    (r : Trial) (failure : Option CleanupError)
    → (with_cleanup r failure).cleanup_err ≡ none
    → failure ≡ none
unfolding with_cleanup
with_cleanup-none r none h = refl
with_cleanup-none r (some e) h = cc

-- The three ends of a cleanup, by what is known of the key.
ways :
    {W : Type 0} (nameless blank : Bool) (deleted unknown nothing : Trial × W)
    → let after : Trial × W =
        if not nameless then deleted else if not blank then unknown else nothing in
      after.0.cleanup_err ≡ none
      → ((deleted.0.cleanup_err ≡ none) × (after.1 ≡ deleted.1))
        ⊎ (unknown.0.cleanup_err ≡ none)
        ⊎ ((nameless ≡ true) × (blank ≡ true))
ways false blank deleted unknown nothing h = inl (h, refl)
ways true false deleted unknown nothing h = inr (inl h)
ways true true deleted unknown nothing h = inr (inr (refl, refl))

module _ {W : Type 0} (rig : Rig W) (cfg : BenchmarkConfig) where
  -- Nothing of the response of a create is left: there was no response, or one with neither an ID nor
  -- a token, or the last call found the key absent.
  abbrev pub LeavesNothing : Option CreatedKey → W → Type 0
  LeavesNothing none w' = Unit
  LeavesNothing (some key) w' =
      ((is_empty key.id ≡ true) × (is_empty key.token ≡ true)) ⊎ SawAbsent rig key.id w'

  clean_up-LeavesNothing :
      (key : Option CreatedKey) (measured : Trial × W)
      → (clean_up rig cfg key measured).0.cleanup_err ≡ none
      → LeavesNothing key (clean_up rig cfg key measured).1
  unfolding clean_up
  clean_up-LeavesNothing none (r, w) h = tt
  clean_up-LeavesNothing (some key) (r, w) h =
      let made = delete_key rig key.id w in
      elim (ways (is_empty key.id) (is_empty key.token) (with_cleanup r made.0, made.1)
        (with_cleanup r (some unidentified), w) (r, w) h) [
          | inl (clean, same) ↦
              let (c, w', absent, there) =
                delete_key-none rig key.id w (with_cleanup-none r made.0 clean) in
              inr (c, w', absent, same ∙ there)
          | inr (inl unclean) ↦ absurd (
              let no : some unidentified ≡ none = with_cleanup-none r (some unidentified) unclean in
              cc no)
          | inr (inr blank) ↦ inl blank
        ]

  -- A trial that reports no failed cleanup leaves nothing of what its create answered, also where the
  -- create answered an error beside it or the frontend never accepted the key: there was no response,
  -- or it had neither an ID nor a token, or the trial's last call was a delete of the key by its ID
  -- that was answered without an error or with NotFound.
  pub run_trial-LeavesNothing :
      (parent : Context) (conn : ℕ) (account : String) (trial : ℕ) (w : W)
      → (run_trial rig cfg parent conn account trial w).0.cleanup_err ≡ none
      → let started = rig.frontend.now w in
        let ctx = with_timeout parent (pos_part cfg.trial_timeout) started in
        LeavesNothing
          (rig.create_api_key ctx (pending account started started trial) w).0.0
          (run_trial rig cfg parent conn account trial w).1
  unfolding run_trial
  run_trial-LeavesNothing parent conn account trial w h =
      let started = rig.frontend.now w in
      let ctx = with_timeout parent (pos_part cfg.trial_timeout) started in
      let made = rig.create_api_key ctx (pending account started started trial) w in
      clean_up-LeavesNothing made.0.0
        (measure rig cfg ctx conn trial started (rig.frontend.now made.1) made.0 made.1) h
