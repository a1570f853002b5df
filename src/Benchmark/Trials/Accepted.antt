-- ===== src/Benchmark/Trials/Accepted.antt =====
-- What waitForAcceptance answers, and that it answers.
use native.Mathlib.Omega.{div_any}
use native.Mathlib.Nat.{mod-lt}
use vault_plugin_secrets_tem.Prelude.{
  ℕ, zero, suc, ◌+◌, ◌*◌, ◌/◌, ◌≤◌, ◌<◌, String, ◌≡◌, ◌≢◌, refl, ◌∙◌, ◌⊎◌, inl, inr, Bool, true,
  false, Option, none, some, arith, if◌then◌else◌,
}
use vault_plugin_secrets_tem.Prelude.Int.{pos_part}
use vault_plugin_secrets_tem.Exec.{Context, with_timeout, is_over}
use vault_plugin_secrets_tem.Client.Errors.{RpcError}
use vault_plugin_secrets_tem.Client.Probe.Ends.{Timed}
use vault_plugin_secrets_tem.Benchmark.{BenchmarkConfig, Rig, timed_out, out_of_polls}
use vault_plugin_secrets_tem.Benchmark.Trials.{
  Wait, decide, last_code_of, wait_loop, wait_for_acceptance, poll_fuel,
}

decide-accepted :
    (n : ℕ) (r : Option RpcError) (wait : Wait)
    → decide n r ≡ some wait
    → wait.error ≡ none
    → r ≡ none
unfolding decide
decide-accepted n none wait h accepted = refl
decide-accepted n (some e) wait h accepted = ground arith

decide-ends :
    (n : ℕ) (r : Option RpcError) (wait : Wait)
    → decide n r ≡ some wait
    → wait.error ≢ some out_of_polls
unfolding decide
decide-ends n none wait h = ground arith
decide-ends n (some e) wait h = ground arith

-- The end of a round: what it decided, or the rest, or the end of the context.
abbrev ends_round : {W : Type 0} → Option Wait → Bool → Wait × W → Wait → W → W → Wait × W
ends_round decided fired rest late w₁ w₂ = elim decided [
  | some wait ↦ (wait, w₁)
  | none ↦ if fired then rest else (late, w₂)
]

round-accepted :
    {W : Type 0} (decided : Option Wait) (fired : Bool) (rest : Wait × W) (late : Wait) (w₁ w₂ : W)
    → late.error ≢ none
    → (ends_round decided fired rest late w₁ w₂).0.error ≡ none
    → ((wait : Wait) × (decided ≡ some wait)
        × (wait.error ≡ none)
        × ((ends_round decided fired rest late w₁ w₂).1 ≡ w₁))
      ⊎ ((rest.0.error ≡ none) × ((ends_round decided fired rest late w₁ w₂).1 ≡ rest.1))
round-accepted (some wait) fired rest late w₁ w₂ never h = inl (wait, refl, h, refl)
round-accepted none true rest late w₁ w₂ never h = inr (h, refl)
round-accepted none false rest late w₁ w₂ never h = absurd (never h)

round-ends :
    {W : Type 0} (decided : Option Wait) (fired : Bool) (rest : Wait × W) (late : Wait) (w₁ w₂ : W)
    → late.error ≢ some out_of_polls
    → ((wait : Wait) → decided ≡ some wait → wait.error ≢ some out_of_polls)
    → (fired ≡ true → rest.0.error ≢ some out_of_polls)
    → (ends_round decided fired rest late w₁ w₂).0.error ≢ some out_of_polls
round-ends (some wait) fired rest late w₁ w₂ never here more = here wait refl
round-ends none true rest late w₁ w₂ never here more = more refl
round-ends none false rest late w₁ w₂ never here more = never

covers_timeout :
    (timeout interval deadline now : ℕ)
    → 0 < interval
    → deadline ≤ now + timeout
    → deadline ≤ now + suc (timeout / interval) * interval
covers_timeout timeout interval deadline now positive within =
    grind (arith, div_any timeout interval, mod-lt timeout positive)

module _ {W : Type 0} (rig : Rig W) (cfg : BenchmarkConfig) where
  -- The last call was a DescribeNamespace as the bearer of the token that left the world `w'`, and it
  -- was answered without an error.
  abbrev pub SawAccepted : ℕ → String → W → Type 0
  SawAccepted conn token w' =
      (c : Context) × (w : W) × ((rig.frontend.describe_namespace conn c token cfg.namespace w).0
        ≡ none)
      × (w' ≡ (rig.frontend.describe_namespace conn c token cfg.namespace w).1)

  wait_loop-accepted :
      (fuel : ℕ) (ctx : Context) (conn : ℕ) (token : String) (attempts : ℕ) (w : W)
      → (wait_loop rig cfg fuel ctx conn token attempts w).0.error ≡ none
      → SawAccepted conn token (wait_loop rig cfg fuel ctx conn token attempts w).1
  unfolding wait_loop
  wait_loop-accepted zero ctx conn token attempts w h = cc
  wait_loop-accepted (suc fuel) ctx conn token attempts w h =
      let c = with_timeout ctx (pos_part cfg.rpc_timeout) (rig.frontend.now w) in
      let asked = rig.frontend.describe_namespace conn c token cfg.namespace w in
      let waited =
        rig.frontend.wait_until ctx (rig.frontend.now asked.1 + pos_part cfg.poll_interval)
          asked.1 in
      let late : Wait = record {
        attempts = suc attempts;
        last_code = last_code_of asked.0;
        error = some (timed_out (last_code_of asked.0));
      } in
      elim (round-accepted (decide (suc attempts) asked.0) waited.0
        (wait_loop rig cfg fuel ctx conn token (suc attempts) waited.1) late asked.1 waited.1
        (λ q. cc) h) [
          | inl (wait, decided, accepted, same) ↦
              (c, w, decide-accepted (suc attempts) asked.0 wait decided accepted, same)
          | inr (more, same) ↦
              let (c', w', said, there) =
                wait_loop-accepted fuel ctx conn token (suc attempts) waited.1 more in
              (c', w', said, same ∙ there)
        ]

  -- A wait without an error ended with a call of DescribeNamespace with the token that was answered
  -- without an error.
  pub wait_for_acceptance-accepted :
      (ctx : Context) (conn : ℕ) (token : String) (w : W)
      → (wait_for_acceptance rig cfg ctx conn token w).0.error ≡ none
      → SawAccepted conn token (wait_for_acceptance rig cfg ctx conn token w).1
  unfolding wait_for_acceptance
  wait_for_acceptance-accepted ctx conn token w h =
      wait_loop-accepted (poll_fuel rig cfg) ctx conn token 0 w h

  module _ (timed : Timed rig.frontend) (deadline conn : ℕ) (token : String) where
    round-wait_loop :
        (fuel attempts : ℕ) (w : W)
        → (let c = with_timeout (some deadline) (pos_part cfg.rpc_timeout) (rig.frontend.now w) in
            let asked = rig.frontend.describe_namespace conn c token cfg.namespace w in
            let waited =
              rig.frontend.wait_until
                (some deadline)
                (rig.frontend.now asked.1 + pos_part cfg.poll_interval)
                asked.1 in
            (waited.0 ≡ true
              → (wait_loop rig cfg fuel (some deadline) conn token (suc attempts) waited.1).0.error
                ≢ some out_of_polls))
        → (wait_loop rig cfg (suc fuel) (some deadline) conn token attempts w).0.error
          ≢ some out_of_polls
    unfolding wait_loop
    round-wait_loop fuel attempts w more =
        let c = with_timeout (some deadline) (pos_part cfg.rpc_timeout) (rig.frontend.now w) in
        let asked = rig.frontend.describe_namespace conn c token cfg.namespace w in
        let waited =
          rig.frontend.wait_until (some deadline)
            (rig.frontend.now asked.1 + pos_part cfg.poll_interval) asked.1 in
        let late : Wait = record {
          attempts = suc attempts;
          last_code = last_code_of asked.0;
          error = some (timed_out (last_code_of asked.0));
        } in
        round-ends (decide (suc attempts) asked.0) waited.0
          (wait_loop rig cfg fuel (some deadline) conn token (suc attempts) waited.1) late asked.1
          waited.1 (λ q. cc) (decide-ends (suc attempts) asked.0) more

    wait_loop-ends :
        (n attempts : ℕ) (w : W)
        → 0 < pos_part cfg.poll_interval
        → deadline ≤ rig.frontend.now w + n * pos_part cfg.poll_interval
        → (wait_loop rig cfg (suc n) (some deadline) conn token attempts w).0.error
          ≢ some out_of_polls
    wait_loop-ends zero attempts w positive enough = round-wait_loop zero attempts w λ fired.
        let c = with_timeout (some deadline) (pos_part cfg.rpc_timeout) (rig.frontend.now w) in
        let asked = rig.frontend.describe_namespace conn c token cfg.namespace w in
        let clock = timed.call_clock conn c token cfg.namespace w in
        let over : is_over (some deadline) (rig.frontend.now asked.1) ≡ true = ground arith in
        let shut =
          timed.ends (some deadline) (rig.frontend.now asked.1 + pos_part cfg.poll_interval) asked.1
            over (omega arith) in
        absurd (cc (shut, fired))
    wait_loop-ends (suc n) attempts w positive enough = round-wait_loop (suc n) attempts w λ fired.
        let c = with_timeout (some deadline) (pos_part cfg.rpc_timeout) (rig.frontend.now w) in
        let asked = rig.frontend.describe_namespace conn c token cfg.namespace w in
        let next = rig.frontend.now asked.1 + pos_part cfg.poll_interval in
        let waited = rig.frontend.wait_until (some deadline) next asked.1 in
        wait_loop-ends n (suc attempts) waited.1 positive (
          grind (
            arith,
            timed.call_clock conn c token cfg.namespace w,
            timed.fires_late (some deadline) next asked.1 fired,
          ))

    -- On the context of a trial the wait for acceptance returns with an answer of its own, whatever
    -- the frontend answers: the model's polls are enough, for a poll interval above zero and a
    -- deadline within the trial's timeout.
    pub wait_for_acceptance-ends :
        (w : W)
        → 0 < pos_part cfg.poll_interval
        → deadline ≤ rig.frontend.now w + pos_part cfg.trial_timeout
        → (wait_for_acceptance rig cfg (some deadline) conn token w).0.error ≢ some out_of_polls
    unfolding wait_for_acceptance
    wait_for_acceptance-ends w positive within =
        wait_loop-ends (suc (pos_part cfg.trial_timeout / pos_part cfg.poll_interval)) 0 w positive
          (covers_timeout (pos_part cfg.trial_timeout) (pos_part cfg.poll_interval) deadline
            (rig.frontend.now w) positive within)
