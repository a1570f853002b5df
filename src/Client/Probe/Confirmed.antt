-- ===== src/Client/Probe/Confirmed.antt =====
-- When the probe of a namespace confirms a key (probeNamespaceUntilConfirmed).
use mathlib.Core.Path.{subst}
use vault_plugin_secrets_tem.Prelude.{
  ℕ, zero, suc, ◌+◌, ◌-◌, ◌≤◌, ◌<◌, ◌≡◌, refl, sym, ap, ◌∙◌, ◌⊎◌, inl, inr, String, Bool, true,
  false, Option, none, some, arith, if◌then◌else◌,
}
use vault_plugin_secrets_tem.Exec.{Result, ok, err, Context}
use vault_plugin_secrets_tem.Client.Errors.{success_of, error, Detail, unavailable, not_confirmed}
use vault_plugin_secrets_tem.Client.Probe.{
  Frontend, AttemptError, Verdict, confirmed, refused, again, judge, probe_namespace_once,
  probe_loop, probe_namespace_until_confirmed,
}

judge-confirmed :
    (namespace : String) (required : ℕ) (over : Bool) (successes : ℕ) (r : Option AttemptError)
    → judge namespace required over successes r ≡ confirmed
    → (r ≡ none) × (successes + 1 ≡ required)
unfolding judge
judge-confirmed namespace required over successes none h = ground arith
judge-confirmed namespace required over successes (some e) h = ground arith

judge-again :
    (namespace : String) (required : ℕ) (over : Bool) (successes more : ℕ) (last : Detail)
    (r : Option AttemptError)
    → judge namespace required over successes r ≡ again more last
    → ((r ≡ none) × (more ≡ successes + 1) × ¬ (successes + 1 ≡ required)) ⊎ (more ≡ 0)
unfolding judge
judge-again namespace required over successes more last none h =
    inl (refl, ground arith, ground arith)
judge-again namespace required over successes more last (some e) h = inr (ground arith)

module _ {W : Type 0} (svc : Frontend W) (ctx : Context) (token namespace : String)
    (interval : ℕ) where
  abbrev pub attempt : W → Option AttemptError × W
  attempt w = probe_namespace_once svc ctx token namespace w

  -- The wait after the attempt made at `w`.
  abbrev pub pause : W → Bool × W
  pause w = svc.wait_until ctx (svc.now (attempt w).1 + interval) (attempt w).1

  -- From `w` on, `n` attempts succeed one after another, a whole interval lies between each two of
  -- them, and the last one leaves `w'`.
  abbrev pub Streak : ℕ → W → W → Type 0
  Streak zero w w' = ⊥
  Streak (suc n) w w' =
      ((attempt w).0 ≡ none)
      × (((n ≡ 0) × ((attempt w).1 ≡ w')) ⊎ (((pause w).0 ≡ true) × Streak n (pause w).1 w'))

  -- Rounds of an attempt and a whole interval lead from one world to another.
  pub data Rounds : W → W → Type 0 where
    here : (w : W) → Rounds w w
    next : (w : W) {w' : W} → (pause w).0 ≡ true → Rounds (pause w).1 w' → Rounds w w'

  -- A confirmation at the end: the rest of a run that is under way, or a whole run later on.
  abbrev Confirms : ℕ → ℕ → W → W → Type 0
  Confirms required left w w' =
      Streak left w w' ⊎ ((start : W) × Rounds w start × Streak required start w')

  step_ok :
      (required : ℕ) (v : Verdict) (fired : Bool) (rest : ℕ → Result (Unit {0}) × W) (w₁ w₂ : W)
      → let after : Result (Unit {0}) × W = elim v [
        | confirmed ↦ (ok tt, w₁)
        | refused e ↦ (err e, w₁)
        | again more last ↦
            if fired
            then rest more
            else (err (error unavailable (not_confirmed namespace required last)), w₂)
      ] in
        after.0 ≡ ok tt
        → ((v ≡ confirmed) × (after.1 ≡ w₁))
          ⊎ ((more : ℕ) × (last : Detail) × (v ≡ again more last)
              × (fired ≡ true)
              × ((rest more).0 ≡ ok tt)
              × (after.1 ≡ (rest more).1))
  step_ok required confirmed fired rest w₁ w₂ h = inl (refl, refl)
  step_ok required (refused e) fired rest w₁ w₂ h = cc
  step_ok required (again more last) true rest w₁ w₂ h = inr (more, last, refl, refl, h, refl)
  step_ok required (again more last) false rest w₁ w₂ h = cc

  -- The run goes on after a success.
  extend :
      (required left : ℕ) (w w' : W)
      → (attempt w).0 ≡ none
      → (pause w).0 ≡ true
      → Confirms required left (pause w).1 w'
      → Confirms required (suc left) w w'
  extend required left w w' accepted fired (inl streak) = inl (accepted, inr (fired, streak))
  extend required left w w' accepted fired (inr (start, rounds, streak)) =
      inr (start, next w fired rounds, streak)

  -- A new run starts after a failure.
  restart :
      (required left : ℕ) (w w' : W)
      → (pause w).0 ≡ true
      → Confirms required required (pause w).1 w'
      → Confirms required left w w'
  restart required left w w' fired (inl streak) =
      inr ((pause w).1, next w fired (here (pause w).1), streak)
  restart required left w w' fired (inr (start, rounds, streak)) =
      inr (start, next w fired rounds, streak)

  go_on :
      (required left successes more : ℕ) (w w' : W)
      → successes + suc left ≡ required
      → (attempt w).0 ≡ none
      → (pause w).0 ≡ true
      → more ≡ successes + 1
      → ¬ (successes + 1 ≡ required)
      → ((l : ℕ) → more + suc l ≡ required → Confirms required (suc l) (pause w).1 w')
      → Confirms required (suc left) w w'
  go_on required zero successes more w w' count accepted fired grown unfinished rest =
      absurd (unfinished (omega arith))
  go_on required (suc left) successes more w w' count accepted fired grown unfinished rest =
      extend required (suc left) w w' accepted fired (rest left (omega arith))

  loop-Confirms :
      (fuel required left successes : ℕ) (w w' : W)
      → successes + suc left ≡ required
      → (probe_loop svc fuel ctx token namespace interval required successes w).0 ≡ ok tt
      → (probe_loop svc fuel ctx token namespace interval required successes w).1 ≡ w'
      → Confirms required (suc left) w w'
  unfolding probe_loop
  loop-Confirms zero required left successes w w' count h e = cc
  loop-Confirms (suc fuel) required left successes w w' count h e =
      let over = svc.over ctx (attempt w).1 in
      elim (step_ok required (judge namespace required over successes (attempt w).0) (pause w).0
        (λ more. probe_loop svc fuel ctx token namespace interval required more (pause w).1)
        (attempt w).1 (pause w).1 h) [
          | inl (v, same) ↦
              let (accepted, full) =
                judge-confirmed namespace required over successes (attempt w).0 v in
              inl (accepted, inl (omega arith, sym same ∙ e))
          | inr (more, last, v, fired, good, same) ↦
              elim (judge-again namespace required over successes more last (attempt w).0 v) [
                | inl (accepted, grown, unfinished) ↦
                    go_on required left successes more w w' count accepted fired grown unfinished
                      λ l count'.
                        loop-Confirms fuel required l more (pause w).1 w' count' good (sym same ∙ e)
                | inr fresh ↦ restart required (suc left) w w' fired (
                    let k = successes + left in
                    let whole : suc k ≡ required = omega arith in
                    subst (λ n. Confirms required n (pause w).1 w') whole
                      (loop-Confirms fuel required k more (pause w).1 w' (omega arith) good
                        (sym same ∙ e)))
              ]
        ]

  -- A confirmation ends with a run of `required` attempts that succeed; before it are whole rounds.
  pub probe_namespace_until_confirmed-ok :
      (fuel required : ℕ) (w : W)
      → 0 < required
      → (probe_namespace_until_confirmed svc fuel ctx token namespace interval required w).0 ≡ ok tt
      → (start : W) × Rounds w start
        × Streak required start
            (probe_namespace_until_confirmed svc fuel ctx token namespace interval required w).1
  unfolding probe_namespace_until_confirmed
  probe_namespace_until_confirmed-ok fuel required w positive h =
      let whole : suc (required - 1) ≡ required = omega arith in
      let w' = (probe_loop svc fuel ctx token namespace interval required 0 w).1 in
      elim (subst (λ n. Confirms required n w w') whole
        (loop-Confirms fuel required (required - 1) 0 w w' (omega arith) h refl)) [
          | inl streak ↦ (w, here w, streak)
          | inr (start, rounds, streak) ↦ (start, rounds, streak)
        ]

  -- One round of the loop, by its verdict.
  round_lem :
      (fuel required successes : ℕ) (w : W) (v : Verdict)
      → judge namespace required (svc.over ctx (attempt w).1) successes (attempt w).0 ≡ v
      → probe_loop svc (suc fuel) ctx token namespace interval required successes w
        ≡ (elim v as (λ x. Result (Unit {0}) × W) [
          | confirmed ↦ (ok tt, (attempt w).1)
          | refused e ↦ (err e, (attempt w).1)
          | again more last ↦
              if (pause w).0
              then probe_loop svc fuel ctx token namespace interval required more (pause w).1
              else (err (error unavailable (not_confirmed namespace required last)), (pause w).1)
        ])
  unfolding probe_loop
  round_lem fuel required successes w v e =
      ap
        (λ (u : Verdict). elim u as (λ x. Result (Unit {0}) × W) [
          | confirmed ↦ (ok tt, (attempt w).1)
          | refused e ↦ (err e, (attempt w).1)
          | again more last ↦
              if (pause w).0
              then probe_loop svc fuel ctx token namespace interval required more (pause w).1
              else (err (error unavailable (not_confirmed namespace required last)), (pause w).1)
        ])
        e

  judge_last :
      (required successes : ℕ) (over : Bool) (r : Option AttemptError)
      → r ≡ none
      → successes + 1 ≡ required
      → judge namespace required over successes r ≡ confirmed
  unfolding judge
  judge_last required successes over r accepted full = ground arith

  judge_more :
      (required successes : ℕ) (over : Bool) (r : Option AttemptError)
      → r ≡ none
      → ¬ (successes + 1 ≡ required)
      → judge namespace required over successes r
        ≡ again (successes + 1) (success_of (successes + 1) required)
  unfolding judge
  judge_more required successes over r accepted more = ground arith

  Streak-confirms :
      (fuel required left successes : ℕ) (w w' : W)
      → successes + left ≡ required
      → left ≤ fuel
      → Streak left w w'
      → probe_loop svc fuel ctx token namespace interval required successes w ≡ (ok tt, w')
  Streak-confirms fuel required zero successes w w' count enough streak = absurd streak
  Streak-confirms zero required (suc n) successes w w' count enough streak = absurd (omega arith)
  Streak-confirms (suc fuel) required (suc n) successes w w' count enough
        (accepted, inl (last, same)) =
      round_lem fuel required successes w confirmed (
        judge_last required successes (svc.over ctx (attempt w).1) (attempt w).0 accepted
          (omega arith))
      ∙ ap (λ (u : W). (ok tt, u)) same
  Streak-confirms (suc fuel) required (suc zero) successes w w' count enough
        (accepted, inr (fired, streak)) =
      absurd streak
  Streak-confirms (suc fuel) required (suc (suc n)) successes w w' count enough
        (accepted, inr (fired, streak)) =
      round_lem fuel required successes w
        (again (successes + 1) (success_of (successes + 1) required))
        (judge_more required successes (svc.over ctx (attempt w).1) (attempt w).0 accepted
          (omega arith))
      ∙ rw fired (
          Streak-confirms fuel required (suc n) (successes + 1) (pause w).1 w' (omega arith)
            (omega arith) streak)

  -- A key that the frontend accepts from the first attempt on is confirmed: where `required` attempts
  -- succeed in a row, a whole interval apart, the probe succeeds with the last of them.
  pub probe_namespace_until_confirmed-live :
      (fuel required : ℕ) (w w' : W)
      → required ≤ fuel
      → Streak required w w'
      → probe_namespace_until_confirmed svc fuel ctx token namespace interval required w
        ≡ (ok tt, w')
  unfolding probe_namespace_until_confirmed
  probe_namespace_until_confirmed-live fuel required w w' enough streak =
      Streak-confirms fuel required required 0 w w' (omega arith) enough streak
