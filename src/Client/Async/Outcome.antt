-- ===== src/Client/Async/Outcome.antt =====
-- What a wait for an operation that returns no error rests on.
use vault_plugin_secrets_tem.Prelude.{
  ℕ, zero, suc, ◌+◌, ◌*◌, String, ◌≡◌, refl, ap, ◌⊎◌, ◌∙◌, inl, inr, Bool, true, false, Option,
  none, some, arith, if◌then◌else◌,
}
use vault_plugin_secrets_tem.Exec.{Result, ok, err, Context, with_timeout, second}
use vault_plugin_secrets_tem.Client.Errors.{
  OperationState, error, unavailable, other, operation_timed_out, out_of_fuel,
}
use vault_plugin_secrets_tem.Client.Service.{AsyncOperation, Reply, answer, CloudService}
use vault_plugin_secrets_tem.Client.Async.{
  operation_timeout, operation_fuel, ended, classify_operation_state, poll_answer, poll_operation,
  await_operation, op_id,
}

abbrev pub IsFulfilled : AsyncOperation → Type 0
IsFulfilled o = o.state ≡ OperationState.fulfilled

poll_answer-ok :
    (id : String) (r : Reply (Option AsyncOperation))
    → poll_answer id r ≡ some (ok tt)
    → (o : AsyncOperation) × (r ≡ answer (some o)) × IsFulfilled o
unfolding poll_answer
poll_answer-ok id (answer (some o)) h = (o, refl, ground arith)
poll_answer-ok id (answer none) h = cc
poll_answer-ok id (Reply.fault e) h = cc

ended-ok :
    (op : Option AsyncOperation)
    → ended (classify_operation_state op) ≡ some (ok tt)
    → (op ≡ none) ⊎ ((o : AsyncOperation) × (op ≡ some o) × IsFulfilled o)
unfolding ended classify_operation_state
ended-ok none h = inl refl
ended-ok (some o) h = inr (o, refl, ground arith)

after_poll-ok :
    {W : Type 0} (fired : Bool) (a : Option (Result (Unit {0}))) (rest late : Result (Unit {0}) × W)
    (w : W)
    → (late.0 ≡ ok tt → ⊥)
    → let after : Result (Unit {0}) × W =
        if fired then elim a [ none ↦ rest | some r ↦ (r, w) ] else late in
      after.0 ≡ ok tt
      → ((a ≡ some (ok tt)) × (after.1 ≡ w)) ⊎ ((a ≡ none) × (rest.0 ≡ ok tt) × (after.1 ≡ rest.1))
after_poll-ok true none rest late w l h = inr (refl, h, refl)
after_poll-ok true (some x) rest late w l h = inl (ap some h, refl)
after_poll-ok false a rest late w l h = absurd (l h)

module _ {W : Type 0} (svc : CloudService W) where
  -- The last call was a poll of the operation, it left the world `w'`, and it answered that the
  -- operation is fulfilled.
  abbrev pub SawFulfilled : String → W → Type 0
  SawFulfilled id w' =
      (c : Context) × (w : W) × (o : AsyncOperation) × ((svc.get_async_operation c id w).0
        ≡ answer (some o))
      × IsFulfilled o
      × (w' ≡ (svc.get_async_operation c id w).1)

  poll_operation-ok :
      (fuel : ℕ) (ctx : Context) (start k : ℕ) (id : String) (w : W)
      → (poll_operation svc fuel ctx start k id w).0 ≡ ok tt
      → SawFulfilled id (poll_operation svc fuel ctx start k id w).1
  unfolding poll_operation
  poll_operation-ok zero ctx start k id w h = cc
  poll_operation-ok (suc fuel) ctx start k id w h =
      let waited = svc.wait_until ctx (start + k * second) w in
      let polled = svc.get_async_operation ctx id waited.1 in
      let rest = poll_operation-ok fuel ctx start (suc k) id polled.1 in
      elim (after_poll-ok waited.0 (poll_answer id polled.0)
        (poll_operation svc fuel ctx start (suc k) id polled.1)
        (err (error unavailable (operation_timed_out id)), waited.1) polled.1 (λ e. cc) h) [
          | inl done ↦
              let (o, said, full) = poll_answer-ok id polled.0 done.0 in
              (ctx, waited.1, o, said, full, done.1)
          | inr more ↦
              let (c, w', o, said, full, same) = rest more.1 in
              (c, w', o, said, full, more.2 ∙ same)
        ]

  -- awaitOperation returns no error only where there was no operation to wait for or it was
  -- fulfilled from the start, both without a call; or where its last call was a poll that answered
  -- that the operation is fulfilled.
  pub await_operation-ok :
      (ctx : Context) (op : Option AsyncOperation) (w : W)
      → (await_operation svc ctx op w).0 ≡ ok tt
      → ((op ≡ none) × ((await_operation svc ctx op w).1 ≡ w))
        ⊎ ((o : AsyncOperation) × (op ≡ some o)
            × IsFulfilled o
            × ((await_operation svc ctx op w).1 ≡ w))
        ⊎ SawFulfilled (op_id op) (await_operation svc ctx op w).1
  unfolding await_operation
  await_operation-ok ctx op w h =
      let polled =
        poll_operation svc operation_fuel (with_timeout ctx operation_timeout (svc.now w))
          (svc.now w) 1 (op_id op) w in
      elim (after_poll-ok true (ended (classify_operation_state op)) polled
        (err (error other out_of_fuel), w) w (λ e. cc) h) [
          | inl done ↦ elim (ended-ok op done.0) [
            | inl nothing ↦ inl (nothing, done.1)
            | inr full ↦ inr (inl (full.0, full.1, full.2, done.1))
          ]
          | inr more ↦ inr (
              inr (
                let seen =
                  poll_operation-ok operation_fuel (with_timeout ctx operation_timeout (svc.now w))
                    (svc.now w) 1 (op_id op) w more.1 in
                (seen.0, seen.1, seen.2, seen.3, seen.4, more.2 ∙ seen.5)))
        ]
