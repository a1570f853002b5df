-- ===== src/Client/Async/Termination.antt =====
-- The wait for an operation ends, and what its success rests on.
use native.Mathlib.Decide.{dec_lt}
use vault_plugin_secrets_tem.Prelude.{
  ℕ, zero, suc, ◌+◌, ◌*◌, ◌≤◌, ◌<◌, String, ◌≡◌, ◌≢◌, refl, ap, Bool, true, false, Option, none,
  some, arith, if◌then◌else◌,
}
use vault_plugin_secrets_tem.Exec.{Result, ok, err, Context, with_timeout, is_over, second}
use vault_plugin_secrets_tem.Client.Errors.{
  error, other, unavailable, operation_timed_out, out_of_fuel,
}
use vault_plugin_secrets_tem.Client.Service.{
  AsyncOperation, Reply, is_deadline, CloudService, Clocked,
}
use vault_plugin_secrets_tem.Client.Async.{
  operation_timeout, operation_fuel, ended, classify_operation_state, poll_answer, poll_operation,
  await_operation, op_id,
}

-- The model's own error, which no run of the code gives.
abbrev pub stuck : {A : Type 0} → Result A
stuck = err (error other out_of_fuel)

classify-ne-stuck : (op : Option AsyncOperation) → classify_operation_state op ≢ stuck
unfolding classify_operation_state
classify-ne-stuck none h = cc
classify-ne-stuck (some op) h = ground arith

ended-ne-stuck : (op : Option AsyncOperation) → ended (classify_operation_state op) ≢ some stuck
unfolding classify_operation_state ended
ended-ne-stuck none h = cc
ended-ne-stuck (some op) h = ground arith

poll_answer-ne-stuck :
    (id : String) (r : Reply (Option AsyncOperation)) → poll_answer id r ≢ some stuck
unfolding poll_answer
poll_answer-ne-stuck id r h = ground arith

poll_answer-deadline :
    (id : String) (r : Reply (Option AsyncOperation))
    → is_deadline r ≡ true
    → poll_answer id r ≢ none
unfolding poll_answer
poll_answer-deadline id r f h = ground arith

-- By the sixtieth second the derived context is over.
over_at :
    (ctx : Context) (start t : ℕ)
    → start + 60 * second ≤ t
    → is_over (with_timeout ctx operation_timeout start) t ≡ true
over_at ctx start t h = ground arith

after_poll-ne-stuck :
    {W : Type 0} (fired : Bool) (a : Option (Result (Unit {0}))) (rest late : Result (Unit {0}) × W)
    (w : W)
    → late.0 ≢ stuck
    → a ≢ some stuck
    → (fired ≡ true → a ≡ none → rest.0 ≢ stuck)
    → (if fired then elim a [ none ↦ rest | some r ↦ (r, w) ] else late).0 ≢ stuck
after_poll-ne-stuck true none rest late w l a r = r refl refl
after_poll-ne-stuck true (some x) rest late w l a r = λ e. a (ap some e)
after_poll-ne-stuck false a rest late w l b r = l

timed_out-ne-stuck :
    (id : String)
    → ◌≢◌ {A = Result (Unit {0})} (err (error unavailable (operation_timed_out id))) stuck
timed_out-ne-stuck id h = cc

module _ {W : Type 0} (svc : CloudService W) (clocked : Clocked svc) where
  -- At the sixtieth second or later the call on the derived context fails, and the loop ends.
  poll_answer-late :
      (ctx : Context) (start k : ℕ) (id : String) (w : W)
      → 60 ≤ k
      → (svc.wait_until (with_timeout ctx operation_timeout start) (start + k * second) w).0 ≡ true
      → poll_answer id
          (svc.get_async_operation
            (with_timeout ctx operation_timeout start)
            id
            (svc.wait_until (with_timeout ctx operation_timeout start) (start + k * second) w).1).0
        ≢ none
  poll_answer-late ctx start k id w late fired =
      let c = with_timeout ctx operation_timeout start in
      let w₁ = (svc.wait_until c (start + k * second) w).1 in
      let t : start + k * second ≤ svc.now w₁ = clocked.fires_late c (start + k * second) w fired in
      poll_answer-deadline id (svc.get_async_operation c id w₁).0
        (clocked.operation_over c id w₁ (over_at ctx start (svc.now w₁) (omega arith)))

  -- From the tick `k` on, the polls left reach the sixtieth second.
  poll_operation-ne-stuck :
      (fuel : ℕ) (ctx : Context) (start k : ℕ) (id : String) (w : W)
      → k ≤ 60
      → 60 < k + fuel
      → (poll_operation svc fuel (with_timeout ctx operation_timeout start) start k id w).0 ≢ stuck
  unfolding poll_operation
  poll_operation-ne-stuck zero ctx start k id w early enough = absurd (omega arith)
  poll_operation-ne-stuck (suc fuel) ctx start k id w early enough =
      let c = with_timeout ctx operation_timeout start in
      let waited = svc.wait_until c (start + k * second) w in
      let polled = svc.get_async_operation c id waited.1 in
      let rest = poll_operation-ne-stuck fuel ctx start (suc k) id polled.1 in
      after_poll-ne-stuck waited.0 (poll_answer id polled.0)
        (poll_operation svc fuel c start (suc k) id polled.1)
        (err (error unavailable (operation_timed_out id)), waited.1) polled.1
        (timed_out-ne-stuck id) (poll_answer-ne-stuck id polled.0)
        λ fired more. elim (dec_lt k 60) [
          | yes sooner ↦ rest sooner (omega arith)
          | no late ↦ absurd (poll_answer-late ctx start k id w (omega arith) fired more)
        ]

  -- awaitOperation returns: sixty polls are enough for every operation, whatever its answers.
  pub await_operation-ne-stuck :
      (ctx : Context) (op : Option AsyncOperation) (w : W)
      → (await_operation svc ctx op w).0 ≢ stuck
  unfolding await_operation
  await_operation-ne-stuck ctx op w =
      after_poll-ne-stuck true (ended (classify_operation_state op))
        (poll_operation svc operation_fuel (with_timeout ctx operation_timeout (svc.now w))
          (svc.now w) 1 (op_id op) w)
        (ok tt, w) w (λ e. cc) (ended-ne-stuck op)
        λ _ _.
          poll_operation-ne-stuck operation_fuel ctx (svc.now w) 1 (op_id op) w (omega arith)
            (omega arith)
