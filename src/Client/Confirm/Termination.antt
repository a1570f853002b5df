-- ===== src/Client/Confirm/Termination.antt =====
-- The read-back of client/confirm.go ends.
use native.Mathlib.Decide.{dec_lt}
use vault_plugin_secrets_tem.Prelude.{
  ℕ, zero, suc, ◌+◌, ◌*◌, ◌≤◌, ◌<◌, String, ◌≡◌, ◌≢◌, refl, ap, Bool, true, false, Option, none,
  some, arith, if◌then◌else◌,
}
use vault_plugin_secrets_tem.Exec.{
  Result, err, Exec, Context, with_timeout, is_over, second, millisecond,
}
use vault_plugin_secrets_tem.Client.Errors.{error, unavailable, not_in_effect}
use vault_plugin_secrets_tem.Client.Service.{
  ProtoAccount, ProtoKey, Reply, is_deadline, CloudService, Clocked,
}
use vault_plugin_secrets_tem.Client.Async.Termination.{stuck}
use vault_plugin_secrets_tem.Client.Confirm.{
  confirm_timeout, confirm_fuel, satisfied, account_present_answer, account_gone_answer,
  key_present_answer, key_gone_answer, await_loop, await_condition, service_account_present,
  service_account_gone, api_key_present, api_key_gone, confirm_service_account_exists,
  confirm_service_account_gone, confirm_api_key_exists, confirm_api_key_gone,
}

over_at :
    (ctx : Context) (start t : ℕ)
    → start + 15 * second ≤ t
    → is_over (with_timeout ctx confirm_timeout start) t ≡ true
over_at ctx start t h = ground arith

-- What a check is like: it does not turn the clock back, it decides once its context is over, and
-- it never gives the model's own error.
pub record IsCheck {W : Type 0} (svc : CloudService W) (check : Context → Exec W Bool)
    : Type 0 where
  pub clock : (c : Context) (w : W) → svc.now w ≤ svc.now (check c w).1
  pub decides :
      (c : Context) (w : W) → is_over c (svc.now w) ≡ true → satisfied (check c w).0 ≢ none
  pub honest : (c : Context) (w : W) → satisfied (check c w).0 ≢ some stuck

after_check-ne-stuck :
    {W : Type 0} (a : Option (Result (Unit {0}))) (fired : Bool) (rest late : Result (Unit {0}) × W)
    (w : W)
    → late.0 ≢ stuck
    → a ≢ some stuck
    → (a ≡ none → fired ≡ true → rest.0 ≢ stuck)
    → let after : Result (Unit {0}) × W = elim a [
      | some done ↦ (done, w)
      | none ↦ if fired then rest else late
    ] in
      after.0 ≢ stuck
after_check-ne-stuck none true rest late w l a r = r refl refl
after_check-ne-stuck none false rest late w l a r = l
after_check-ne-stuck (some x) fired rest late w l a r = λ e. a (ap some e)

module _ {W : Type 0} (svc : CloudService W) (clocked : Clocked svc) where
  -- After `j` waits half a second each has passed, and the fuel left reaches the fifteenth second.
  await_loop-ne-stuck :
      (check : Context → Exec W Bool) (is_check : IsCheck svc check) (fuel : ℕ) (ctx : Context)
      (start j : ℕ) (what : String) (w : W)
      → start + j * (500 * millisecond) ≤ svc.now w
      → j ≤ 30
      → 30 < j + fuel
      → (await_loop svc fuel (with_timeout ctx confirm_timeout start) what check w).0 ≢ stuck
  unfolding await_loop
  await_loop-ne-stuck check is_check zero ctx start j what w passed early enough =
      absurd (omega arith)
  await_loop-ne-stuck check is_check (suc fuel) ctx start j what w passed early enough =
      let c = with_timeout ctx confirm_timeout start in
      let checked = check c w in
      let waited = svc.wait_until c (svc.now checked.1 + 500 * millisecond) checked.1 in
      let rest = await_loop-ne-stuck check is_check fuel ctx start (suc j) what waited.1 in
      after_check-ne-stuck (satisfied checked.0) waited.0
        (await_loop svc fuel c what check waited.1)
        (err (error unavailable (not_in_effect what)), waited.1) checked.1 (λ e. cc)
        (is_check.honest c w)
        λ undecided fired. elim (dec_lt j 30) [
          | yes sooner ↦
              let t =
                clocked.fires_late c (svc.now checked.1 + 500 * millisecond) checked.1 fired in
              rest (omega (arith, t, is_check.clock c w)) sooner (omega arith)
          | no late ↦
              absurd (is_check.decides c w (over_at ctx start (svc.now w) (omega arith)) undecided)
        ]

  -- awaitCondition returns, whatever the check finds.
  await_condition-ne-stuck :
      (check : Context → Exec W Bool)
      → IsCheck svc check
      → (ctx : Context) (what : String) (w : W) → (await_condition svc ctx what check w).0 ≢ stuck
  unfolding await_condition
  await_condition-ne-stuck check is_check ctx what w =
      await_loop-ne-stuck check is_check confirm_fuel ctx (svc.now w) 0 what w (omega arith)
        (omega arith) (omega arith)

account_present-deadline :
    (id : String) (r : Reply (Option ProtoAccount))
    → is_deadline r ≡ true
    → satisfied (account_present_answer id r) ≢ none
unfolding account_present_answer satisfied
account_present-deadline id r d h = ground arith

account_present-honest :
    (id : String) (r : Reply (Option ProtoAccount))
    → satisfied (account_present_answer id r) ≢ some stuck
unfolding account_present_answer satisfied
account_present-honest id r h = ground arith

account_gone-deadline :
    (id : String) (r : Reply (Option ProtoAccount))
    → is_deadline r ≡ true
    → satisfied (account_gone_answer id r) ≢ none
unfolding account_gone_answer satisfied
account_gone-deadline id r d h = ground arith

account_gone-honest :
    (id : String) (r : Reply (Option ProtoAccount))
    → satisfied (account_gone_answer id r) ≢ some stuck
unfolding account_gone_answer satisfied
account_gone-honest id r h = ground arith

key_present-deadline :
    (id : String) (r : Reply (Option ProtoKey))
    → is_deadline r ≡ true
    → satisfied (key_present_answer id r) ≢ none
unfolding key_present_answer satisfied
key_present-deadline id r d h = ground arith

key_present-honest :
    (id : String) (r : Reply (Option ProtoKey)) → satisfied (key_present_answer id r) ≢ some stuck
unfolding key_present_answer satisfied
key_present-honest id r h = ground arith

key_gone-deadline :
    (id : String) (r : Reply (Option ProtoKey))
    → is_deadline r ≡ true
    → satisfied (key_gone_answer id r) ≢ none
unfolding key_gone_answer satisfied
key_gone-deadline id r d h = ground arith

key_gone-honest :
    (id : String) (r : Reply (Option ProtoKey)) → satisfied (key_gone_answer id r) ≢ some stuck
unfolding key_gone_answer satisfied
key_gone-honest id r h = ground arith

module _ {W : Type 0} (svc : CloudService W) (clocked : Clocked svc) where
  service_account_present-IsCheck : (id : String) → IsCheck svc (service_account_present svc id)
  unfolding service_account_present
  service_account_present-IsCheck id = record {
    clock = λ c w. clocked.account_clock c id w;
    decides = λ c w over.
        account_present-deadline id (svc.get_service_account c id w).0
          (clocked.account_over c id w over);
    honest = λ c w. account_present-honest id (svc.get_service_account c id w).0;
  }

  service_account_gone-IsCheck : (id : String) → IsCheck svc (service_account_gone svc id)
  unfolding service_account_gone
  service_account_gone-IsCheck id = record {
    clock = λ c w. clocked.account_clock c id w;
    decides = λ c w over.
        account_gone-deadline id (svc.get_service_account c id w).0
          (clocked.account_over c id w over);
    honest = λ c w. account_gone-honest id (svc.get_service_account c id w).0;
  }

  api_key_present-IsCheck : (id : String) → IsCheck svc (api_key_present svc id)
  unfolding api_key_present
  api_key_present-IsCheck id = record {
    clock = λ c w. clocked.key_clock c id w;
    decides = λ c w over.
        key_present-deadline id (svc.get_api_key c id w).0 (clocked.key_over c id w over);
    honest = λ c w. key_present-honest id (svc.get_api_key c id w).0;
  }

  api_key_gone-IsCheck : (id : String) → IsCheck svc (api_key_gone svc id)
  unfolding api_key_gone
  api_key_gone-IsCheck id = record {
    clock = λ c w. clocked.key_clock c id w;
    decides =
        λ c w over. key_gone-deadline id (svc.get_api_key c id w).0 (clocked.key_over c id w over);
    honest = λ c w. key_gone-honest id (svc.get_api_key c id w).0;
  }

  -- The four confirmations return, whatever the service answers: thirty-one checks are enough.
  pub confirmations-ne-stuck :
      (ctx : Context) (id : String) (w : W)
      → ((confirm_service_account_exists svc ctx id w).0 ≢ stuck)
        × ((confirm_service_account_gone svc ctx id w).0 ≢ stuck)
        × ((confirm_api_key_exists svc ctx id w).0 ≢ stuck)
        × ((confirm_api_key_gone svc ctx id w).0 ≢ stuck)
  unfolding confirm_service_account_exists confirm_service_account_gone confirm_api_key_exists
      confirm_api_key_gone
  confirmations-ne-stuck ctx id w = (
    await_condition-ne-stuck svc clocked (service_account_present svc id)
        (service_account_present-IsCheck id) ctx id w,
    await_condition-ne-stuck svc clocked (service_account_gone svc id)
        (service_account_gone-IsCheck id) ctx id w,
    await_condition-ne-stuck svc clocked (api_key_present svc id) (api_key_present-IsCheck id) ctx
        id w,
    await_condition-ne-stuck svc clocked (api_key_gone svc id) (api_key_gone-IsCheck id) ctx id w,
  )
