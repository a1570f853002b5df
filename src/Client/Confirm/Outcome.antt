-- ===== src/Client/Confirm/Outcome.antt =====
-- What a confirmed deletion rests on.
use vault_plugin_secrets_tem.Prelude.{
  ℕ, zero, suc, ◌+◌, ◌*◌, String, ◌≡◌, refl, ◌⊎◌, ◌∙◌, inl, inr, Bool, true, false, Option, none,
  some, arith, if◌then◌else◌,
}
use vault_plugin_secrets_tem.Exec.{Result, ok, err, Exec, Context, with_timeout, millisecond}
use vault_plugin_secrets_tem.Client.Errors.{
  error, unavailable, not_in_effect, map_grpc_error, Kind, ResourceState,
}
use vault_plugin_secrets_tem.Client.Service.{
  ProtoAccount, ProtoKey, Reply, answer, fault, CloudService,
}
use vault_plugin_secrets_tem.Client.Confirm.{
  confirm_timeout, confirm_fuel, satisfied, key_gone_answer, account_gone_answer,
  key_present_answer, account_present_answer, failed_state, deleted_state, state_present,
  await_loop, api_key_present, service_account_present, service_account_gone,
  confirm_api_key_exists, confirm_service_account_exists, confirm_service_account_gone,
  await_condition, api_key_gone, confirm_api_key_gone,
}

-- An answer that says that the key is removed: not found, not reported, or marked deleted.
abbrev pub SaysGone : Reply (Option ProtoKey) → Type 0
SaysGone (fault e) = (map_grpc_error e).kind ≡ Kind.not_found
SaysGone (answer none) = Unit
SaysGone (answer (some key)) = key.state ≡ ResourceState.deleted

-- apiKeyGone reports that the key is gone exactly where the answer says so.
pub key_gone_answer_iff :
    (id : String) (r : Reply (Option ProtoKey))
    → ((key_gone_answer id r ≡ ok true) → SaysGone r)
      × (SaysGone r → key_gone_answer id r ≡ ok true)
unfolding key_gone_answer
key_gone_answer_iff id (fault e) = (λ h. ground arith, λ h. ground arith)
key_gone_answer_iff id (answer none) = (λ h. tt, λ h. refl)
key_gone_answer_iff id (answer (some key)) = (λ h. ground arith, λ h. ground arith)

abbrev pub SaysAccountGone : Reply (Option ProtoAccount) → Type 0
SaysAccountGone (fault e) = (map_grpc_error e).kind ≡ Kind.not_found
SaysAccountGone (answer none) = Unit
SaysAccountGone (answer (some sa)) = sa.state ≡ ResourceState.deleted

account_gone_answer-gone :
    (id : String) (r : Reply (Option ProtoAccount))
    → account_gone_answer id r ≡ ok true
    → SaysAccountGone r
unfolding account_gone_answer
account_gone_answer-gone id (fault e) h = ground arith
account_gone_answer-gone id (answer none) h = tt
account_gone_answer-gone id (answer (some sa)) h = ground arith

-- A state that is neither failed nor deleted.
abbrev pub IsLive : ResourceState → Type 0
IsLive state = (failed_state state ≡ false) × (deleted_state state ≡ false)

state_present-IsLive :
    (id : String) (state : ResourceState) → state_present id state ≡ ok true → IsLive state
unfolding state_present
state_present-IsLive id state h = (ground arith, ground arith)

key_present_answer-IsLive :
    (id : String) (r : Reply (Option ProtoKey))
    → key_present_answer id r ≡ ok true
    → (key : ProtoKey) × (r ≡ answer (some key)) × IsLive key.state
unfolding key_present_answer
key_present_answer-IsLive id (fault e) h = ground arith
key_present_answer-IsLive id (answer none) h = cc
key_present_answer-IsLive id (answer (some key)) h =
    (key, refl, state_present-IsLive id key.state h)

account_present_answer-IsLive :
    (id : String) (r : Reply (Option ProtoAccount))
    → account_present_answer id r ≡ ok true
    → (sa : ProtoAccount) × (r ≡ answer (some sa)) × IsLive sa.state
unfolding account_present_answer
account_present_answer-IsLive id (fault e) h = ground arith
account_present_answer-IsLive id (answer none) h = cc
account_present_answer-IsLive id (answer (some sa)) h =
    (sa, refl, state_present-IsLive id sa.state h)

after_check-ok :
    {W : Type 0} (r : Result Bool) (fired : Bool) (rest late : Result (Unit {0}) × W) (w : W)
    → (late.0 ≡ ok tt → ⊥)
    → let after : Result (Unit {0}) × W = elim (satisfied r) [
      | some done ↦ (done, w)
      | none ↦ if fired then rest else late
    ] in
      after.0 ≡ ok tt → ((r ≡ ok true) × (after.1 ≡ w)) ⊎ ((rest.0 ≡ ok tt) × (after.1 ≡ rest.1))
unfolding satisfied
after_check-ok (err e) fired rest late w l h = cc
after_check-ok (ok true) fired rest late w l h = inl (refl, refl)
after_check-ok (ok false) true rest late w l h = inr (h, refl)
after_check-ok (ok false) false rest late w l h = absurd (l h)

module _ {W : Type 0} (svc : CloudService W) where
  await_loop-ok :
      (check : Context → Exec W Bool) (fuel : ℕ) (ctx : Context) (what : String) (w : W)
      → (await_loop svc fuel ctx what check w).0 ≡ ok tt
      → (c : Context) × (w' : W) × ((check c w').0 ≡ ok true)
        × ((await_loop svc fuel ctx what check w).1 ≡ (check c w').1)
  unfolding await_loop
  await_loop-ok check zero ctx what w h = cc
  await_loop-ok check (suc fuel) ctx what w h =
      let checked = check ctx w in
      let waited = svc.wait_until ctx (svc.now checked.1 + 500 * millisecond) checked.1 in
      let rest = await_loop-ok check fuel ctx what waited.1 in
      elim (after_check-ok checked.0 waited.0 (await_loop svc fuel ctx what check waited.1)
        (err (error unavailable (not_in_effect what)), waited.1) checked.1 (λ e. cc) h) [
          | inl done ↦ (ctx, w, done.0, done.1)
          | inr more ↦ let q = rest more.0 in (q.0, q.1, q.2, more.1 ∙ q.3)
        ]

  await_condition-ok :
      (check : Context → Exec W Bool) (ctx : Context) (what : String) (w : W)
      → (await_condition svc ctx what check w).0 ≡ ok tt
      → (c : Context) × (w' : W) × ((check c w').0 ≡ ok true)
        × ((await_condition svc ctx what check w).1 ≡ (check c w').1)
  unfolding await_condition
  await_condition-ok check ctx what w h =
      await_loop-ok check confirm_fuel (with_timeout ctx confirm_timeout (svc.now w)) what w h

  -- The last call was a read of the key, it left the world `w'`, and it answered that the key is
  -- removed.
  abbrev pub SawGone : String → W → Type 0
  SawGone id w' =
      (c : Context) × (w : W) × SaysGone (svc.get_api_key c id w).0
      × (w' ≡ (svc.get_api_key c id w).1)

  -- A confirmed deletion ended with a read of the key that answered that it is removed: NotFound, no
  -- key, or a key in the state deleted.
  pub confirm_api_key_gone-ok :
      (ctx : Context) (id : String) (w : W)
      → (confirm_api_key_gone svc ctx id w).0 ≡ ok tt
      → SawGone id (confirm_api_key_gone svc ctx id w).1
  unfolding confirm_api_key_gone api_key_gone
  confirm_api_key_gone-ok ctx id w h =
      let seen = await_condition-ok (api_key_gone svc id) ctx id w h in
      (
        seen.0,
        seen.1,
        (key_gone_answer_iff id (svc.get_api_key seen.0 id seen.1).0).0 seen.2,
        seen.3,
      )

  -- The last call was a read of the key, it left the world `w'`, and it answered with a key in a
  -- state that is neither failed nor deleted.
  abbrev pub SawLive : String → W → Type 0
  SawLive id w' =
      (c : Context) × (w : W) × (key : ProtoKey) × ((svc.get_api_key c id w).0 ≡ answer (some key))
      × IsLive key.state
      × (w' ≡ (svc.get_api_key c id w).1)

  pub confirm_api_key_exists-ok :
      (ctx : Context) (id : String) (w : W)
      → (confirm_api_key_exists svc ctx id w).0 ≡ ok tt
      → SawLive id (confirm_api_key_exists svc ctx id w).1
  unfolding confirm_api_key_exists api_key_present
  confirm_api_key_exists-ok ctx id w h =
      let (c, w', present, same) = await_condition-ok (api_key_present svc id) ctx id w h in
      let (key, said, live) = key_present_answer-IsLive id (svc.get_api_key c id w').0 present in
      (c, w', key, said, live, same)

  -- The same two of a service account.
  abbrev pub SawAccountLive : String → W → Type 0
  SawAccountLive id w' =
      (c : Context) × (w : W) × (sa : ProtoAccount) × ((svc.get_service_account c id w).0
        ≡ answer (some sa))
      × IsLive sa.state
      × (w' ≡ (svc.get_service_account c id w).1)

  abbrev pub SawAccountGone : String → W → Type 0
  SawAccountGone id w' =
      (c : Context) × (w : W) × SaysAccountGone (svc.get_service_account c id w).0
      × (w' ≡ (svc.get_service_account c id w).1)

  pub confirm_service_account_exists-ok :
      (ctx : Context) (id : String) (w : W)
      → (confirm_service_account_exists svc ctx id w).0 ≡ ok tt
      → SawAccountLive id (confirm_service_account_exists svc ctx id w).1
  unfolding confirm_service_account_exists service_account_present
  confirm_service_account_exists-ok ctx id w h =
      let (c, w', present, same) = await_condition-ok (service_account_present svc id) ctx id w h in
      let (sa, said, live) =
        account_present_answer-IsLive id (svc.get_service_account c id w').0 present in
      (c, w', sa, said, live, same)

  pub confirm_service_account_gone-ok :
      (ctx : Context) (id : String) (w : W)
      → (confirm_service_account_gone svc ctx id w).0 ≡ ok tt
      → SawAccountGone id (confirm_service_account_gone svc ctx id w).1
  unfolding confirm_service_account_gone service_account_gone
  confirm_service_account_gone-ok ctx id w h =
      let (c, w', gone, same) = await_condition-ok (service_account_gone svc id) ctx id w h in
      (c, w', account_gone_answer-gone id (svc.get_service_account c id w').0 gone, same)
