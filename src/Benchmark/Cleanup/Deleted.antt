-- ===== src/Benchmark/Cleanup/Deleted.antt =====
-- What a cleanup without an error rests on.
use vault_plugin_secrets_tem.Prelude.{
  ℕ, zero, suc, ◌+◌, ◌*◌, String, ◌≡◌, refl, ◌∙◌, ◌⊎◌, inl, inr, Bool, true, false, Option, none,
  some, arith, if◌then◌else◌,
}
use vault_plugin_secrets_tem.Exec.{Result, ok, err, Context, with_timeout, second}
use vault_plugin_secrets_tem.Client.Errors.{Error, Kind}
use vault_plugin_secrets_tem.Benchmark.{
  Rig, CleanupError, interrupted, cleanup_timeout, cleanup_attempts,
}
use vault_plugin_secrets_tem.Benchmark.Cleanup.{key_error, delete_key_loop, delete_key}

-- An answer after which the key is known not to be there.
abbrev pub IsAbsent : Result (Unit {0}) → Type 0
IsAbsent (ok _) = Unit
IsAbsent (err e) = e.kind ≡ Kind.not_found

key_error-IsAbsent : (r : Result (Unit {0})) → key_error r ≡ none → IsAbsent r
unfolding key_error
key_error-IsAbsent (ok _) h = tt
key_error-IsAbsent (err e) h = ground arith

-- A round of the loop that gives no error ended it, or left it to the rest.
round-none :
    {W : Type 0} (found : Option Error) (fired : Bool) (rest : Error → Option CleanupError × W)
    (id : String) (w₁ w₂ : W)
    → let after : Option CleanupError × W = elim found [
      | none ↦ (none, w₁)
      | some e ↦ if fired then rest e else (some (interrupted id e), w₂)
    ] in
      after.0 ≡ none
      → ((found ≡ none) × (after.1 ≡ w₁))
        ⊎ ((e : Error) × ((rest e).0 ≡ none) × (after.1 ≡ (rest e).1))
round-none none fired rest id w₁ w₂ h = inl (refl, refl)
round-none (some e) true rest id w₁ w₂ h = inr (e, h, refl)
round-none (some e) false rest id w₁ w₂ h = cc

module _ {W : Type 0} (rig : Rig W) where
  -- The last call was a delete of the key that left the world `w'`, and was answered without an error
  -- or with NotFound.
  abbrev pub SawAbsent : String → W → Type 0
  SawAbsent id w' =
      (c : Context) × (w : W) × IsAbsent (rig.cleanup.delete_api_key rig.cleanup_config c id w).0
      × (w' ≡ (rig.cleanup.delete_api_key rig.cleanup_config c id w).1)

  delete_key_loop-none :
      (left : ℕ) (ctx : Context) (id : String) (attempt : ℕ) (last : Option Error) (w : W)
      → (delete_key_loop rig left ctx id attempt last w).0 ≡ none
      → SawAbsent id (delete_key_loop rig left ctx id attempt last w).1
  unfolding delete_key_loop
  delete_key_loop-none zero ctx id attempt last w h = cc
  delete_key_loop-none (suc left) ctx id attempt last w h =
      let made = rig.cleanup.delete_api_key rig.cleanup_config ctx id w in
      let waited =
        rig.frontend.wait_until ctx (rig.frontend.now made.1 + attempt * second) made.1 in
      elim (round-none (key_error made.0) waited.0
        (λ e. delete_key_loop rig left ctx id (suc attempt) (some e) waited.1) id made.1 waited.1
        h) [
          | inl (absent, same) ↦ (ctx, w, key_error-IsAbsent made.0 absent, same)
          | inr (e, more, same) ↦
              let (c, w', absent, there) =
                delete_key_loop-none left ctx id (suc attempt) (some e) waited.1 more in
              (c, w', absent, same ∙ there)
        ]

  pub delete_key-none :
      (id : String) (w : W) → (delete_key rig id w).0 ≡ none → SawAbsent id (delete_key rig id w).1
  unfolding delete_key
  delete_key-none id w h =
      delete_key_loop-none cleanup_attempts (with_timeout none cleanup_timeout (rig.frontend.now w))
        id 1 none w h
