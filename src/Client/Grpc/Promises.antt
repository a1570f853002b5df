-- ===== src/Client/Grpc/Promises.antt =====
-- What the operations of client/grpc.go promise to the engine, and that they keep it.
use mathlib.Core.Path.{subst}
use vault_plugin_secrets_tem.Prelude.{
  ℕ, String, ◌≡◌, refl, ap, Bool, true, false, Option, none, some,
}
use vault_plugin_secrets_tem.Exec.{Result, ok, err, Exec, ◌>>=◌, ◌>>◌, lift, try, Context}
use vault_plugin_secrets_tem.Client.Errors.{Error}
use vault_plugin_secrets_tem.Client.{
  ClientConfig, ServiceAccountSpec, ApiKeySpec, ApiKey, Created, created, CloudOps,
}
use vault_plugin_secrets_tem.Client.Service.{
  Role, Permission, ProtoSpec, CreatedAccount, CreatedKey, Reply, answer, fault, CloudService,
}
use vault_plugin_secrets_tem.Client.Access.{to_proto}
use vault_plugin_secrets_tem.Client.Async.{await_operation}
use vault_plugin_secrets_tem.Client.Confirm.{
  api_key_gone, confirm_service_account_exists, confirm_api_key_exists,
}
use vault_plugin_secrets_tem.Client.Confirm.Outcome.{
  SawGone, SawLive, SawAccountLive, SawAccountGone, confirm_api_key_gone-ok,
  confirm_api_key_exists-ok, confirm_service_account_exists-ok, confirm_service_account_gone-ok,
}
use vault_plugin_secrets_tem.Client.Grpc.{
  call, confirmed, version_of, failed_delete, settle_account, created_account, send_account,
  create_service_account, settle_key, created_key, send_key, create_api_key, settle_delete,
  delete_api_key, get_service_account, delete_service_account, grpc_client,
}

past :
    {W A B : Type 0} (r : Result A) (w : W) (f : A → Exec W B) (b : B) (w' : W)
    → (lift r >>= f) w ≡ (ok b, w')
    → (a : A) × (w₁ : W) × (◌≡◌ {A = Result A × W} (r, w) (ok a, w₁)) × (f a w₁ ≡ (ok b, w'))
past (ok a) w f b w' h = (a, w, refl, h)
past (err e) w f b w' h = cc

-- An action that ends well got past its first part.
stepped :
    {W A B : Type 0} (m : Exec W A) (f : A → Exec W B) (b : B) (w w' : W)
    → (m >>= f) w ≡ (ok b, w')
    → (a : A) × (w₁ : W) × (m w ≡ (ok a, w₁)) × (f a w₁ ≡ (ok b, w'))
stepped m f b w w' h = past (m w).0 (m w).1 f b w' h

confirmed-created :
    {A W : Type 0} (a b : A) (r : Result (Unit {0})) (w w' : W)
    → ◌≡◌ {A = Created A × W} (confirmed a r, w) (created b, w')
    → (a ≡ b) × (r ≡ ok tt) × (w ≡ w')
confirmed-created a b (ok _) w w' h = (cc, refl, ap (λ u. u.1) h)
confirmed-created a b (err e) w w' h = cc

-- The contract: what the caller may take from an answer without an error. Each operation's last call
-- was a read that showed what the operation asked for.
pub record IsConfirmed {W : Type 0} (dial : ClientConfig → CloudService W) (ops : CloudOps W)
    : Type 0 where
  pub key_live :
      (cfg : ClientConfig) (ctx : Context) (spec : ApiKeySpec) (key : ApiKey) (w w' : W)
      → ops.create_api_key cfg ctx spec w ≡ (created key, w')
      → SawLive (dial cfg) key.id w'
  pub account_live :
      (cfg : ClientConfig) (ctx : Context) (spec : ServiceAccountSpec) (id : String) (w w' : W)
      → ops.create_service_account cfg ctx spec w ≡ (created id, w')
      → SawAccountLive (dial cfg) id w'
  pub key_gone :
      (cfg : ClientConfig) (ctx : Context) (id : String) (w w' : W)
      → ops.delete_api_key cfg ctx id w ≡ (ok tt, w')
      → SawGone (dial cfg) id w'
  pub account_gone :
      (cfg : ClientConfig) (ctx : Context) (id : String) (w w' : W)
      → ops.delete_service_account cfg ctx id w ≡ (ok tt, w')
      → SawAccountGone (dial cfg) id w'

module _ {W : Type 0} (svc : CloudService W) where
  key_exists :
      (ctx : Context) (id : String) (w w' : W)
      → confirm_api_key_exists svc ctx id w ≡ (ok tt, w')
      → SawLive svc id w'
  key_exists ctx id w w' h =
      subst (SawLive svc id) (ap (λ u. u.1) h)
        (confirm_api_key_exists-ok svc ctx id w (ap (λ u. u.0) h))

  account_exists :
      (ctx : Context) (id : String) (w w' : W)
      → confirm_service_account_exists svc ctx id w ≡ (ok tt, w')
      → SawAccountLive svc id w'
  account_exists ctx id w w' h =
      subst (SawAccountLive svc id) (ap (λ u. u.1) h)
        (confirm_service_account_exists-ok svc ctx id w (ap (λ u. u.0) h))

  settle_key-created :
      (ctx : Context) (made : CreatedKey) (key : ApiKey) (w w' : W)
      → settle_key svc ctx made w ≡ (created key, w')
      → SawLive svc key.id w'
  unfolding settle_key
  settle_key-created ctx made key w w' h =
      let waits : Exec W (Unit {0}) =
        await_operation svc ctx made.operation >> confirm_api_key_exists svc ctx made.id in
      let (same, worked, there) =
        confirmed-created (record { id = made.id; token = made.token }) key (waits w).0 (waits w).1
          w' h in
      let (_, w₁, _, h₁) =
        stepped (await_operation svc ctx made.operation)
          (λ _. confirm_api_key_exists svc ctx made.id) tt w (waits w).1
          (ap (λ u. (u, (waits w).1)) worked) in
      subst (λ id. SawLive svc id w') (ap (λ k. k.id) same)
        (subst (SawLive svc made.id) there (key_exists ctx made.id w₁ (waits w).1 h₁))

  created_key-created :
      (ctx : Context) (made : Reply CreatedKey × W) (key : ApiKey) (w' : W)
      → created_key svc ctx made ≡ (created key, w')
      → SawLive svc key.id w'
  unfolding created_key
  created_key-created ctx (answer made, w) key w' h = settle_key-created ctx made key w w' h
  created_key-created ctx (fault e, w) key w' h = cc

  send_key-created :
      (ctx : Context) (spec : ApiKeySpec) (expiry : Option ℕ) (key : ApiKey) (w w' : W)
      → send_key svc ctx spec expiry w ≡ (created key, w')
      → SawLive svc key.id w'
  unfolding send_key
  send_key-created ctx spec (some expiry) key w w' h = created_key-created ctx _ key w' h
  send_key-created ctx spec none key w w' h = cc

  settle_account-created :
      (ctx : Context) (made : CreatedAccount) (id : String) (w w' : W)
      → settle_account svc ctx made w ≡ (created id, w')
      → SawAccountLive svc id w'
  unfolding settle_account
  settle_account-created ctx made id w w' h =
      let waits : Exec W (Unit {0}) =
        await_operation svc ctx made.operation >> confirm_service_account_exists svc ctx made.id in
      let (same, worked, there) = confirmed-created made.id id (waits w).0 (waits w).1 w' h in
      let (_, w₁, _, h₁) =
        stepped (await_operation svc ctx made.operation)
          (λ _. confirm_service_account_exists svc ctx made.id) tt w (waits w).1
          (ap (λ u. (u, (waits w).1)) worked) in
      subst (λ i. SawAccountLive svc i w') same
        (subst (SawAccountLive svc made.id) there (account_exists ctx made.id w₁ (waits w).1 h₁))

  created_account-created :
      (ctx : Context) (made : Reply CreatedAccount × W) (id : String) (w' : W)
      → created_account svc ctx made ≡ (created id, w')
      → SawAccountLive svc id w'
  unfolding created_account
  created_account-created ctx (answer made, w) id w' h = settle_account-created ctx made id w w' h
  created_account-created ctx (fault e, w) id w' h = cc

  send_account-created :
      (ctx : Context) (spec : Result ProtoSpec) (id : String) (w w' : W)
      → send_account svc ctx spec w ≡ (created id, w')
      → SawAccountLive svc id w'
  unfolding send_account
  send_account-created ctx (ok spec) id w w' h =
      created_account-created ctx (svc.create_service_account ctx spec w) id w' h
  send_account-created ctx (err e) id w w' h = cc

  never_ok :
      (id : String) (e : Error) (gone : Result Bool) (w w' : W)
      → ◌≡◌ {A = Result (Unit {0}) × W} (failed_delete id e gone, w) (ok tt, w')
      → SawGone svc id w'
  unfolding failed_delete
  never_ok id e (ok true) w w' h = cc
  never_ok id e (ok false) w w' h = cc
  never_ok id e (err x) w w' h = cc

  settle_delete-ok :
      (ctx : Context) (id : String) (waited : Result (Unit {0})) (w w' : W)
      → settle_delete svc ctx id waited w ≡ (ok tt, w')
      → SawGone svc id w'
  unfolding settle_delete
  settle_delete-ok ctx id (ok _) w w' h =
      subst (SawGone svc id) (ap (λ u. u.1) h)
        (confirm_api_key_gone-ok svc ctx id w (ap (λ u. u.0) h))
  settle_delete-ok ctx id (err e) w w' h =
      let gone = api_key_gone svc id ctx w in never_ok id e gone.0 gone.1 w' h

  delete_api_key-ok :
      (ctx : Context) (id : String) (w w' : W)
      → delete_api_key svc ctx id w ≡ (ok tt, w')
      → SawGone svc id w'
  unfolding delete_api_key
  delete_api_key-ok ctx id w w' h =
      let (got, w₁, _, h₁) = stepped (call (svc.get_api_key ctx id)) _ tt w w' h in
      let (op, w₂, _, h₂) =
        stepped (call (svc.delete_api_key ctx id (version_of got))) _ tt w₁ w' h₁ in
      let (waited, w₃, _, h₃) =
        stepped (try (await_operation svc ctx op)) (settle_delete svc ctx id) tt w₂ w' h₂ in
      settle_delete-ok ctx id waited w₃ w' h₃

  delete_service_account-ok :
      (show_role : Role → String) (show_permission : Permission → String) (ctx : Context)
      (id : String) (w w' : W)
      → delete_service_account svc show_role show_permission ctx id w ≡ (ok tt, w')
      → SawAccountGone svc id w'
  unfolding delete_service_account
  delete_service_account-ok show_role show_permission ctx id w w' h =
      let (current, w₁, _, h₁) =
        stepped (get_service_account svc show_role show_permission ctx id) _ tt w w' h in
      let (op, w₂, _, h₂) =
        stepped (call (svc.delete_service_account ctx id current.resource_version)) _ tt w₁ w' h₁ in
      let (_, w₃, _, h₃) = stepped (await_operation svc ctx op) _ tt w₂ w' h₂ in
      subst (SawAccountGone svc id) (ap (λ u. u.1) h₃)
        (confirm_service_account_gone-ok svc ctx id w₃ (ap (λ u. u.0) h₃))

pub grpc_client-IsConfirmed :
    {W : Type 0} (dial : ClientConfig → CloudService W) (show_role : Role → String)
    (show_permission : Permission → String) (fuel : ℕ)
    → IsConfirmed dial (grpc_client dial show_role show_permission fuel)
unfolding grpc_client create_api_key create_service_account
grpc_client-IsConfirmed dial show_role show_permission fuel = record {
  key_live =
      λ cfg ctx spec key w w' h. send_key-created (dial cfg) ctx spec spec.expiry_time key w w' h;
  account_live =
      λ cfg ctx spec id w w' h. send_account-created (dial cfg) ctx (to_proto spec) id w w' h;
  key_gone = λ cfg ctx id w w' h. delete_api_key-ok (dial cfg) ctx id w w' h;
  account_gone = λ cfg ctx id w w' h.
      delete_service_account-ok (dial cfg) show_role show_permission ctx id w w' h;
}
