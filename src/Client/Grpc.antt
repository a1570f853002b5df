-- ===== src/Client/Grpc.antt =====
-- client/grpc.go: the operations of `CloudOps` over the Cloud Ops API. Each connection is a service;
-- a client's configuration selects it.
pub mod Promises
pub mod Paging
pub mod Search
use vault_plugin_secrets_tem.Prelude.{
  ℕ, zero, suc, ◌+◌, String, Bool, true, Option, none, some, List, [], ◌∷◌, length, ◌==◌,
  if◌then◌else◌,
}
use vault_plugin_secrets_tem.Prelude.Text.{is_empty}
use vault_plugin_secrets_tem.Exec.{
  Result, ok, err, Exec, ◌>>=◌, ◌>>◌, pure, raise, lift, try, Context,
}
use vault_plugin_secrets_tem.Client.Errors.{
  Error, error, not_found, invalid_argument, unavailable, other, no_service_account,
  no_account_named, no_api_key, api_key_has_no_spec, already_deleted, expiry_required,
  page_token_stuck, out_of_fuel, map_grpc_error,
}
use vault_plugin_secrets_tem.Client.{
  ClientConfig, ServiceAccountSpec, ServiceAccount, ApiKeySpec, ApiKey, ApiKeyMetadata, OwnerType,
  Created, created, not_created, unconfirmed, CloudOps,
}
use vault_plugin_secrets_tem.Client.Service.{
  Role, Permission, ProtoOwner, ProtoSpec, ProtoAccount, ProtoKeySpec, ProtoKey, CreatedAccount,
  CreatedKey, Reply, answer, fault, CloudService,
}
use vault_plugin_secrets_tem.Client.Access.{to_proto, spec_from_proto}
use vault_plugin_secrets_tem.Client.Async.{await_operation}
use vault_plugin_secrets_tem.Client.Confirm.{
  api_key_gone, confirm_service_account_exists, confirm_service_account_gone,
  confirm_api_key_exists, confirm_api_key_gone,
}

-- A call whose error goes through MapGRPCError.
abbrev pub mapped : {A : Type 0} → Reply A → Result A
mapped (answer a) = ok a
mapped (fault e) = err (map_grpc_error e)

abbrev pub call : {W A : Type 0} → (W → Reply A × W) → Exec W A
call m w = let (r, w') = m w in (mapped r, w')

-- What the caller gets when the value was made and the waits after it ended with a result.
abbrev pub confirmed : {A : Type 0} → A → Result (Unit {0}) → Created A
confirmed a (ok _) = created a
confirmed a (err e) = unconfirmed a e

owner_type_of : ProtoOwner → OwnerType
owner_type_of ProtoOwner.user = OwnerType.user
owner_type_of ProtoOwner.service_account = OwnerType.service_account
owner_type_of _ = OwnerType.unknown

metadata_of_spec : String → String → Option ProtoKeySpec → Result ApiKeyMetadata
metadata_of_spec id key_id none = err (error invalid_argument (api_key_has_no_spec id))
metadata_of_spec id key_id (some spec) =
    ok
      (record { id = key_id; owner_id = spec.owner_id; owner_type = owner_type_of spec.owner_type })

metadata_of : String → Option ProtoKey → Result ApiKeyMetadata
metadata_of id none = err (error not_found (no_api_key id))
metadata_of id (some key) = metadata_of_spec id key.id key.spec

-- GetApiKey().GetResourceVersion(), the empty text for a key that was not reported.
unfoldable pub version_of : Option ProtoKey → String
version_of none = ""
version_of (some key) = key.resource_version

-- After a failed delete operation: a key that is gone is reported as not found.
unfoldable pub failed_delete : String → Error → Result Bool → Result (Unit {0})
failed_delete id e (ok true) = err (error not_found (already_deleted id))
failed_delete id e _ = err e

unfoldable pub proto_key_spec : ApiKeySpec → ℕ → ProtoKeySpec
proto_key_spec spec expiry = record {
  owner_id = spec.service_account_id;
  owner_type = ProtoOwner.service_account;
  display_name = spec.display_name;
  description = spec.description;
  expiry_time = expiry;
}

module _ (show_role : Role → String) (show_permission : Permission → String) where
  unfoldable pub account_of : String → Option ProtoAccount → Result ServiceAccount
  account_of id none = err (error not_found (no_service_account id))
  account_of id (some sa) = ok (record {
    id = sa.id;
    resource_version = sa.resource_version;
    spec = spec_from_proto show_role show_permission sa.spec;
  })

  -- The inner loop of FindServiceAccountByName over one page.
  unfoldable pub find_in_page : String → List ProtoAccount → Option ServiceAccount
  find_in_page name [] = none
  find_in_page name (sa ∷ rest) =
      if sa.spec.name == name
      then some (record {
        id = sa.id;
        resource_version = sa.resource_version;
        spec = spec_from_proto show_role show_permission sa.spec;
      })
      else find_in_page name rest

module _ {W : Type 0} (svc : CloudService W) where
  unfoldable pub settle_account : Context → CreatedAccount → W → Created String × W
  settle_account ctx made w =
      let (r, w') =
        (await_operation svc ctx made.operation >> confirm_service_account_exists svc ctx made.id)
          w in
      (confirmed made.id r, w')

  unfoldable pub created_account : Context → Reply CreatedAccount × W → Created String × W
  created_account ctx (fault e, w) = (not_created (map_grpc_error e), w)
  created_account ctx (answer made, w) = settle_account ctx made w

  unfoldable pub send_account : Context → Result ProtoSpec → W → Created String × W
  send_account ctx (err e) w = (not_created e, w)
  send_account ctx (ok spec) w = created_account ctx (svc.create_service_account ctx spec w)

  unfoldable pub create_service_account : Context → ServiceAccountSpec → W → Created String × W
  unfolding send_account created_account settle_account
  create_service_account ctx spec w = send_account ctx (to_proto spec) w

  unfoldable pub settle_key : Context → CreatedKey → W → Created ApiKey × W
  settle_key ctx made w =
      let (r, w') =
        (await_operation svc ctx made.operation >> confirm_api_key_exists svc ctx made.id) w in
      (confirmed (record { id = made.id; token = made.token }) r, w')

  unfoldable pub created_key : Context → Reply CreatedKey × W → Created ApiKey × W
  created_key ctx (fault e, w) = (not_created (map_grpc_error e), w)
  created_key ctx (answer made, w) = settle_key ctx made w

  unfoldable pub send_key : Context → ApiKeySpec → Option ℕ → W → Created ApiKey × W
  send_key ctx spec none w = (not_created (error invalid_argument expiry_required), w)
  send_key ctx spec (some expiry) w =
      created_key ctx (svc.create_api_key ctx (proto_key_spec spec expiry) w)

  unfoldable pub create_api_key : Context → ApiKeySpec → W → Created ApiKey × W
  unfolding send_key created_key settle_key proto_key_spec
  create_api_key ctx spec w = send_key ctx spec spec.expiry_time w

  unfoldable pub get_api_key : Context → String → Exec W ApiKeyMetadata
  unfolding metadata_of metadata_of_spec owner_type_of
  get_api_key ctx id = do key ← call (svc.get_api_key ctx id); lift (metadata_of id key)

  -- The end of DeleteAPIKey, once the wait for the operation has returned.
  unfoldable pub settle_delete : Context → String → Result (Unit {0}) → Exec W (Unit {0})
  settle_delete ctx id (err e) w =
      let (gone, w') = api_key_gone svc id ctx w in (failed_delete id e gone, w')
  settle_delete ctx id (ok _) w = confirm_api_key_gone svc ctx id w

  unfoldable pub delete_api_key : Context → String → Exec W (Unit {0})
  unfolding settle_delete failed_delete version_of
  delete_api_key ctx id = do
    got ← call (svc.get_api_key ctx id)
    op ← call (svc.delete_api_key ctx id (version_of got))
    waited ← try (await_operation svc ctx op)
    settle_delete ctx id waited

  -- The loop of CountAPIKeys. The fuel bounds the pages; the code reads on while tokens advance.
  unfoldable pub count_pages : ℕ → Context → String → ℕ → String → Exec W ℕ
  count_pages zero ctx id count page_token = raise (error other out_of_fuel)
  count_pages (suc fuel) ctx id count page_token = do
    page ← call (svc.get_api_keys ctx id page_token)
    let total = count + length page.items
    let rest = count_pages fuel ctx id total page.next_token
    if is_empty page.next_token
        then pure total
        else if page.next_token == page_token
        then raise (error unavailable page_token_stuck)
        else rest

  unfoldable pub count_api_keys : ℕ → Context → String → Exec W ℕ
  unfolding count_pages
  count_api_keys fuel ctx id = count_pages fuel ctx id 0 ""

module _ {W : Type 0} (svc : CloudService W) (show_role : Role → String)
    (show_permission : Permission → String) where
  unfoldable pub get_service_account : Context → String → Exec W ServiceAccount
  unfolding account_of
  get_service_account ctx id = do
    sa ← call (svc.get_service_account ctx id)
    lift (account_of show_role show_permission id sa)

  unfoldable pub update_service_account : Context → String → ServiceAccountSpec → Exec W (Unit {0})
  unfolding get_service_account
  update_service_account ctx id spec = do
    proto ← lift (to_proto spec)
    current ← get_service_account ctx id
    op ← call (svc.update_service_account ctx id proto current.resource_version)
    await_operation svc ctx op

  unfoldable pub delete_service_account : Context → String → Exec W (Unit {0})
  unfolding get_service_account
  delete_service_account ctx id = do
    current ← get_service_account ctx id
    op ← call (svc.delete_service_account ctx id current.resource_version)
    await_operation svc ctx op
    confirm_service_account_gone svc ctx id

  -- The loop of FindServiceAccountByName, on fuel as `count_pages`.
  unfoldable pub find_pages : ℕ → Context → String → String → Exec W ServiceAccount
  find_pages zero ctx name page_token = raise (error other out_of_fuel)
  find_pages (suc fuel) ctx name page_token = do
    page ← call (svc.get_service_accounts ctx page_token)
    let rest = find_pages fuel ctx name page.next_token
    elim (find_in_page show_role show_permission name page.items) [
      | some sa ↦ pure sa
      | none ↦
          if is_empty page.next_token
          then raise (error not_found (no_account_named name))
          else if page.next_token == page_token
          then raise (error unavailable page_token_stuck)
          else rest
    ]

  unfoldable pub find_service_account_by_name : ℕ → Context → String → Exec W ServiceAccount
  unfolding find_pages
  find_service_account_by_name fuel ctx name = find_pages fuel ctx name ""

-- The interface that the engine uses, over the services that configurations select.
module _ {W : Type 0} (dial : ClientConfig → CloudService W) (show_role : Role → String)
    (show_permission : Permission → String) (fuel : ℕ) where
  unfoldable pub grpc_client : CloudOps W
  grpc_client = record {
    create_service_account = λ cfg. create_service_account (dial cfg);
    get_service_account = λ cfg. get_service_account (dial cfg) show_role show_permission;
    update_service_account = λ cfg. update_service_account (dial cfg) show_role show_permission;
    delete_service_account = λ cfg. delete_service_account (dial cfg) show_role show_permission;
    find_service_account_by_name =
        λ cfg. find_service_account_by_name (dial cfg) show_role show_permission fuel;
    create_api_key = λ cfg. create_api_key (dial cfg);
    get_api_key = λ cfg. get_api_key (dial cfg);
    delete_api_key = λ cfg. delete_api_key (dial cfg);
    count_api_keys = λ cfg. count_api_keys (dial cfg) fuel;
  }
