-- ===== src/Backend/Accounts.antt =====
-- The handlers of service-accounts/<name> in path_service_accounts.go. `requested_entry` of Policy
-- is the first half of the write.
pub mod Lookup
pub mod View
pub mod Write
pub mod Persist
pub mod Outcome
pub mod Delete
use Prim.Native.String.{◌++◌}
use vault_plugin_secrets_tem.Prelude.{
  String, true, not, Option, none, some, List, [], ◌∷◌, ◌==◌, if◌then◌else◌,
}
use vault_plugin_secrets_tem.Prelude.Text.{is_empty}
use vault_plugin_secrets_tem.Exec.{Result, ok, err, Context}
use vault_plugin_secrets_tem.Client.{
  ClientConfig, ServiceAccount, ServiceAccountSpec, Created, created, not_created, unconfirmed,
}
use vault_plugin_secrets_tem.Client.Errors.{
  Error, error, other, wrap, is_not_found, empty_entry_name,
}
use vault_plugin_secrets_tem.Backend.Entries.{
  ServiceAccountEntry, AccountRequest, service_account_storage_prefix,
}
use vault_plugin_secrets_tem.Backend.Handler.{
  Handler, ◌>>=◌, ◌>>◌, pure, fail, lift, reject_if, or_fail, respond_cloud_err, name_taken,
  Warning, owner_credentials, already_absent,
}
use vault_plugin_secrets_tem.Backend.World.{
  Env, State, ask, note, load, store, with_client, account_created, account_updated,
  account_deleted, removed,
}
use vault_plugin_secrets_tem.Backend.Namespaces.{cloud_spec_changed}
use vault_plugin_secrets_tem.Backend.Policy.{requested_entry}

-- serviceAccountStoragePath
abbrev pub service_account_storage_path : String → String
service_account_storage_path name = service_account_storage_prefix ++ name

abbrev pub spec_of : String → ServiceAccountEntry → ServiceAccountSpec
spec_of name e = record {
  name = name;
  description = e.description;
  account_role = e.account_role;
  namespace_access = e.namespace_access;
}

-- The warnings of a write that succeeded; no response at all is the empty list.
unfoldable pub write_warnings : String → List Warning
write_warnings role = if role == "owner" then owner_credentials ∷ [] else []

-- The warning of a delete whose service account was already gone.
abbrev absence_warnings : String → Result (Unit {0}) → List Warning
absence_warnings name (ok _) = []
absence_warnings name (err e) = already_absent name ∷ []

module _ {W : Type 0} (env : Env W) (ctx : Context) where
  -- getServiceAccount
  unfoldable pub get_service_account : String → Handler (State W) (Option ServiceAccountEntry)
  unfolding load
  get_service_account name =
      if is_empty name
      then fail (error other empty_entry_name)
      else load env env.account_codec (service_account_storage_path name)

  unfoldable pub delete_account : ClientConfig → String → Handler (State W) (Result (Unit {0}))
  delete_account c id = note (account_deleted c id) (env.cloud.delete_service_account c ctx id)

  adopted :
      AccountRequest
      → ServiceAccountEntry
      → String
      → Result (Unit {0})
      → Handler (State W) ServiceAccountEntry
  adopted q entry id (ok _) = pure (record entry { service_account_id = id; adopted = true })
  adopted q entry id (err e) = lift (respond_cloud_err ("adopting service account " ++ q.name) e)

  -- The lookup found the name taken: refuse, or adopt the account.
  adopt :
      ClientConfig
      → AccountRequest
      → ServiceAccountEntry
      → ServiceAccount
      → Handler (State W) ServiceAccountEntry
  unfolding adopted
  adopt c q entry found = do
    reject_if (not q.force) (name_taken q.name found.id)
    updated ←
        note (account_updated c found.id (spec_of q.name entry))
          (env.cloud.update_service_account c ctx found.id (spec_of q.name entry))
    adopted q entry found.id updated

  -- The result of the create: an account that may be left half-created is deleted.
  created_account :
      ClientConfig
      → AccountRequest
      → ServiceAccountEntry
      → Created String
      → Handler (State W) ServiceAccountEntry
  unfolding delete_account
  created_account c q entry (created id) = pure (record entry { service_account_id = id })
  created_account c q entry (not_created e) =
      lift (respond_cloud_err ("creating service account " ++ q.name) e)
  created_account c q entry (unconfirmed id e) =
      if is_empty id then lift (respond_cloud_err ("creating service account " ++ q.name) e) else do
        _ ← delete_account c id
        lift (respond_cloud_err ("creating service account " ++ q.name) e)

  create :
      ClientConfig → AccountRequest → ServiceAccountEntry → Handler (State W) ServiceAccountEntry
  unfolding created_account
  create c q entry = do
    made ←
        note (account_created c (spec_of q.name entry))
          (env.cloud.create_service_account c ctx (spec_of q.name entry))
    created_account c q entry made

  -- The switch on FindServiceAccountByName.
  looked_up :
      ClientConfig
      → AccountRequest
      → ServiceAccountEntry
      → Result ServiceAccount
      → Handler (State W) ServiceAccountEntry
  unfolding adopt create
  looked_up c q entry (ok found) = adopt c q entry found
  looked_up c q entry (err e) =
      if is_not_found e.kind
      then create c q entry
      else lift (respond_cloud_err ("checking service account " ++ q.name) e)

  updated_known :
      AccountRequest
      → ServiceAccountEntry
      → Result (Unit {0})
      → Handler (State W) ServiceAccountEntry
  updated_known q bound (ok _) = pure bound
  updated_known q bound (err e) = lift (respond_cloud_err ("updating service account " ++ q.name) e)

  update_known :
      ClientConfig
      → AccountRequest
      → ServiceAccountEntry
      → ServiceAccountEntry
      → Handler (State W) ServiceAccountEntry
  unfolding updated_known
  update_known c q existing entry =
      let bound = record entry {
        service_account_id = existing.service_account_id;
        adopted = existing.adopted;
      } in
      if cloud_spec_changed existing bound
      then (do
        updated ← note (account_updated c existing.service_account_id (spec_of q.name entry)) (
            env.cloud.update_service_account c ctx existing.service_account_id
              (spec_of q.name entry))
        updated_known q bound updated)
      else pure bound

  -- The switch on whether the entry exists: the entry bound to its service account.
  unfoldable pub bind_account :
      ClientConfig
      → AccountRequest
      → Option ServiceAccountEntry
      → ServiceAccountEntry
      → Handler (State W) ServiceAccountEntry
  unfolding looked_up update_known
  bind_account c q none entry = do
    found ← ask (env.cloud.find_service_account_by_name c ctx q.name)
    looked_up c q entry found
  bind_account c q (some existing) entry = update_known c q existing entry

  -- The entry could not be stored: a service account that this write created is deleted.
  compensate :
      ClientConfig
      → AccountRequest
      → Option ServiceAccountEntry
      → ServiceAccountEntry
      → Error
      → Handler (State W) (List Warning)
  unfolding delete_account
  compensate c q none entry e =
      if entry.adopted then fail (wrap ("storing service account " ++ q.name) e) else do
        _ ← delete_account c entry.service_account_id
        fail (wrap ("storing service account " ++ q.name) e)
  compensate c q (some existing) entry e = fail (wrap ("storing service account " ++ q.name) e)

  persisted :
      ClientConfig
      → AccountRequest
      → Option ServiceAccountEntry
      → ServiceAccountEntry
      → Result (Unit {0})
      → Handler (State W) (List Warning)
  unfolding compensate write_warnings
  persisted c q existing entry (ok _) = pure (write_warnings q.account_role)
  persisted c q existing entry (err e) = compensate c q existing entry e

  unfoldable pub persist :
      ClientConfig
      → AccountRequest
      → Option ServiceAccountEntry
      → ServiceAccountEntry
      → Handler (State W) (List Warning)
  unfolding store persisted
  persist c q existing entry = do
    stored ← store env env.account_codec (service_account_storage_path q.name) entry
    persisted c q existing entry stored

  -- pathServiceAccountWrite
  unfoldable pub path_service_account_write : AccountRequest → Handler (State W) (List Warning)
  unfolding get_service_account requested_entry with_client bind_account persist
  path_service_account_write q = do
    existing ← get_service_account q.name
    entry ← requested_entry existing q
    with_client env λ c. bind_account c q existing entry >>= persist c q existing

  -- The answer to the delete of the account: NotFound is as good as a success.
  absent_now : String → Result (Unit {0}) → Handler (State W) (Unit {0})
  absent_now name (ok _) = pure tt
  absent_now name (err e) =
      if is_not_found e.kind
      then pure tt
      else lift (respond_cloud_err ("deleting service account " ++ name) e)

  remove_entry : String → Result (Unit {0}) → Handler (State W) (List Warning)
  remove_entry name deleted = do
    gone ←
        note (removed (service_account_storage_path name))
          (env.storage_delete (service_account_storage_path name))
    lift (or_fail gone)
    pure (absence_warnings name deleted)

  delete_bound : String → ServiceAccountEntry → ClientConfig → Handler (State W) (List Warning)
  unfolding delete_account absent_now remove_entry
  delete_bound name entry c = do
    deleted ← delete_account c entry.service_account_id
    absent_now name deleted
    remove_entry name deleted

  unfoldable pub delete_entry :
      String → Option ServiceAccountEntry → Handler (State W) (List Warning)
  unfolding delete_bound with_client
  delete_entry name none = pure []
  delete_entry name (some entry) = with_client env (delete_bound name entry)

  -- pathServiceAccountDelete
  unfoldable pub path_service_account_delete : String → Handler (State W) (List Warning)
  unfolding get_service_account delete_entry
  path_service_account_delete name = get_service_account name >>= delete_entry name

  -- pathServiceAccountList
  unfoldable pub path_service_account_list : Handler (State W) (List String)
  path_service_account_list = do
    names ← ask (env.storage_list service_account_storage_prefix)
    lift (or_fail names)
