-- ===== src/Backend/Accounts/Outcome.antt =====
-- A write to service-accounts/<name> as a whole (pathServiceAccountWrite).
use vault_plugin_secrets_tem.Prelude.{String, ◌≡◌, ◌⊎◌, false, Option, List, [], ◌∷◌, ◌++◌}
use vault_plugin_secrets_tem.Exec.{ok, Context}
use vault_plugin_secrets_tem.Client.{ClientConfig}
use vault_plugin_secrets_tem.Backend.Entries.{ServiceAccountEntry, AccountRequest}
use vault_plugin_secrets_tem.Backend.Handler.{done, Warning}
use vault_plugin_secrets_tem.Backend.World.{Env, State, State, Event, stored}
use vault_plugin_secrets_tem.Backend.World.Trace.{Post}
use vault_plugin_secrets_tem.Backend.Accounts.{service_account_storage_path}
use vault_plugin_secrets_tem.Backend.Accounts.Write.{Binds, Unbound}
use vault_plugin_secrets_tem.Backend.Accounts.Persist.{PersistPost}

-- The entry of a request is not adopted, and is made with no call.
abbrev IsOwn : Post ServiceAccountEntry
IsOwn (done entry) events = (entry.adopted ≡ false) × (events ≡ [])
IsOwn _ events = events ≡ []

module _ {W : Type 0} (env : Env W) (ctx : Context) (q : AccountRequest) where
  -- What a write does outside, the newest call first. It ends with the put of the entry, which is
  -- bound to its account; or the entry was not bound; or it was bound and then not stored.
  abbrev pub WritePost :
      ClientConfig → Option ServiceAccountEntry → ServiceAccountEntry → Post (List Warning)
  WritePost c existing entry (done ws) events =
      (bound : ServiceAccountEntry) × (raw : String) × (before : List Event) × Binds env ctx c q
        existing entry bound before
      × (env.account_codec.encode bound ≡ ok raw)
      × (events ≡ stored (service_account_storage_path q.name) raw (ok tt) ∷ before)
  WritePost c existing entry r events =
      Unbound c q entry events
      ⊎ ((bound : ServiceAccountEntry) × (before last : List Event) × Binds env ctx c q existing
            entry bound before
          × PersistPost env ctx q c existing bound r last
          × (events ≡ last ++ before))

  -- A whole request, for the entry that was stored under the name and the entry that it asks for: a
  -- write with some client; or it ended before any call that changes anything.
  abbrev pub AccountPost : Option ServiceAccountEntry → ServiceAccountEntry → Post (List Warning)
  AccountPost existing entry (done ws) events =
      (c : ClientConfig) × WritePost c existing entry (done ws) events
  AccountPost existing entry r events =
      (events ≡ []) ⊎ ((c : ClientConfig) × WritePost c existing entry r events)
