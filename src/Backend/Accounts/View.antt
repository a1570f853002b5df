-- ===== src/Backend/Accounts/View.antt =====
-- The reads of service-accounts/<name>, pathServiceAccountRead and serviceAccountExists of
-- path_service_accounts.go.
use vault_plugin_secrets_tem.Prelude.{String, Bool, Option, none, some, List, is_some}
use vault_plugin_secrets_tem.Prelude.Int.{ℤ, whole_seconds}
use vault_plugin_secrets_tem.Prelude.Text.{sort_texts}
use vault_plugin_secrets_tem.Exec.{Context}
use vault_plugin_secrets_tem.Backend.Entries.{ServiceAccountEntry}
use vault_plugin_secrets_tem.Backend.Handler.{Handler, ◌>>=◌, pure}
use vault_plugin_secrets_tem.Backend.World.{Env, State}
use vault_plugin_secrets_tem.Backend.Namespaces.{render_access}
use vault_plugin_secrets_tem.Backend.Accounts.{get_service_account}

-- What a read of service-accounts/<name> returns.
pub record AccountView : Type 0 where
  pub service_account_id : String
  pub account_role : String
  pub namespace_access : List String
  pub description : String
  pub ttl : ℤ
  pub max_ttl : ℤ
  pub adopted : Bool
  pub verify_propagation : Bool

abbrev pub view_of : ServiceAccountEntry → AccountView
view_of e = record {
  service_account_id = e.service_account_id;
  account_role = e.account_role;
  namespace_access = sort_texts (render_access e.namespace_access);
  description = e.description;
  ttl = whole_seconds e.ttl;
  max_ttl = whole_seconds e.max_ttl;
  adopted = e.adopted;
  verify_propagation = e.verify_propagation;
}

viewed : Option ServiceAccountEntry → Option AccountView
viewed none = none
viewed (some entry) = some (view_of entry)

module _ {W : Type 0} (env : Env W) (ctx : Context) where
  -- serviceAccountExists
  unfoldable pub service_account_exists : String → Handler (State W) Bool
  unfolding get_service_account
  service_account_exists name = do entry ← get_service_account env ctx name; pure (is_some entry)

  -- pathServiceAccountRead
  unfoldable pub path_service_account_read : String → Handler (State W) (Option AccountView)
  unfolding get_service_account viewed
  path_service_account_read name = do entry ← get_service_account env ctx name; pure (viewed entry)
