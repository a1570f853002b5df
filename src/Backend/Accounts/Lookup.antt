-- ===== src/Backend/Accounts/Lookup.antt =====
-- The read of a stored entry changes nothing outside (getServiceAccount).
use vault_plugin_secrets_tem.Prelude.{String}
use vault_plugin_secrets_tem.Prelude.Text.{is_empty}
use vault_plugin_secrets_tem.Exec.{Context}
use vault_plugin_secrets_tem.Client.Errors.{error, other, empty_entry_name}
use vault_plugin_secrets_tem.Backend.Handler.{failed, fail}
use vault_plugin_secrets_tem.Backend.World.{Env, load}
use vault_plugin_secrets_tem.Backend.World.Trace.{Quiet, Emits, Emits-if, Emits-lift, Emits-load}
use vault_plugin_secrets_tem.Backend.Accounts.{get_service_account, service_account_storage_path}

module _ {W : Type 0} (env : Env W) (ctx : Context) where
  pub get_service_account-Quiet : (name : String) → Emits Quiet (get_service_account env ctx name)
  unfolding get_service_account
  get_service_account-Quiet name =
      Emits-if Quiet (is_empty name) (fail (error other empty_entry_name))
        (load env env.account_codec (service_account_storage_path name))
        (λ e. Emits-lift (failed (error other empty_entry_name)))
        λ e. Emits-load env env.account_codec (service_account_storage_path name)
