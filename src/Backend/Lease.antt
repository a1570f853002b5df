-- ===== src/Backend/Lease.antt =====
-- Leases: renewal, its ceiling, and revocation (secret_api_key.go). A request may come with no lease.
pub mod Ceiling
pub mod Revocation
pub mod Gone
use vault_plugin_secrets_tem.Prelude.{
  ℕ, ◌+◌, String, Option, none, some, List, [], ◌∷◌, ◌==◌, if◌then◌else◌,
}
use vault_plugin_secrets_tem.Prelude.Int.{ℤ, pos, sub_ℕ, leb_ℤ, saturate64}
use vault_plugin_secrets_tem.Exec.{Result, ok, err, and_then, Context}
use vault_plugin_secrets_tem.Client.{ClientConfig}
use vault_plugin_secrets_tem.Client.Errors.{
  error, other, wrap, is_not_found, missing_lease, missing_internal, not_a_string, not_a_time,
  entry_gone, key_expired,
}
use vault_plugin_secrets_tem.Backend.Entries.{
  ServiceAccountEntry, Lease, Value, null, text, api_key_expiry_grace,
}
use vault_plugin_secrets_tem.Backend.Handler.{
  Outcome, done, failed, Handler, ◌>>=◌, pure, fail, lift, or_fail,
}
use vault_plugin_secrets_tem.Backend.World.{Env, State, get_time, with_client}
use vault_plugin_secrets_tem.Backend.Accounts.{get_service_account}
use vault_plugin_secrets_tem.Backend.Creds.{delete_key}

unfoldable pub internal_value : String → List (String × Value) → Option Value
internal_value field [] = none
internal_value field ((name, v) ∷ m) = if name == field then some v else internal_value field m

text_of : String → Option Value → Result String
text_of field none = err (error other (missing_internal field))
text_of field (some (text t)) = ok t
text_of field (some v) = err (error other (not_a_string field))

-- internalString
unfoldable pub internal_string : Option Lease → String → Result String
unfolding internal_value text_of
internal_string none field = err (error other missing_lease)
internal_string (some lease) field = text_of field (internal_value field lease.internal_data)

parsed_time : Option ℕ → Result (Option ℕ)
parsed_time none = err (error other (not_a_time "api_key_expires_at"))
parsed_time (some t) = ok (some t)

-- The expiry is recorded under its name: an absent or null field is the zero time.
recorded : (String → Option ℕ) → Option Value → Result (Option ℕ)
unfolding parsed_time
recorded parse none = ok none
recorded parse (some null) = ok none
recorded parse (some (text t)) = parsed_time (parse t)
recorded parse (some Value.other) = err (error other (not_a_string "api_key_expires_at"))

-- keyExpiry, with time.Parse for RFC 3339 as a parameter.
unfoldable pub key_expiry : (String → Option ℕ) → Option Lease → Result (Option ℕ)
unfolding recorded internal_value
key_expiry parse none = ok none
key_expiry parse (some lease) =
    recorded parse (internal_value "api_key_expires_at" lease.internal_data)

-- The window from the lease's start to the grace before the key's expiry, an int64 that saturates.
unfoldable pub window : ℕ → ℕ → ℤ
window expiry start = saturate64 (sub_ℕ expiry (api_key_expiry_grace + start))

unfoldable pub start_of : Option ℕ → ℕ → ℕ
start_of none now = now
start_of (some t) now = t

unfoldable pub issue_time_of : Option Lease → Option ℕ
issue_time_of none = none
issue_time_of (some lease) = lease.issue_time

ceiling_at : ℤ → ℕ → ℤ → Result ℤ
ceiling_at max_ttl expiry limit =
    if leb_ℤ max_ttl limit
    then ok max_ttl
    else if leb_ℤ limit (pos 0)
    then err (error other (key_expired expiry))
    else ok limit

-- The ceiling where the expiry is known.
unfoldable pub ceiling_for : Option Lease → ℕ → ℤ → Option ℕ → Result ℤ
unfolding window start_of issue_time_of ceiling_at
ceiling_for lease now max_ttl none = ok max_ttl
ceiling_for lease now max_ttl (some expiry) =
    ceiling_at max_ttl expiry (window expiry (start_of (issue_time_of lease) now))

-- renewalCeiling at the time `now`.
unfoldable pub renewal_ceiling : (String → Option ℕ) → ℕ → Option Lease → ℤ → Result ℤ
unfolding key_expiry ceiling_for
renewal_ceiling parse now lease max_ttl =
    and_then (key_expiry parse lease) (ceiling_for lease now max_ttl)

abbrev renewed : Option Lease → ℤ → ℤ → Option Lease
renewed none ttl max_ttl = none
renewed (some lease) ttl max_ttl = some (record lease { ttl = ttl; max_ttl = max_ttl })

module _ {W : Type 0} (env : Env W) (ctx : Context) where
  entry_or_gone : String → Option ServiceAccountEntry → Handler (State W) ServiceAccountEntry
  entry_or_gone name none = fail (error other (entry_gone name))
  entry_or_gone name (some entry) = pure entry

  -- secretAPIKeyRenew: the lease with its new TTLs.
  unfoldable pub secret_api_key_renew : Option Lease → Handler (State W) (Option Lease)
  unfolding get_service_account entry_or_gone renewal_ceiling
  secret_api_key_renew lease = do
    name ← lift (or_fail (internal_string lease "service_account_name"))
    existing ← get_service_account env ctx name
    entry ← entry_or_gone name existing
    now ← get_time env
    max_ttl ← lift (or_fail (renewal_ceiling env.parse_time now lease entry.max_ttl))
    pure (renewed lease entry.ttl max_ttl)

  unfoldable pub revoked : String → Result (Unit {0}) → Outcome (Unit {0})
  revoked id (ok _) = done tt
  revoked id (err e) = if is_not_found e.kind then done tt else failed (wrap "deleting API key" e)

  unfoldable pub revoke_with : String → ClientConfig → Handler (State W) (Unit {0})
  unfolding delete_key revoked
  revoke_with id c = do deleted ← delete_key env ctx c id; lift (revoked id deleted)

  -- secretAPIKeyRevoke
  unfoldable pub secret_api_key_revoke : Option Lease → Handler (State W) (Unit {0})
  unfolding with_client revoke_with internal_string
  secret_api_key_revoke lease = do
    id ← lift (or_fail (internal_string lease "api_key_id"))
    with_client env (revoke_with id)
