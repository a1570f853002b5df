-- ===== src/Backend/Policy/Checks.antt =====
-- The TTL policy of an entry and the lifetime of the keys issued under it.
use vault_plugin_secrets_tem.Prelude.{ℕ, ◌+◌, ◌≤◌, ◌<◌, ◌≡◌, arith}
use vault_plugin_secrets_tem.Prelude.Int.{pos, pos_part, half_range}
use vault_plugin_secrets_tem.Client.{max_api_key_expiry, min_api_key_expiry}
use vault_plugin_secrets_tem.Backend.Entries.{api_key_expiry_grace}
use vault_plugin_secrets_tem.Backend.Handler.{done}
use vault_plugin_secrets_tem.Backend.Policy.{ttl_checks}
use vault_plugin_secrets_tem.Backend.Creds.{key_lifetime}

-- TTLs that are accepted, where max_ttl and the grace stay within an int64: ttl is at most max_ttl,
-- and the lifetime of a key covers max_ttl and the grace, is at least the shortest that Temporal
-- Cloud takes with the grace, and is at most the longest.
pub accepted-key_lifetime :
    (ttl max_ttl : ℕ)
    → max_ttl + api_key_expiry_grace < half_range
    → ttl_checks (pos ttl) (pos max_ttl) ≡ done tt
    → (ttl ≤ max_ttl)
      × (max_ttl + api_key_expiry_grace ≤ pos_part (key_lifetime (pos max_ttl)))
      × (min_api_key_expiry + api_key_expiry_grace ≤ pos_part (key_lifetime (pos max_ttl)))
      × (pos_part (key_lifetime (pos max_ttl)) ≤ max_api_key_expiry)
unfolding ttl_checks key_lifetime
accepted-key_lifetime ttl max_ttl small h = ground arith

-- TTLs for which max_ttl and the grace pass the range of an int64 are accepted, and the keys issued
-- under them live for the shortest lifetime, which is shorter than max_ttl.
pub overflow-key_lifetime :
    (ttl max_ttl : ℕ)
    → ttl ≤ max_ttl
    → max_ttl < half_range
    → half_range ≤ max_ttl + api_key_expiry_grace
    → (ttl_checks (pos ttl) (pos max_ttl) ≡ done tt)
      × (key_lifetime (pos max_ttl) ≡ pos (min_api_key_expiry + api_key_expiry_grace))
      × (min_api_key_expiry + api_key_expiry_grace < max_ttl)
unfolding ttl_checks key_lifetime
overflow-key_lifetime ttl max_ttl le small over = ground arith
