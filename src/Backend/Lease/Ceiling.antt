-- ===== src/Backend/Lease/Ceiling.antt =====
-- The ceiling of a renewed lease against the expiry of its key (renewalCeiling).
use vault_plugin_secrets_tem.Prelude.{ℕ, ◌+◌, ◌≤◌, ◌<◌, ◌≡◌, Option, some, arith}
use vault_plugin_secrets_tem.Prelude.Int.{ℤ, pos, pos_part, neg_part, half_range}
use vault_plugin_secrets_tem.Exec.{Result, ok, err}
use vault_plugin_secrets_tem.Backend.Entries.{Lease, api_key_expiry_grace}
use vault_plugin_secrets_tem.Backend.Lease.{
  ceiling_for, ceiling_at, window, start_of, issue_time_of,
}

-- A ceiling that is granted, for a key that expires at a known time and a max_ttl that is not
-- negative, is at most max_ttl, and with the grace it ends by the key's expiry, counted from the
-- lease's start.
pub ceiling_for-bounded :
    (lease : Option Lease) (now m expiry : ℕ) (r : ℤ)
    → ceiling_for lease now (pos m) (some expiry) ≡ ok r
    → (neg_part r ≡ 0)
      × (pos_part r ≤ m)
      × (start_of (issue_time_of lease) now + api_key_expiry_grace + pos_part r ≤ expiry)
unfolding ceiling_for ceiling_at window
ceiling_for-bounded lease now m expiry r h = ground arith

-- The length of the ceiling, 0 where the renewal is refused.
abbrev pub granted : Result ℤ → ℕ
granted (ok r) = pos_part r
granted (err e) = 0

-- Nothing shorter is granted than could be: a positive duration within max_ttl that ends, with the
-- grace, by the key's expiry is within the ceiling of a renewal that is not refused, for an expiry that an int64 holds.
pub ceiling_for-greatest :
    (lease : Option Lease) (now m expiry k : ℕ)
    → expiry < half_range
    → 0 < k
    → k ≤ m
    → start_of (issue_time_of lease) now + api_key_expiry_grace + k ≤ expiry
    → k ≤ granted (ceiling_for lease now (pos m) (some expiry))
unfolding ceiling_for ceiling_at window
ceiling_for-greatest lease now m expiry k small positive within fits = ground arith
