-- ===== src/Backend/Handles.antt =====
-- clientHandle of backend.go: a cached Cloud Ops client with a count of the requests that use it.
-- `cells` holds every handle made, by its index; `current` is backend.handle. What runs under one
-- mutex is one step: the operations of a handle under its own, the end of getClient and the first half
-- of resetClient under clientMu. resetClient retires the handle after it has unlocked clientMu, so its
-- halves are two operations, and other requests may run between them.
pub mod Cells
pub mod Steps
pub mod Lifetime
use vault_plugin_secrets_tem.Prelude.{
  ℕ, zero, suc, ◌+◌, ◌-◌, Bool, true, false, not, ◌&&◌, ◌||◌, Option, none, some, List, [], ◌∷◌,
  ◌++◌, length, get_elem?, set, ltb, if◌then◌else◌,
}
use vault_plugin_secrets_tem.Client.{ClientConfig}

-- `refs` is 0 where Go's int could be negative only by a second release; `closes` counts the calls
-- of Close.
pub record ClientHandle : Type 0 where
  pub client : ClientConfig
  pub refs : ℕ
  pub retired : Bool
  pub closed : Bool
  pub closes : ℕ

pub record Handles : Type 0 where
  pub cells : List ClientHandle
  pub current : Option ℕ

unfoldable pub new_handle : ClientConfig → ClientHandle
new_handle c = record { client = c; refs = 0; retired = false; closed = false; closes = 0 }

-- closeIfIdle
unfoldable pub close_if_idle : ClientHandle → ClientHandle
close_if_idle h =
    if not h.retired || ltb 0 h.refs || h.closed
    then h
    else record h { closed = true; closes = h.closes + 1 }

unfoldable pub acquire : ClientHandle → ClientHandle
acquire h = record h { refs = h.refs + 1 }

unfoldable pub release : ClientHandle → ClientHandle
unfolding close_if_idle
release h = close_if_idle (record h { refs = h.refs - 1 })

unfoldable pub retire : ClientHandle → ClientHandle
unfolding close_if_idle
retire h = close_if_idle (record h { retired = true })

unfoldable pub update : (ClientHandle → ClientHandle) → ℕ → List ClientHandle → List ClientHandle
update f i [] = []
update f zero (h ∷ hs) = f h ∷ hs
update f (suc i) (h ∷ hs) = h ∷ update f i hs

-- A handle that is there is acquired.
unfoldable pub acquire_at : ℕ → Handles → Handles
unfolding update acquire
acquire_at i s = record s { cells = update acquire i s.cells }

unfoldable pub release_at : ℕ → Handles → Handles
unfolding update release
release_at i s = record s { cells = update release i s.cells }

-- The end of getClient, where no handle was cached: a new one becomes the current one, acquired.
unfoldable pub install : ClientConfig → Handles → Handles
unfolding acquire new_handle
install c s = record {
  cells = s.cells ++ acquire (new_handle c) ∷ [];
  current = some (length s.cells);
}

-- resetClient up to its Unlock: the handle is no longer the backend's.
unfoldable pub drop_current : Handles → Handles
drop_current s = record s { current = none }

-- The rest of resetClient, for the handle that it dropped.
unfoldable pub retire_at : ℕ → Handles → Handles
unfolding update retire
retire_at i s = record s { cells = update retire i s.cells }

unfoldable pub retire_dropped : Option ℕ → Handles → Handles
unfolding retire_at
retire_dropped none s = s
retire_dropped (some i) s = retire_at i s

-- resetClient as a whole, where nothing runs between its halves.
unfoldable pub reset_client : Handles → Handles
unfolding drop_current retire_dropped
reset_client s = retire_dropped s.current (drop_current s)
