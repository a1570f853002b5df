-- ===== src/Backend/World.antt =====
-- The surroundings of the engine as its handlers meet them: Vault's storage, JSON, the clock, the
-- Cloud Ops clients and the namespace probe are the parameter `Env`; each call that changes
-- something outside is noted in the trace of the state, newest first.
pub mod Trace
use vault_plugin_secrets_tem.Prelude.{
  ◌==◌, if◌then◌else◌, ℕ, String, Option, none, some, List, ◌∷◌, get_elem?, length,
}
use vault_plugin_secrets_tem.Prelude.Int.{ℤ}
use vault_plugin_secrets_tem.Exec.{Result, ok, err, Exec, Context}
use vault_plugin_secrets_tem.Client.{
  ClientConfig, ServiceAccountSpec, ApiKeySpec, ApiKey, Created, CloudOps,
}
use vault_plugin_secrets_tem.Client.Errors.{error, other, not_configured}
use vault_plugin_secrets_tem.Client.Token.{TokenCodec}
use vault_plugin_secrets_tem.Backend.Entries.{
  Config, ProbeConfig, ServiceAccountEntry, config_storage_path,
}
use vault_plugin_secrets_tem.Backend.Handler.{
  Handler, Outcome, done, failed, ◌>>=◌, ◌>>◌, fail, lift, or_fail,
}
use vault_plugin_secrets_tem.Backend.Handles.{
  ClientHandle, Handles, acquire_at, release_at, install, reset_client,
}

-- A stored type's JSON: StorageEntryJSON and DecodeJSON.
pub record Codec (A : Type 0) : Type 0 where
  pub encode : A → Result String
  pub decode : String → Result A

pub record Env (W : Type 0) : Type 0 where
  pub storage_get : String → Exec W (Option String)
  pub storage_put : String → String → Exec W (Unit {0})
  pub storage_delete : String → Exec W (Unit {0})
  pub storage_list : String → Exec W (List String)
  pub account_codec : Codec ServiceAccountEntry
  pub config_codec : Codec Config
  pub probe_codec : Codec ProbeConfig
  pub token_codec : TokenCodec
  pub now : W → ℕ
  pub random_suffix : W → Option String × W
  pub format_time : ℕ → String
  pub parse_time : String → Option ℕ
  pub parse_duration : String → Option ℤ
  -- backend.newClient: a client is named by the configuration that it was built from.
  pub new_client : ClientConfig → Exec W (Unit {0})
  pub cloud : CloudOps W
  -- backend.probeNamespace, with its interval and its consecutive successes.
  pub probe_namespace : Context → String → String → ProbeConfig → Exec W (Unit {0})

-- A call that changes something outside, and its result.
pub data Event : Type 0 where
  stored : String → String → Result (Unit {0}) → Event
  removed : String → Result (Unit {0}) → Event
  account_created : ClientConfig → ServiceAccountSpec → Created String → Event
  account_updated : ClientConfig → String → ServiceAccountSpec → Result (Unit {0}) → Event
  account_deleted : ClientConfig → String → Result (Unit {0}) → Event
  key_created : ClientConfig → ApiKeySpec → Created ApiKey → Event
  key_deleted : ClientConfig → String → Result (Unit {0}) → Event

pub record State (W : Type 0) : Type 0 where
  pub world : W
  pub handles : Handles
  pub trace : List Event

module _ {W : Type 0} where
  -- A call that changes nothing outside.
  abbrev pub ask : {A : Type 0} → Exec W A → Handler (State W) (Result A)
  ask m s = let (r, w) = m s.world in (done r, record s { world = w })

  -- A call that is noted.
  abbrev pub note : {A : Type 0} → (A → Event) → (W → A × W) → Handler (State W) A
  note event m s =
      let (r, w) = m s.world in (done r, record s { world = w; trace = event r ∷ s.trace })

  abbrev pub get_time : Env W → Handler (State W) ℕ
  get_time env s = (done (env.now s.world), s)

  abbrev pub drop_client : Handler (State W) (Unit {0})
  drop_client s = (done tt, record s { handles = reset_client s.handles })

unfoldable pub decoded : {A : Type 0} → Result A → Outcome (Option A)
decoded (ok a) = done (some a)
decoded (err e) = failed e

unfoldable pub decode_or_none : {A : Type 0} → Codec A → Option String → Outcome (Option A)
unfolding decoded
decode_or_none codec none = done none
decode_or_none codec (some raw) = decoded (codec.decode raw)

module _ {W : Type 0} (env : Env W) where
  -- A stored value, `none` where nothing is stored: the shape of getConfig and getServiceAccount.
  unfoldable pub load : {A : Type 0} → Codec A → String → Handler (State W) (Option A)
  unfolding decode_or_none
  load codec key = do
    got ← ask (env.storage_get key)
    raw ← lift (or_fail got)
    lift (decode_or_none codec raw)

  unfoldable pub get_config : Handler (State W) (Option Config)
  unfolding load
  get_config = load env.config_codec config_storage_path

  -- The storing of a value under a key, with its JSON.
  unfoldable pub store : {A : Type 0} → Codec A → String → A → Handler (State W) (Result (Unit {0}))
  store codec key a = do
    raw ← lift (or_fail (codec.encode a))
    note (stored key raw) (env.storage_put key raw)

-- config.clientConfig
abbrev pub client_config : Config → ClientConfig
client_config c = record { api_key = c.api_key; host_port = c.address }

cell_at : Option ℕ → List ClientHandle → Option (ℕ × ClientHandle)
cell_at none cells = none
cell_at (some i) cells = elim (get_elem? cells i) [ none ↦ none | some h ↦ some (i, h) ]

-- backend.handle, with its index.
unfoldable pub cached : Handles → Option (ℕ × ClientHandle)
unfolding cell_at
cached hs = cell_at hs.current hs.cells

module _ {W : Type 0} (env : Env W) where
  installed : ClientConfig → Handler (State W) (ℕ × ClientConfig)
  installed c s = (done (length s.handles.cells, c), record s { handles = install c s.handles })

  -- The end of getClient, where no client is cached.
  build_client : Option Config → Handler (State W) (ℕ × ClientConfig)
  unfolding installed
  build_client none = fail (error other not_configured)
  build_client (some cfg) = do
    made ← ask (env.new_client (client_config cfg))
    lift (or_fail made)
    installed (client_config cfg)

  share_or_build : Option (ℕ × ClientHandle) → Handler (State W) (ℕ × ClientConfig)
  unfolding build_client get_config
  share_or_build (some (i, h)) s =
      (done (i, h.client), record s { handles = acquire_at i s.handles })
  share_or_build none s = (get_config env >>= build_client) s

  -- getClient: the index of the handle that the caller must release, and its client.
  unfoldable pub get_client : Handler (State W) (ℕ × ClientConfig)
  unfolding share_or_build cached
  get_client s = share_or_build (cached s.handles) s

  -- `c, release, err := b.getClient(...)`, `defer release()`: whatever the rest gives, the handle is
  -- released after it.
  unfoldable pub with_client :
      {A : Type 0} → (ClientConfig → Handler (State W) A) → Handler (State W) A
  unfolding get_client
  with_client body = do
    (i, c) ← get_client
    λ s. let (r, s') = body c s in (r, record s' { handles = release_at i s'.handles })

-- backend.invalidate: the cached client is dropped when the stored configuration changes.
unfoldable pub invalidate : String → Handles → Handles
invalidate key handles = if key == config_storage_path then reset_client handles else handles

-- backend.clean
unfoldable pub clean : Handles → Handles
clean handles = reset_client handles
