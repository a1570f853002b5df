-- ===== src/Backend/Accounts/Write.antt =====
-- What a write to service-accounts/<name> does outside (pathServiceAccountWrite).
use Prim.Native.String.{◌++◌ as str_append}
use vault_plugin_secrets_tem.Prelude.{
  String, Bool, ◌≡◌, refl, ap, ◌⊎◌, inl, inr, true, false, not, Option, none, some, List, [], ◌∷◌,
  ◌++◌, arith,
}
use vault_plugin_secrets_tem.Prelude.Text.{is_empty}
use vault_plugin_secrets_tem.Exec.{Result, ok, err, Context}
use vault_plugin_secrets_tem.Client.{
  ClientConfig, ServiceAccount, Created, created, not_created, unconfirmed,
}
use vault_plugin_secrets_tem.Client.Errors.{Error, is_not_found}
use vault_plugin_secrets_tem.Backend.Entries.{ServiceAccountEntry, AccountRequest}
use vault_plugin_secrets_tem.Backend.Handler.{
  Outcome, Rejection, Handler, done, rejected, failed, ◌>>=◌, respond_cloud_err, name_taken,
  reject_if,
}
use vault_plugin_secrets_tem.Backend.World.{
  Env, State, Event, account_created, account_updated, account_deleted,
}
use vault_plugin_secrets_tem.Backend.World.Trace.{
  Post, Emits, OnFailure, OnFailure-map, Emits-noting, Emits-if, Emits-mono,
}
use vault_plugin_secrets_tem.Backend.Namespaces.{cloud_spec_changed}
use vault_plugin_secrets_tem.Backend.Creds.Issuance.{cloud_failure}
use vault_plugin_secrets_tem.Backend.Accounts.{
  spec_of, adopted, adopt, created_account, delete_account, create, looked_up, updated_known,
  update_known, bind_account,
}

-- The entry that a write stores over an entry that Vault knew: the requested one, of the same account.
abbrev pub rebound : ServiceAccountEntry → ServiceAccountEntry → ServiceAccountEntry
rebound old entry = record entry {
  service_account_id = old.service_account_id;
  adopted = old.adopted;
}

module _ {W : Type 0} (env : Env W) (ctx : Context) where
  -- What the search for the account's name answered, in some state of the world.
  abbrev pub Sought : ClientConfig → String → Result ServiceAccount → Type 0
  Sought c name answer =
      (w : W) × ((env.cloud.find_service_account_by_name c ctx name w).0 ≡ answer)

  -- The entry is bound to its service account. Over an entry that Vault knew it is the requested
  -- one with the known account, which was updated exactly if Temporal Cloud has to know of the
  -- change. Under a new name it is the requested one with the account that the search for the name
  -- found, which was adopted, by force, or, where the search found none, with one that this write
  -- created.
  abbrev pub Binds :
      ClientConfig
      → AccountRequest
      → Option ServiceAccountEntry
      → ServiceAccountEntry
      → ServiceAccountEntry
      → List Event
      → Type 0
  Binds c q (some old) entry bound events =
      (bound ≡ rebound old entry)
      × (((cloud_spec_changed old (rebound old entry) ≡ false) × (events ≡ []))
          ⊎ ((cloud_spec_changed old (rebound old entry) ≡ true)
              × (events
                  ≡ account_updated c old.service_account_id (spec_of q.name entry) (ok tt) ∷ [])))
  Binds c q none entry bound events =
      ((found : ServiceAccount) × Sought c q.name (ok found)
        × (q.force ≡ true)
        × (bound ≡ record entry { service_account_id = found.id; adopted = true })
        × (events ≡ account_updated c found.id (spec_of q.name entry) (ok tt) ∷ []))
      ⊎ ((e : Error) × Sought c q.name (err e)
          × (is_not_found e.kind ≡ true)
          × ((id : String) × (bound ≡ record entry { service_account_id = id })
              × (bound.adopted ≡ false)
              × (events ≡ account_created c (spec_of q.name entry) (created id) ∷ [])))

-- The entry is not bound: nothing was called, an update or a create failed, or a create gave an error
-- beside an account, which was deleted if it has an ID.
abbrev pub Unbound : ClientConfig → AccountRequest → ServiceAccountEntry → List Event → Type 0
Unbound c q entry events =
    (events ≡ [])
    ⊎ ((id : String) × (e : Error) × (events
          ≡ account_updated c id (spec_of q.name entry) (err e) ∷ []))
    ⊎ ((e : Error) × (events ≡ account_created c (spec_of q.name entry) (not_created e) ∷ []))
    ⊎ ((id : String) × (e : Error) × (is_empty id ≡ true)
        × (events ≡ account_created c (spec_of q.name entry) (unconfirmed id e) ∷ []))
    ⊎ ((id : String) × (e : Error) × (r : Result (Unit {0})) × (events
          ≡ account_deleted c id r
            ∷ account_created c (spec_of q.name entry) (unconfirmed id e)
            ∷ []))

module _ {W : Type 0} (env : Env W) (ctx : Context) where
  abbrev pub BindPost :
      ClientConfig
      → AccountRequest
      → Option ServiceAccountEntry
      → ServiceAccountEntry
      → Post ServiceAccountEntry
  BindPost c q existing entry (done bound) events = Binds env ctx c q existing entry bound events
  BindPost c q existing entry _ events = Unbound c q entry events

-- The result of an update decides alone.
abbrev Settles : ServiceAccountEntry → Result (Unit {0}) → Post ServiceAccountEntry
Settles bound (ok _) r events = (r ≡ done bound) × (events ≡ [])
Settles bound (err e) r events = OnFailure (λ l. l ≡ []) r events

-- What is done about an account that may be half-created.
abbrev pub Cleans : ClientConfig → String → List Event → Type 0
Cleans c id events =
    ((is_empty id ≡ true) × (events ≡ []))
    ⊎ ((r : Result (Unit {0})) × (events ≡ account_deleted c id r ∷ []))

-- What follows a create, for its result.
abbrev pub Follows : ClientConfig → ServiceAccountEntry → Created String → Post ServiceAccountEntry
Follows c entry (created id) r events =
    (r ≡ done (record entry { service_account_id = id })) × (events ≡ [])
Follows c entry (not_created e) r events = OnFailure (λ l. l ≡ []) r events
Follows c entry (unconfirmed id e) r events = OnFailure (Cleans c id) r events

-- What follows a guard runs only where the guard lets it.
past_guard :
    {W A : Type 0} (P : Post A) (b : Bool) (x : Rejection) (m : Handler (State W) A)
    → P (rejected x) []
    → ((b ≡ false) → Emits P m)
    → Emits P (reject_if b x >>= λ _. m)
past_guard P true x m refused rest = record { at = λ s. ([], refl, refused) }
past_guard P false x m refused rest = record { at = λ s. (rest refl).at s }

module _ {W : Type 0} (env : Env W) (ctx : Context) (c : ClientConfig) (q : AccountRequest) where
  update_binds :
      (existing : Option ServiceAccountEntry) (entry bound : ServiceAccountEntry)
      → Binds env ctx c q existing entry bound
          (account_updated c bound.service_account_id (spec_of q.name entry) (ok tt) ∷ [])
      → (a : Result (Unit {0})) (r : Outcome ServiceAccountEntry) (e : List Event)
      → Settles bound a r e
      → BindPost env ctx c q existing entry r
          (e ++ account_updated c bound.service_account_id (spec_of q.name entry) a ∷ [])
  update_binds existing entry bound good (ok _) r e h = rw (h.0, h.1) good
  update_binds existing entry bound good (err x) (done a) e h = absurd h
  update_binds existing entry bound good (err x) (rejected y) e h =
      rw h (inr (inl (bound.service_account_id, x, refl)))
  update_binds existing entry bound good (err x) (failed y) e h =
      rw h (inr (inl (bound.service_account_id, x, refl)))

  adopted-Settles :
      (entry : ServiceAccountEntry) (id : String) (a : Result (Unit {0}))
      → Emits
          (Settles (record entry { service_account_id = id; adopted = true }) a)
          (adopted env ctx q entry id a)
  unfolding adopted
  adopted-Settles entry id (ok _) = record { at = λ s. ([], refl, (refl, refl)) }
  adopted-Settles entry id (err e) =
      cloud_failure (λ l. l ≡ []) (str_append "adopting service account " q.name) e refl

  updated_known-Settles :
      (bound : ServiceAccountEntry) (a : Result (Unit {0}))
      → Emits (Settles bound a) (updated_known env ctx q bound a)
  unfolding updated_known
  updated_known-Settles bound (ok _) = record { at = λ s. ([], refl, (refl, refl)) }
  updated_known-Settles bound (err e) =
      cloud_failure (λ l. l ≡ []) (str_append "updating service account " q.name) e refl

  adopt-BindPost :
      (entry : ServiceAccountEntry) (found : ServiceAccount)
      → Sought env ctx c q.name (ok found)
      → Emits (BindPost env ctx c q none entry) (adopt env ctx c q entry found)
  unfolding adopt
  adopt-BindPost entry found sought =
      let adopting = record entry { service_account_id = found.id; adopted = true } in
      past_guard (BindPost env ctx c q none entry) (not q.force) (name_taken q.name found.id) _
        (inl refl)
        λ passed.
          Emits-noting (Settles adopting) (BindPost env ctx c q none entry)
            (account_updated c found.id (spec_of q.name entry))
            (env.cloud.update_service_account c ctx found.id (spec_of q.name entry))
            (adopted env ctx q entry found.id)
            (λ a r e h.
              let forced : q.force ≡ true = ground arith in
              update_binds none entry adopting (inl (found, sought, forced, refl, refl)) a r e h)
            (adopted-Settles entry found.id)

  Cleans-Unbound :
      (entry : ServiceAccountEntry) (id : String) (x : Error) (e : List Event)
      → Cleans c id e
      → Unbound c q entry (e ++ account_created c (spec_of q.name entry) (unconfirmed id x) ∷ [])
  Cleans-Unbound entry id x e (inl (nameless, h)) =
      rw h (inr (inr (inr (inl (id, x, nameless, refl)))))
  Cleans-Unbound entry id x e (inr (r, h)) = rw h (inr (inr (inr (inr (id, x, r, refl)))))

  create_binds :
      (entry : ServiceAccountEntry) (x : Error)
      → Sought env ctx c q.name (err x)
      → is_not_found x.kind ≡ true
      → entry.adopted ≡ false
      → (made : Created String) (r : Outcome ServiceAccountEntry) (e : List Event)
      → Follows c entry made r e
      → BindPost env ctx c q none entry r (e ++ account_created c (spec_of q.name entry) made ∷ [])
  create_binds entry e₀ sought free own (created id) r e h =
      rw (h.0, h.1) (inr (e₀, sought, free, (id, refl, own, refl)))
  create_binds entry e₀ sought free own (not_created x) (done a) e h = absurd h
  create_binds entry e₀ sought free own (not_created x) (rejected y) e h =
      rw h (inr (inr (inl (x, refl))))
  create_binds entry e₀ sought free own (not_created x) (failed y) e h =
      rw h (inr (inr (inl (x, refl))))
  create_binds entry e₀ sought free own (unconfirmed id x) (done a) e h = absurd h
  create_binds entry e₀ sought free own (unconfirmed id x) (rejected y) e h =
      Cleans-Unbound entry id x e h
  create_binds entry e₀ sought free own (unconfirmed id x) (failed y) e h =
      Cleans-Unbound entry id x e h

  cleaned :
      (id op : String) (e : Error)
      → Emits {A = ServiceAccountEntry}
          (OnFailure (Cleans c id))
          (delete_account env ctx c id >>= λ _. λ s. (respond_cloud_err op e, s))
  unfolding delete_account
  cleaned id op e =
      Emits-noting (λ _. OnFailure (λ l. l ≡ [])) (OnFailure (Cleans c id)) (account_deleted c id)
        (env.cloud.delete_service_account c ctx id) (λ _. λ s. (respond_cloud_err op e, s))
        (λ a r l h.
          OnFailure-map (λ l. l ≡ []) (Cleans c id) r l (l ++ account_deleted c id a ∷ [])
            (λ q. inr (a, ap (λ k. k ++ account_deleted c id a ∷ []) q)) h)
        λ _. cloud_failure (λ l. l ≡ []) op e refl

  created_account-Follows :
      (entry : ServiceAccountEntry) (made : Created String)
      → Emits (Follows c entry made) (created_account env ctx c q entry made)
  unfolding created_account
  created_account-Follows entry (created id) = record { at = λ s. ([], refl, (refl, refl)) }
  created_account-Follows entry (not_created e) =
      cloud_failure (λ l. l ≡ []) (str_append "creating service account " q.name) e refl
  created_account-Follows entry (unconfirmed id e) =
      let op = str_append "creating service account " q.name in
      Emits-if (OnFailure (Cleans c id)) (is_empty id) (λ s. (respond_cloud_err op e, s))
        (delete_account env ctx c id >>= λ _. λ s. (respond_cloud_err op e, s))
        (λ nameless. cloud_failure (Cleans c id) op e (inl (nameless, refl)))
        λ named. cleaned id op e

  create-BindPost :
      (entry : ServiceAccountEntry) (x : Error)
      → Sought env ctx c q.name (err x)
      → is_not_found x.kind ≡ true
      → entry.adopted ≡ false
      → Emits (BindPost env ctx c q none entry) (create env ctx c q entry)
  unfolding create
  create-BindPost entry x sought free own =
      Emits-noting (Follows c entry) (BindPost env ctx c q none entry)
        (account_created c (spec_of q.name entry))
        (env.cloud.create_service_account c ctx (spec_of q.name entry))
        (created_account env ctx c q entry) (create_binds entry x sought free own)
        (created_account-Follows entry)

  unbound_at :
      (entry : ServiceAccountEntry) (r : Outcome ServiceAccountEntry) (l : List Event)
      → OnFailure (λ k. k ≡ []) r l
      → BindPost env ctx c q none entry r l
  unbound_at entry (done a) l h = absurd h
  unbound_at entry (rejected x) l h = inl h
  unbound_at entry (failed x) l h = inl h

  failure_unbound :
      (op : String) (e : Error) (entry : ServiceAccountEntry)
      → Emits {W = W} (BindPost env ctx c q none entry) (λ s. (respond_cloud_err op e, s))
  failure_unbound op e entry =
      Emits-mono (OnFailure (λ l. l ≡ [])) (BindPost env ctx c q none entry)
        (λ s. (respond_cloud_err op e, s)) (λ r l h. unbound_at entry r l h)
        (cloud_failure (λ l. l ≡ []) op e refl)

  looked_up-BindPost :
      (entry : ServiceAccountEntry)
      → entry.adopted ≡ false
      → (found : Result ServiceAccount) → Sought env ctx c q.name found
      → Emits (BindPost env ctx c q none entry) (looked_up env ctx c q entry found)
  unfolding looked_up
  looked_up-BindPost entry own (ok found) sought = adopt-BindPost entry found sought
  looked_up-BindPost entry own (err e) sought =
      Emits-if (BindPost env ctx c q none entry) (is_not_found e.kind) _ _
        (λ free. create-BindPost entry e sought free own)
        λ unknown. failure_unbound (str_append "checking service account " q.name) e entry

  update_known-BindPost :
      (existing entry : ServiceAccountEntry)
      → Emits (BindPost env ctx c q (some existing) entry) (update_known env ctx c q existing entry)
  unfolding update_known
  update_known-BindPost existing entry =
      let bound = rebound existing entry in
      Emits-if (BindPost env ctx c q (some existing) entry) (cloud_spec_changed existing bound) _ _
        (λ changed.
          Emits-noting (Settles bound) (BindPost env ctx c q (some existing) entry)
            (account_updated c existing.service_account_id (spec_of q.name entry))
            (env.cloud.update_service_account c ctx existing.service_account_id
              (spec_of q.name entry))
            (updated_known env ctx q bound)
            (update_binds (some existing) entry bound (refl, inr (changed, refl)))
            (updated_known-Settles bound))
        λ same. record { at = λ s. ([], refl, (refl, inl (same, refl))) }

  pub bind_account-BindPost :
      (existing : Option ServiceAccountEntry) (entry : ServiceAccountEntry)
      → entry.adopted ≡ false
      → Emits (BindPost env ctx c q existing entry) (bind_account env ctx c q existing entry)
  unfolding bind_account
  bind_account-BindPost none entry own = record {
    at = λ s.
        let asked = env.cloud.find_service_account_by_name c ctx q.name s.world in
        (looked_up-BindPost entry own asked.0 (s.world, refl)).at (record s { world = asked.1 });
  }
  bind_account-BindPost (some existing) entry own = update_known-BindPost existing entry
