-- ===== src/Backend/Accounts/Persist.antt =====
-- What a write to service-accounts/<name> leaves when it ends (pathServiceAccountWrite): the entry
-- is stored last, and an account that was created is deleted again where the entry is not stored.
use Prim.Native.String.{◌++◌ as str_append}
use vault_plugin_secrets_tem.Prelude.{
  String, ◌≡◌, refl, ◌⊎◌, inl, inr, Bool, true, false, not, Option, none, some, List, [], ◌∷◌, ◌++◌,
}
use vault_plugin_secrets_tem.Exec.{Result, ok, err, Context}
use vault_plugin_secrets_tem.Client.{ClientConfig}
use vault_plugin_secrets_tem.Client.Errors.{Error, wrap}
use vault_plugin_secrets_tem.Backend.Entries.{ServiceAccountEntry, AccountRequest}
use vault_plugin_secrets_tem.Backend.Handler.{
  Outcome, done, rejected, failed, ◌>>=◌, Warning, fail, or_fail,
}
use vault_plugin_secrets_tem.Backend.World.{Env, Event, account_deleted, stored, note, store}
use vault_plugin_secrets_tem.Backend.World.Trace.{Post, Emits, Emits-noting, Emits-if}
use vault_plugin_secrets_tem.Backend.Accounts.{
  delete_account, compensate, persisted, persist, service_account_storage_path,
}

-- This write created the account that the entry is bound to.
abbrev pub is_created : Option ServiceAccountEntry → ServiceAccountEntry → Bool
is_created none entry = not entry.adopted
is_created (some existing) entry = false

-- The calls that take back a write whose put failed: the delete of an account that it created.
abbrev pub TakesBack :
    ClientConfig → Option ServiceAccountEntry → ServiceAccountEntry → List Event → Type 0
TakesBack c existing entry events =
    ((is_created existing entry ≡ false) × (events ≡ []))
    ⊎ ((is_created existing entry ≡ true)
        × ((r : Result (Unit {0})) × (events ≡ account_deleted c entry.service_account_id r ∷ [])))

module _ {W : Type 0} (env : Env W) (ctx : Context) (q : AccountRequest) where
  abbrev path : String
  path = service_account_storage_path q.name

  -- The end of a write, for the entry that is bound to its account.
  abbrev pub PersistPost :
      ClientConfig → Option ServiceAccountEntry → ServiceAccountEntry → Post (List Warning)
  PersistPost c existing entry (done ws) events =
      (raw : String) × (env.account_codec.encode entry ≡ ok raw)
      × (events ≡ stored path raw (ok tt) ∷ [])
  PersistPost c existing entry (rejected x) events = ⊥
  PersistPost c existing entry (failed x) events =
      ((e : Error) × (env.account_codec.encode entry ≡ err e) × (events ≡ []))
      ⊎ ((raw : String) × (e : Error) × (after : List Event) × (env.account_codec.encode entry
            ≡ ok raw)
          × TakesBack c existing entry after
          × (events ≡ after ++ stored path raw (err e) ∷ []))

  abbrev Compensates :
      ClientConfig → Option ServiceAccountEntry → ServiceAccountEntry → Post (List Warning)
  Compensates c existing entry (failed x) events = TakesBack c existing entry events
  Compensates c existing entry _ events = ⊥

  abbrev PutPost :
      ClientConfig
      → Option ServiceAccountEntry
      → ServiceAccountEntry
      → Result (Unit {0})
      → Post (List Warning)
  PutPost c existing entry (ok _) (done ws) events = events ≡ []
  PutPost c existing entry (ok _) _ events = ⊥
  PutPost c existing entry (err e) r events = Compensates c existing entry r events

  delete_and_fail :
      (c : ClientConfig) (existing : Option ServiceAccountEntry) (entry : ServiceAccountEntry)
      (x : Error)
      → is_created existing entry ≡ true
      → Emits
          (Compensates c existing entry)
          (delete_account env ctx c entry.service_account_id >>= λ _. λ s. (failed x, s))
  unfolding delete_account
  delete_and_fail c existing entry x own = record {
    at = λ s.
        let r = env.cloud.delete_service_account c ctx entry.service_account_id s.world in
        (account_deleted c entry.service_account_id r.0 ∷ [], refl, inr (own, (r.0, refl)));
  }

  compensate-Compensates :
      (c : ClientConfig) (existing : Option ServiceAccountEntry) (entry : ServiceAccountEntry)
      (e : Error)
      → Emits (Compensates c existing entry) (compensate env ctx c q existing entry e)
  unfolding compensate
  compensate-Compensates c none entry e =
      let x = wrap (str_append "storing service account " q.name) e in
      Emits-if (Compensates c none entry) entry.adopted (fail x)
        (delete_account env ctx c entry.service_account_id >>= λ _. λ s. (failed x, s))
        (λ kept. record { at = λ s. ([], refl, inl (rw kept refl, refl)) })
        λ own. delete_and_fail c none entry x (rw own refl)
  compensate-Compensates c (some existing) entry e = record {
    at = λ s. ([], refl, inl (refl, refl));
  }

  persisted-PutPost :
      (c : ClientConfig) (existing : Option ServiceAccountEntry) (entry : ServiceAccountEntry)
      (put : Result (Unit {0}))
      → Emits (PutPost c existing entry put) (persisted env ctx c q existing entry put)
  unfolding persisted
  persisted-PutPost c existing entry (ok _) = record { at = λ s. ([], refl, refl) }
  persisted-PutPost c existing entry (err e) = compensate-Compensates c existing entry e

  put_persists :
      (c : ClientConfig) (existing : Option ServiceAccountEntry) (entry : ServiceAccountEntry)
      (raw : String)
      → env.account_codec.encode entry ≡ ok raw
      → (put : Result (Unit {0})) (r : Outcome (List Warning)) (e : List Event)
      → PutPost c existing entry put r e
      → PersistPost c existing entry r (e ++ stored path raw put ∷ [])
  put_persists c existing entry raw enc (ok _) (done ws) e h = rw h (raw, enc, refl)
  put_persists c existing entry raw enc (ok _) (rejected x) e h = absurd h
  put_persists c existing entry raw enc (ok _) (failed x) e h = absurd h
  put_persists c existing entry raw enc (err x) (done ws) e h = absurd h
  put_persists c existing entry raw enc (err x) (rejected y) e h = absurd h
  put_persists c existing entry raw enc (err x) (failed y) e h = inr (raw, x, e, enc, h, refl)

  encoded-PersistPost :
      (c : ClientConfig) (existing : Option ServiceAccountEntry) (entry : ServiceAccountEntry)
      (encoded : Result String)
      → env.account_codec.encode entry ≡ encoded
      → Emits (PersistPost c existing entry) (
          ((λ s. (or_fail encoded, s)) >>= λ raw. note (stored path raw) (env.storage_put path raw))
          >>= persisted env ctx c q existing entry)
  encoded-PersistPost c existing entry (ok raw) enc = record {
    at = λ s.
        (Emits-noting (PutPost c existing entry) (PersistPost c existing entry) (stored path raw)
            (env.storage_put path raw) (persisted env ctx c q existing entry)
            (put_persists c existing entry raw enc) (persisted-PutPost c existing entry)).at
          s;
  }
  encoded-PersistPost c existing entry (err e) enc = record {
    at = λ s. ([], refl, inl (e, enc, refl));
  }

  pub persist-PersistPost :
      (c : ClientConfig) (existing : Option ServiceAccountEntry) (entry : ServiceAccountEntry)
      → Emits (PersistPost c existing entry) (persist env ctx c q existing entry)
  unfolding persist store
  persist-PersistPost c existing entry = record {
    at = λ s. (encoded-PersistPost c existing entry (env.account_codec.encode entry) refl).at s;
  }
