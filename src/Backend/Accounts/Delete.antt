-- ===== src/Backend/Accounts/Delete.antt =====
-- What a delete of service-accounts/<name> does outside (pathServiceAccountDelete).
use Prim.Native.String.{◌++◌ as str_append}
use vault_plugin_secrets_tem.Prelude.{
  String, ◌≡◌, refl, ◌⊎◌, inl, inr, Bool, true, false, some, List, [], ◌∷◌, ◌++◌, if◌then◌else◌,
}
use vault_plugin_secrets_tem.Exec.{Result, ok, err, Context}
use vault_plugin_secrets_tem.Client.{ClientConfig}
use vault_plugin_secrets_tem.Client.Errors.{Error, is_not_found}
use vault_plugin_secrets_tem.Backend.Entries.{ServiceAccountEntry}
use vault_plugin_secrets_tem.Backend.Handler.{
  Outcome, done, rejected, failed, ◌>>=◌, Warning, respond_cloud_err, or_fail,
}
use vault_plugin_secrets_tem.Backend.World.{Env, State, Event, account_deleted, removed}
use vault_plugin_secrets_tem.Backend.World.Trace.{
  EmitsFrom, EmitsFrom-known, Post, OnFailure, Emits, Emits-bind, Emits-noting, Emits-with_client,
  Emits-mono,
}
use vault_plugin_secrets_tem.Backend.Creds.Issuance.{cloud_failure}
use vault_plugin_secrets_tem.Backend.Lease.Revocation.{IsGone, IsKept}
use vault_plugin_secrets_tem.Backend.Accounts.Lookup.{get_service_account-Quiet}
use vault_plugin_secrets_tem.Backend.Accounts.{
  get_service_account, path_service_account_delete, delete_account, absent_now, remove_entry,
  absence_warnings, delete_bound, delete_entry, get_service_account, path_service_account_delete,
  service_account_storage_path,
}
use vault_plugin_secrets_tem.Backend.Accounts.Lookup.{get_service_account-Quiet}

-- The delete of an entry bound to the account `id`, the newest call first: the entry is removed after
-- its account is gone.
abbrev pub DeletePost : String → String → Post (List Warning)
DeletePost path id (done ws) events =
    (c : ClientConfig) × (r : Result (Unit {0})) × IsGone r
    × (events ≡ removed path (ok tt) ∷ account_deleted c id r ∷ [])
DeletePost path id x events =
    (events ≡ [])
    ⊎ ((c : ClientConfig) × (r : Result (Unit {0})) × IsKept r
        × (events ≡ account_deleted c id r ∷ []))
    ⊎ ((c : ClientConfig) × (r : Result (Unit {0})) × IsGone r
        × (e : Error) × (events ≡ removed path (err e) ∷ account_deleted c id r ∷ []))

-- What follows the delete of the account, for its result.
abbrev After : String → Result (Unit {0}) → Post (List Warning)
After path r (done ws) events = IsGone r × (events ≡ removed path (ok tt) ∷ [])
After path r _ events =
    (IsKept r × (events ≡ [])) ⊎ (IsGone r × (e : Error) × (events ≡ removed path (err e) ∷ []))

-- The removal of the entry.
abbrev Removes : String → Post (List Warning)
Removes path (done ws) events = events ≡ removed path (ok tt) ∷ []
Removes path (rejected x) events = ⊥
Removes path (failed x) events = (e : Error) × (events ≡ removed path (err e) ∷ [])

-- Whether the account is gone.
abbrev Absent : Result (Unit {0}) → Post (Unit {0})
Absent r (done _) events = IsGone r × (events ≡ [])
Absent r _ events = IsKept r × (events ≡ [])

module _ {W : Type 0} (env : Env W) (ctx : Context) where
  not_found_or_kept :
      (name : String) (e : Error) (b : Bool)
      → is_not_found e.kind ≡ b
      → Emits {W = W} (Absent (err e)) (
          if b
          then (λ s. (done tt, s))
          else (λ s. (respond_cloud_err (str_append "deleting service account " name) e, s)))
  not_found_or_kept name e true q = record { at = λ s. ([], refl, (q, refl)) }
  not_found_or_kept name e false q =
      Emits-mono (OnFailure (λ l. l ≡ [])) (Absent (err e))
        (λ s. (respond_cloud_err (str_append "deleting service account " name) e, s))
        (λ r l h. kept r l h) (cloud_failure (λ l. l ≡ []) _ e refl)
    where
      kept :
          (r : Outcome (Unit {0})) (l : List Event)
          → OnFailure (λ k. k ≡ []) r l
          → Absent (err e) r l
      kept (done a) l h = absurd h
      kept (rejected x) l h = (q, h)
      kept (failed x) l h = (q, h)

  absent_now-Absent :
      (name : String) (r : Result (Unit {0})) → Emits (Absent r) (absent_now env ctx name r)
  unfolding absent_now
  absent_now-Absent name (ok _) = record { at = λ s. ([], refl, (tt, refl)) }
  absent_now-Absent name (err e) = not_found_or_kept name e (is_not_found e.kind) refl

  -- What follows the put, for its result.
  abbrev Ends : Result (Unit {0}) → Post (List Warning)
  Ends (ok _) (done ws) events = events ≡ []
  Ends (ok _) _ events = ⊥
  Ends (err e) (failed x) events = events ≡ []
  Ends (err e) _ events = ⊥

  ends_at :
      (path : String) (put : Result (Unit {0})) (r : Outcome (List Warning)) (e : List Event)
      → Ends put r e
      → Removes path r (e ++ removed path put ∷ [])
  ends_at path (ok _) (done ws) e h = rw h refl
  ends_at path (ok _) (rejected x) e h = absurd h
  ends_at path (ok _) (failed x) e h = absurd h
  ends_at path (err y) (done ws) e h = absurd h
  ends_at path (err y) (rejected x) e h = absurd h
  ends_at path (err y) (failed x) e h = rw h (y, refl)

  ends :
      (name : String) (deleted put : Result (Unit {0}))
      → Emits {W = W}
          (Ends put)
          ((λ s. (or_fail put, s)) >>= λ _. λ s. (done (absence_warnings name deleted), s))
  ends name deleted (ok _) = record { at = λ s. ([], refl, refl) }
  ends name deleted (err e) = record { at = λ s. ([], refl, refl) }

  remove_entry-Removes :
      (name : String) (deleted : Result (Unit {0}))
      → Emits (Removes (service_account_storage_path name)) (remove_entry env ctx name deleted)
  unfolding remove_entry
  remove_entry-Removes name deleted =
      let path = service_account_storage_path name in
      Emits-noting Ends (Removes path) (removed path) (env.storage_delete path)
        (λ put. (λ s. (or_fail put, s)) >>= λ _. λ s. (done (absence_warnings name deleted), s))
        (ends_at path) (ends name deleted)

  after_delete :
      (path : String) (deleted : Result (Unit {0})) (e₁ : List Event) (r : Outcome (List Warning))
      (e₂ : List Event)
      → Absent deleted (done tt) e₁
      → Removes path r e₂
      → After path deleted r (e₂ ++ e₁)
  after_delete path deleted e₁ (done ws) e₂ a h = rw (a.1, h) (a.0, refl)
  after_delete path deleted e₁ (rejected x) e₂ a h = absurd h
  after_delete path deleted e₁ (failed x) e₂ a h = rw (a.1, h.1) (inr (a.0, h.0, refl))

  absent_and_removed-After :
      (name : String) (deleted : Result (Unit {0}))
      → Emits
          (After (service_account_storage_path name) deleted)
          (absent_now env ctx name deleted >>= λ _. remove_entry env ctx name deleted)
  absent_and_removed-After name deleted =
      let path = service_account_storage_path name in
      Emits-bind (Absent deleted) (λ _. Removes path) (After path deleted)
        (λ _. remove_entry env ctx name deleted)
        (λ _ e₁ r e₂ a h. after_delete path deleted e₁ r e₂ a h) (λ x e h. inl h) (λ x e h. inl h)
        (λ _. remove_entry-Removes name deleted) (absent_now env ctx name deleted)
        (absent_now-Absent name deleted)

  deletes :
      (path id : String) (c : ClientConfig) (deleted : Result (Unit {0}))
      (r : Outcome (List Warning)) (e : List Event)
      → After path deleted r e
      → DeletePost path id r (e ++ account_deleted c id deleted ∷ [])
  deletes path id c deleted (done ws) e h = rw h.1 (c, deleted, h.0, refl)
  deletes path id c deleted (rejected x) e (inl h) = rw h.1 (inr (inl (c, deleted, h.0, refl)))
  deletes path id c deleted (rejected x) e (inr h) = rw h.2 (inr (inr (c, deleted, h.0, h.1, refl)))
  deletes path id c deleted (failed x) e (inl h) = rw h.1 (inr (inl (c, deleted, h.0, refl)))
  deletes path id c deleted (failed x) e (inr h) = rw h.2 (inr (inr (c, deleted, h.0, h.1, refl)))

  delete_bound-DeletePost :
      (name : String) (entry : ServiceAccountEntry) (c : ClientConfig)
      → Emits
          (DeletePost (service_account_storage_path name) entry.service_account_id)
          (delete_bound env ctx name entry c)
  unfolding delete_bound delete_account
  delete_bound-DeletePost name entry c =
      let path = service_account_storage_path name in
      Emits-noting (After path) (DeletePost path entry.service_account_id)
        (account_deleted c entry.service_account_id)
        (env.cloud.delete_service_account c ctx entry.service_account_id)
        (λ deleted. absent_now env ctx name deleted >>= λ _. remove_entry env ctx name deleted)
        (deletes path entry.service_account_id c) (absent_and_removed-After name)

  delete_entry-DeletePost :
      (name : String) (entry : ServiceAccountEntry)
      → Emits
          (DeletePost (service_account_storage_path name) entry.service_account_id)
          (delete_entry env ctx name (some entry))
  unfolding delete_entry
  delete_entry-DeletePost name entry =
      Emits-with_client env
        (DeletePost (service_account_storage_path name) entry.service_account_id)
        (delete_bound env ctx name entry) (λ x. inl refl) (λ x. inl refl)
        (delete_bound-DeletePost name entry)

  -- A delete of service-accounts/<name>, for the entry that is stored under the name, responds only
  -- after it deleted the entry's account, or learned that Temporal Cloud knows no such account, and
  -- after that removed the entry. Otherwise it called nothing, or the account's delete failed and was
  -- its last call, or the removal of the entry failed after the account was gone.
  pub path_service_account_delete-DeletePost :
      (name : String) (entry : ServiceAccountEntry) (s : State W)
      → (get_service_account env ctx name s).0 ≡ done (some entry)
      → EmitsFrom
          (DeletePost (service_account_storage_path name) entry.service_account_id)
          (path_service_account_delete env ctx name)
          s
  unfolding path_service_account_delete
  path_service_account_delete-DeletePost name entry s found =
      EmitsFrom-known (DeletePost (service_account_storage_path name) entry.service_account_id)
        (get_service_account env ctx name) (delete_entry env ctx name) (some entry) s found
        (get_service_account-Quiet env ctx name)
        ((delete_entry-DeletePost name entry).at (get_service_account env ctx name s).1)
