-- ===== src/Backend/Handler.antt =====
-- Path handlers: each ends with a response, with an error response for the operator (a 400), or with
-- a Go error (a 500), and leaves the state that it reached. respondCloudErr of backend.go.
use vault_plugin_secrets_tem.Prelude.{
  ap, ◌≡◌, refl, ◌⊎◌, inl, inr, ℕ, String, Bool, true, false, List,
}
use vault_plugin_secrets_tem.Prelude.Int.{ℤ}
use vault_plugin_secrets_tem.Exec.{Result, ok, err}
use vault_plugin_secrets_tem.Client.Errors.{
  Error, Kind, wrap, not_found, permission_denied, invalid_argument, resource_exhausted,
  unavailable, other,
}

-- The error responses, one constructor for each place that builds one.
pub data Rejection : Type 0 where
  account_role_required : Rejection
  bad_account_role : Error → Rejection
  bad_entry : String → Rejection
  empty_entry_namespace empty_entry_permission : String → Rejection
  bad_entry_permission : String → Error → Rejection
  duplicate_namespace : String → Rejection
  ttl_exceeds_max_ttl : ℤ → ℤ → Rejection
  max_ttl_too_long : ℤ → Rejection
  name_taken : String → String → Rejection
  no_such_entry : String → Rejection
  at_capacity : String → ℕ → ℤ → Rejection
  credential_rejected refused : String → Error → Rejection
  api_key_required api_key_id_read_only : Rejection
  root_key_ttl_too_long root_key_ttl_too_short : ℤ → Rejection
  not_an_api_key cannot_build_client : Error → Rejection
  api_key_rejected api_key_owned_by_user unsupported_owner no_owner_id : Rejection
  wrong_owner : String → String → Rejection
  owner_missing owner_not_admin : String → Rejection
  owner_role : String → String → Rejection
  bad_interval : String → Rejection
  bad_probe_config : Error → Rejection
  not_configured : Rejection
  verification_failed : Error → Rejection

pub data Warning : Type 0 where
  owner_credentials owner_root_key : Warning
  already_absent : String → Warning
  nothing_to_verify no_time_to_verify : Warning
  not_confirmed : String → Error → Warning
  previous_key_unknown : Warning
  previous_key_not_deleted : String → Error → Warning

pub data Outcome (A : Type 0) : Type 0 where
  done : A → Outcome A
  rejected : Rejection → Outcome A
  failed : Error → Outcome A

abbrev pub Handler : Type 0 → Type 0 → Type 0
Handler S A = S → Outcome A × S

abbrev pub continue : {S A B : Type 0} → Outcome A → (A → Handler S B) → Handler S B
continue (done a) f s = f a s
continue (rejected r) f s = (rejected r, s)
continue (failed e) f s = (failed e, s)

infixl 10 ◌>>=◌ ◌>>◌
abbrev pub ◌>>=◌ : {S A B : Type 0} → Handler S A → (A → Handler S B) → Handler S B
◌>>=◌ m f s = let (r, s') = m s in continue r f s'

abbrev pub ◌>>◌ : {S B : Type 0} → Handler S (Unit {0}) → Handler S B → Handler S B
m >> k = m >>= λ _. k

abbrev pub pure : {S A : Type 0} → A → Handler S A
pure a s = (done a, s)

abbrev pub reject : {S A : Type 0} → Rejection → Handler S A
reject r s = (rejected r, s)

abbrev pub fail : {S A : Type 0} → Error → Handler S A
fail e s = (failed e, s)

abbrev pub lift : {S A : Type 0} → Outcome A → Handler S A
lift r s = (r, s)

-- `if bad { return logical.ErrorResponse(...) }`
abbrev pub reject_if : {S : Type 0} → Bool → Rejection → Handler S (Unit {0})
reject_if true r s = (rejected r, s)
reject_if false r s = (done tt, s)

-- `if err != nil { return nil, err }`
abbrev pub or_fail : {A : Type 0} → Result A → Outcome A
or_fail (ok a) = done a
or_fail (err e) = failed e

response_for : Kind → String → Error → {A : Type 0} → Outcome A
response_for permission_denied op e = rejected (credential_rejected op e)
response_for not_found op e = rejected (refused op e)
response_for invalid_argument op e = rejected (refused op e)
response_for resource_exhausted op e = rejected (refused op e)
response_for _ op e = failed (wrap op e)

-- respondCloudErr
unfoldable pub respond_cloud_err : {A : Type 0} → String → Error → Outcome A
unfolding response_for
respond_cloud_err op e = response_for e.kind op e

response_for-fails :
    {A : Type 0} (k : Kind) (op : String) (e : Error)
    → ((x : Rejection) × (response_for k op e {A = A} ≡ rejected x))
      ⊎ ((x : Error) × (response_for k op e {A = A} ≡ failed x))
unfolding response_for
response_for-fails permission_denied op e = inl (credential_rejected op e, refl)
response_for-fails not_found op e = inl (refused op e, refl)
response_for-fails invalid_argument op e = inl (refused op e, refl)
response_for-fails resource_exhausted op e = inl (refused op e, refl)
response_for-fails unavailable op e = inr (wrap op e, refl)
response_for-fails other op e = inr (wrap op e, refl)

-- respondCloudErr never gives what a caller would take for success.
pub respond_cloud_err-fails :
    {A : Type 0} (op : String) (e : Error)
    → ((x : Rejection) × (respond_cloud_err {A = A} op e ≡ rejected x))
      ⊎ ((x : Error) × (respond_cloud_err {A = A} op e ≡ failed x))
unfolding respond_cloud_err
respond_cloud_err-fails op e = response_for-fails e.kind op e

-- The response of a handler that returns data, with its warnings.
pub record Response (A : Type 0) : Type 0 where
  pub body : A
  pub warnings : List Warning

-- A handler that responds got past its first part.
pub past :
    {S A B : Type 0} (r : Outcome A) (f : A → Handler S B) (b : B) (s s' : S)
    → (lift r >>= f) s ≡ (done b, s')
    → (a : A) × (r ≡ done a) × (f a s ≡ (done b, s'))
past (done a) f b s s' h = (a, refl, h)
past (rejected x) f b s s' h = cc
past (failed x) f b s s' h = cc

pub stepped :
    {S A B : Type 0} (m : Handler S A) (f : A → Handler S B) (b : B) (s s' : S)
    → (m >>= f) s ≡ (done b, s')
    → (a : A) × (s₁ : S) × (m s ≡ (done a, s₁)) × (f a s₁ ≡ (done b, s'))
stepped m f b s s' h =
    let (a, first, rest) = past (m s).0 f b (m s).1 s' h in
    (a, (m s).1, ap (λ u. (u, (m s).1)) first, rest)

pub or_fail-done : {A : Type 0} (r : Result A) (a : A) → or_fail r ≡ done a → r ≡ ok a
or_fail-done (ok x) a h = cc
or_fail-done (err e) a h = cc
