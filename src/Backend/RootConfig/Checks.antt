-- ===== src/Backend/RootConfig/Checks.antt =====
-- What the checks of pathConfigWrite (path_config.go) accept.
use vault_plugin_secrets_tem.Prelude.{
  String, ◌≡◌, refl, sym, ap, ◌∙◌, ◌⊎◌, inl, inr, Bool, true, false, not, ◌&&◌, List, ◌==◌, arith,
  eq_iff, if◌then◌else◌, Bool-cases,
}
use vault_plugin_secrets_tem.Prelude.Text.{is_empty}
use vault_plugin_secrets_tem.Exec.{Result, ok, err}
use vault_plugin_secrets_tem.Client.{ServiceAccount, ApiKeyMetadata, OwnerType}
use vault_plugin_secrets_tem.Client.Errors.{Error, Kind}
use vault_plugin_secrets_tem.Backend.Handler.{
  Outcome, done, rejected, Handler, ◌>>=◌, lift, or_fail, respond_cloud_err,
  respond_cloud_err-fails, Warning, api_key_owned_by_user, unsupported_owner, no_owner_id,
  wrong_owner, owner_role,
}
use vault_plugin_secrets_tem.Backend.RootConfig.{
  id_or_reject, metadata_failure, metadata_or_reject, owner_checks, admin_failure, admin_or_reject,
  role_checks,
}

abbrev pub value_or : {A : Type 0} → A → Outcome A → A
value_or a (done x) = x
value_or a _ = a

pub past_both :
    {S A B C : Type 0} (r : Result A) (f : A → Handler S B) (g : B → Handler S C) (c : C) (s s' : S)
    → ((lift (or_fail r) >>= f) >>= g) s ≡ (done c, s')
    → (a : A) × (r ≡ ok a) × ((f a >>= g) s ≡ (done c, s'))
past_both (ok a) f g c s s' h = (a, refl, h)
past_both (err e) f g c s s' h = cc

pub id_or_reject-done : (r : Result String) (id : String) → id_or_reject r ≡ done id → r ≡ ok id
id_or_reject-done (ok x) id h = cc
id_or_reject-done (err e) id h = cc

pub respond_cloud_err-done :
    {A B : Type 0} (op : String) (e : Error) (a : A) → respond_cloud_err op e ≡ done a → B
respond_cloud_err-done {A = A} op e a h = elim (respond_cloud_err-fails {A = A} op e) [
  | inl (x, same) ↦ cc
  | inr (x, same) ↦ cc
]

metadata_failure-done :
    {B : Type 0} (k : Kind) (e : Error) (m : ApiKeyMetadata) → metadata_failure k e ≡ done m → B
unfolding metadata_failure
metadata_failure-done Kind.not_found e m h = cc
metadata_failure-done Kind.permission_denied e m h = cc
metadata_failure-done Kind.invalid_argument e m h = respond_cloud_err-done _ e m h
metadata_failure-done Kind.resource_exhausted e m h = respond_cloud_err-done _ e m h
metadata_failure-done Kind.unavailable e m h = respond_cloud_err-done _ e m h
metadata_failure-done Kind.other e m h = respond_cloud_err-done _ e m h

pub metadata_or_reject-done :
    (r : Result ApiKeyMetadata) (m : ApiKeyMetadata) → metadata_or_reject r ≡ done m → r ≡ ok m
unfolding metadata_or_reject
metadata_or_reject-done (ok x) m h = cc
metadata_or_reject-done (err e) m h = metadata_failure-done e.kind e m h

admin_failure-done :
    {B : Type 0} (k : Kind) (id : String) (e : Error) (sa : ServiceAccount)
    → admin_failure k id e ≡ done sa
    → B
unfolding admin_failure
admin_failure-done Kind.not_found id e m h = cc
admin_failure-done Kind.permission_denied id e m h = cc
admin_failure-done Kind.invalid_argument id e m h = respond_cloud_err-done _ e m h
admin_failure-done Kind.resource_exhausted id e m h = respond_cloud_err-done _ e m h
admin_failure-done Kind.unavailable id e m h = respond_cloud_err-done _ e m h
admin_failure-done Kind.other id e m h = respond_cloud_err-done _ e m h

pub admin_or_reject-done :
    (id : String) (r : Result ServiceAccount) (sa : ServiceAccount)
    → admin_or_reject id r ≡ done sa
    → r ≡ ok sa
unfolding admin_or_reject
admin_or_reject-done id (ok x) m h = cc
admin_or_reject-done id (err e) m h = admin_failure-done e.kind id e m h

-- An owner that a root key may have.
pub record IsOwner (supplied : String) (m : ApiKeyMetadata) (owner : String) : Type 0 where
  pub of_account : m.owner_type ≡ OwnerType.service_account
  pub named : m.owner_id ≡ owner
  pub known : is_empty owner ≡ false
  pub agrees : (is_empty supplied ≡ true) ⊎ (supplied ≡ owner)

owner_parts :
    (t : OwnerType) (nameless differs : Bool) (supplied owner id : String)
    → ◌≡◌ {A = Outcome String}
        (elim t [
          | OwnerType.user ↦ rejected api_key_owned_by_user
          | OwnerType.unknown ↦ rejected unsupported_owner
          | OwnerType.service_account ↦
              if nameless
              then rejected no_owner_id
              else if differs
              then rejected (wrong_owner supplied id)
              else done id
        ])
        (done owner)
    → (t ≡ OwnerType.service_account) × (nameless ≡ false) × (differs ≡ false) × (id ≡ owner)
owner_parts OwnerType.service_account false false supplied owner id h = (refl, refl, refl, cc)
owner_parts OwnerType.service_account true differs supplied owner id h = cc
owner_parts OwnerType.service_account false true supplied owner id h = cc
owner_parts OwnerType.user nameless differs supplied owner id h = cc
owner_parts OwnerType.unknown nameless differs supplied owner id h = cc

agreement :
    (supplied owner : String)
    → (not (is_empty supplied) && not (supplied == owner)) ≡ false
    → (is_empty supplied ≡ true) ⊎ (supplied ≡ owner)
agreement supplied owner h = elim (Bool-cases (is_empty supplied)) [
  | inl blank ↦ inl blank
  | inr full ↦ inr (ground (arith, eq_iff supplied owner))
]

pub owner_checks-IsOwner :
    (supplied owner : String) (m : ApiKeyMetadata)
    → owner_checks supplied m ≡ done owner
    → IsOwner supplied m owner
unfolding owner_checks
owner_checks-IsOwner supplied owner m h =
    let (account, full, agree, same) =
      owner_parts m.owner_type (is_empty m.owner_id)
        (not (is_empty supplied) && not (supplied == m.owner_id)) supplied owner m.owner_id h in
    record {
      of_account = account;
      named = same;
      known = ap is_empty (sym same) ∙ full;
      agrees = agreement supplied owner (rw (sym same) agree);
    }

-- A role that a root key's owner may have.
abbrev pub IsAdmin : String → Type 0
IsAdmin role = (role ≡ "admin") ⊎ (role ≡ "owner")

pub role_checks-IsAdmin :
    (owner role : String) (ws : List Warning) → role_checks owner role ≡ done ws → IsAdmin role
unfolding role_checks
role_checks-IsAdmin owner role ws h = elim (Bool-cases (role == "admin")) [
  | inl admin ↦ inl (ground (arith, eq_iff role "admin"))
  | inr other ↦ elim (Bool-cases (role == "owner")) [
    | inl owned ↦ inr (ground (arith, eq_iff role "owner"))
    | inr neither ↦
        let no : rejected (owner_role owner (if is_empty role then "unknown" else role)) ≡ done ws =
          rw (other, neither) at h in
        cc
  ]
]
