-- ===== src/Client/Access.antt =====
-- client/access.go, and specFromProto of client/grpc.go: service account specs in the operator's
-- words and in the Cloud API's, each way. `ranges` over a Go map are recursions on its list of pairs.
pub mod Roundtrip
pub mod Accepted
use Prim.Native.String.{◌++◌}
use mathlib.Core.Logic.{ite}
use native.Mathlib.Decide.{ℕ_discrete}
use vault_plugin_secrets_tem.Prelude.{ℕ, String, Option, none, some, List, [], ◌∷◌, if◌then◌else◌}
use vault_plugin_secrets_tem.Prelude.Text.{codes_eq, is_empty, trim_space, lower, codes}
use vault_plugin_secrets_tem.Exec.{Result, ok, err, and_then, wrap_err}
use vault_plugin_secrets_tem.Client.Errors.{
  error, invalid_argument, empty_name, empty_namespace, unknown_account_role, unknown_permission,
}
use vault_plugin_secrets_tem.Client.{ServiceAccountSpec, NamespaceAccess}
use vault_plugin_secrets_tem.Client.Service.{Role, Permission, ProtoSpec}

abbrev pub account_roles : List (String × Role)
account_roles =
    ("owner", Role.owner)
    ∷ ("admin", Role.admin)
    ∷ ("developer", Role.developer)
    ∷ ("finance-admin", Role.finance_admin)
    ∷ ("read", Role.read)
    ∷ ("metrics-read", Role.metrics_read)
    ∷ []

abbrev pub namespace_permissions : List (String × Permission)
namespace_permissions =
    ("admin", Permission.admin) ∷ ("write", Permission.write) ∷ ("read", Permission.read) ∷ []

abbrev pub lookup_codes : {A : Type 0} → List ℕ → List (String × A) → Option A
lookup_codes k [] = none
lookup_codes k ((j, a) ∷ m) = if codes_eq (codes j) k then some a else lookup_codes k m

abbrev role_or : String → Option Role → Result Role
role_or s none = err (error invalid_argument (unknown_account_role s))
role_or s (some r) = ok r

-- ParseAccountRole
unfoldable pub parse_account_role : String → Result Role
parse_account_role s = role_or s (lookup_codes (lower (trim_space s)) account_roles)

abbrev permission_or : String → Option Permission → Result Permission
permission_or s none = err (error invalid_argument (unknown_permission s))
permission_or s (some p) = ok p

-- ParseNamespacePermission
unfoldable pub parse_namespace_permission : String → Result Permission
parse_namespace_permission s =
    permission_or s (lookup_codes (lower (trim_space s)) namespace_permissions)

pub Role-discrete : Discrete Role
Role-discrete = hlevel ℕ_discrete

pub Permission-discrete : Discrete Permission
Permission-discrete = hlevel ℕ_discrete

-- The scan of a table for a value: the empty text if no name has it.
abbrev pub name_of : {A : Type 0} → Discrete A → A → List (String × A) → String
name_of dec a [] = ""
name_of dec a ((name, v) ∷ m) = ite (dec v a) name (name_of dec a m)

unfoldable pub account_role_from_proto : Role → String
unfolding Role-discrete ℕ_discrete
account_role_from_proto role = name_of Role-discrete role account_roles

unfoldable pub namespace_permission_from_proto : Permission → String
unfolding Permission-discrete ℕ_discrete
namespace_permission_from_proto perm = name_of Permission-discrete perm namespace_permissions

-- The loop of toProto over the namespace accesses.
unfoldable pub convert_accesses : NamespaceAccess → Result (List (String × Permission))
convert_accesses [] = ok []
convert_accesses ((namespace, permission) ∷ m) =
    let rest = convert_accesses m in
    if is_empty (trim_space namespace)
    then err (error invalid_argument empty_namespace)
    else and_then (wrap_err namespace (parse_namespace_permission permission))
        λ perm. and_then rest λ accesses. ok ((namespace, perm) ∷ accesses)

-- toProto
unfoldable pub to_proto : ServiceAccountSpec → Result ProtoSpec
to_proto s =
    if is_empty (trim_space s.name)
    then err (error invalid_argument empty_name)
    else and_then (parse_account_role s.account_role) λ role.
      and_then (convert_accesses s.namespace_access) λ accesses. ok (record {
        name = s.name;
        description = s.description;
        role = role;
        namespace_accesses = accesses;
      })

-- The names that the generated code prints for enum values are a parameter.
module _ (show_role : Role → String) (show_permission : Permission → String) where
  unfoldable pub unmapped_role : Role → String
  unmapped_role role = "unmapped-role(" ++ (show_role role ++ ")")

  unfoldable pub unmapped_namespace_permission : Permission → String
  unmapped_namespace_permission perm = "unmapped-permission(" ++ (show_permission perm ++ ")")

  unfoldable pub render_role : Role → String
  render_role role =
      let name = account_role_from_proto role in if is_empty name then unmapped_role role else name

  unfoldable pub render_permission : Permission → String
  render_permission perm =
      let name = namespace_permission_from_proto perm in
      if is_empty name then unmapped_namespace_permission perm else name

  unfoldable pub render_accesses : List (String × Permission) → NamespaceAccess
  render_accesses [] = []
  render_accesses ((namespace, perm) ∷ m) = (namespace, render_permission perm) ∷ render_accesses m

  -- specFromProto
  unfoldable pub spec_from_proto : ProtoSpec → ServiceAccountSpec
  spec_from_proto p = record {
    name = p.name;
    description = p.description;
    account_role = render_role p.role;
    namespace_access = render_accesses p.namespace_accesses;
  }
