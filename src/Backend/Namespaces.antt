-- ===== src/Backend/Namespaces.antt =====
-- parseNamespaceAccess and cloudSpecChanged of path_service_accounts.go. A Go map is the list of its
-- pairs; a read of a missing key gives the empty text.
pub mod Valid
pub mod Reading
pub mod Changed
use Prim.Native.String.{◌++◌ as str_append}
use vault_plugin_secrets_tem.Prelude.{
  String, Bool, false, not, ◌||◌, Option, none, some, List, [], ◌∷◌, ◌++◌, length, nat_eq, ◌==◌,
  if◌then◌else◌,
}
use vault_plugin_secrets_tem.Prelude.Text.{is_empty, trim_space, split}
use vault_plugin_secrets_tem.Exec.{ok, err}
use vault_plugin_secrets_tem.Client.{NamespaceAccess}
use vault_plugin_secrets_tem.Client.Access.{parse_namespace_permission}
use vault_plugin_secrets_tem.Backend.Entries.{ServiceAccountEntry}
use vault_plugin_secrets_tem.Backend.Handler.{
  Outcome, done, rejected, bad_entry, empty_entry_namespace, empty_entry_permission,
  bad_entry_permission, duplicate_namespace,
}

unfoldable pub lookup : String → NamespaceAccess → Option String
lookup k [] = none
lookup k ((j, v) ∷ m) = if j == k then some v else lookup k m

unfoldable pub has_key : String → NamespaceAccess → Bool
has_key k [] = false
has_key k ((j, v) ∷ m) = j == k || has_key k m

-- One round of the loop: the map so far, the entry and its two trimmed parts.
unfoldable pub add_access : NamespaceAccess → String → String → String → Outcome NamespaceAccess
unfolding has_key
add_access access pair namespace permission =
    if is_empty namespace
    then rejected (empty_entry_namespace pair)
    else if is_empty permission
    then rejected (empty_entry_permission pair)
    else elim (parse_namespace_permission permission) [
      | err e ↦ rejected (bad_entry_permission pair e)
      | ok _ ↦
          if has_key namespace access
          then rejected (duplicate_namespace namespace)
          else done (access ++ (namespace, permission) ∷ [])
    ]

unfoldable pub add_parts : NamespaceAccess → String → List String → Outcome NamespaceAccess
add_parts access pair (namespace ∷ permission ∷ []) =
    add_access access pair (trim_space namespace) (trim_space permission)
add_parts access pair parts = rejected (bad_entry pair)

unfoldable pub add_pair : NamespaceAccess → String → Outcome NamespaceAccess
unfolding add_parts
add_pair access pair =
    if is_empty (trim_space pair) then done access else add_parts access pair (split b'=' pair)

unfoldable pub parse_from : NamespaceAccess → List String → Outcome NamespaceAccess
parse_from access [] = done access
parse_from access (pair ∷ pairs) = elim (add_pair access pair) [
  | done more ↦ parse_from more pairs
  | other ↦ other
]

-- parseNamespaceAccess
unfoldable pub parse_namespace_access : List String → Outcome NamespaceAccess
unfolding parse_from add_pair add_access
parse_namespace_access pairs = parse_from [] pairs

-- old[k] of a Go map.
abbrev pub read : String → NamespaceAccess → String
read k m = elim (lookup k m) [ none ↦ "" | some v ↦ v ]

unfoldable pub any_differs : NamespaceAccess → NamespaceAccess → Bool
unfolding lookup
any_differs old [] = false
any_differs old ((namespace, permission) ∷ m) =
    not (read namespace old == permission) || any_differs old m

-- cloudSpecChanged
unfoldable pub cloud_spec_changed : ServiceAccountEntry → ServiceAccountEntry → Bool
unfolding any_differs
cloud_spec_changed old new =
    not (old.account_role == new.account_role)
    || not (old.description == new.description)
    || not (nat_eq (length old.namespace_access) (length new.namespace_access))
    || any_differs old.namespace_access new.namespace_access

-- The texts that a read returns, before they are sorted.
unfoldable pub render_access : NamespaceAccess → List String
render_access [] = []
render_access ((namespace, permission) ∷ m) =
    str_append namespace (str_append "=" permission) ∷ render_access m
