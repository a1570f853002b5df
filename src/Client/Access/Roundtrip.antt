-- ===== src/Client/Access/Roundtrip.antt =====
-- Laws of client/access.go and specFromProto: what a conversion keeps, and what a round trip gives.
use mathlib.Core.Path.{subst}
use vault_plugin_secrets_tem.Prelude.{
  ℕ, String, ◌≡◌, refl, Bool, true, false, inl, inr, Option, some, List, [], ◌∷◌, arith, All,
  if◌then◌else◌, Bool-cases,
}
use vault_plugin_secrets_tem.Prelude.Text.{codes_eq, is_empty, trim_space, lower, codes}
use vault_plugin_secrets_tem.Exec.{Result, ok, err, and_then, wrap_err}
use vault_plugin_secrets_tem.Client.Errors.{
  Error, error, invalid_argument, empty_name, empty_namespace,
}
use vault_plugin_secrets_tem.Client.{ServiceAccountSpec, NamespaceAccess}
use vault_plugin_secrets_tem.Client.Service.{Role, Permission, ProtoSpec}
use vault_plugin_secrets_tem.Client.Access.{
  account_roles, namespace_permissions, lookup_codes, role_or, permission_or, parse_account_role,
  parse_namespace_permission, account_role_from_proto, namespace_permission_from_proto,
  convert_accesses, to_proto, render_role, render_permission, render_accesses, spec_from_proto,
}

some_inj : {A : Type 0} {a b : A} → some a ≡ some b → a ≡ b
some_inj e = cc

-- What a table's entry found by its name is like, from a fact on all entries.
pub lookup_codes-entry :
    {A : Type 0} (P : String × A → Type 0) (k : List ℕ) (m : List (String × A)) (a : A)
    → All P m
    → lookup_codes k m ≡ some a
    → (j : String) × (codes_eq (codes j) k ≡ true) × P (j, a)
lookup_codes-entry P k [] a h e = cc
lookup_codes-entry P k ((j, b) ∷ m) a h e = elim (Bool-cases (codes_eq (codes j) k)) [
  | inl same ↦ (j, same, subst (λ x. P (j, x)) (some_inj (rw same at e)) h.0)
  | inr other ↦ lookup_codes-entry P k m a h.1 (rw other at e)
]

abbrev RoleEntry : String × Role → Type 0
RoleEntry (j, r) =
    (account_role_from_proto r ≡ j) × (parse_account_role j ≡ ok r) × (is_empty j ≡ false)

account_roles-RoleEntry : All RoleEntry account_roles
unfolding parse_account_role account_role_from_proto trim_space lower
account_roles-RoleEntry = (
  (refl, refl, refl),
  (
    (refl, refl, refl),
    ((refl, refl, refl), ((refl, refl, refl), ((refl, refl, refl), ((refl, refl, refl), tt)))),
  ),
)

pub role_or-eq-ok : (s : String) (o : Option Role) (r : Role) → role_or s o ≡ ok r → o ≡ some r
role_or-eq-ok s o r h = ground arith

abbrev PermissionEntry : String × Permission → Type 0
PermissionEntry (j, p) =
    (namespace_permission_from_proto p ≡ j)
    × (parse_namespace_permission j ≡ ok p)
    × (is_empty j ≡ false)

namespace_permissions-PermissionEntry : All PermissionEntry namespace_permissions
unfolding parse_namespace_permission namespace_permission_from_proto trim_space lower
namespace_permissions-PermissionEntry =
    ((refl, refl, refl), ((refl, refl, refl), ((refl, refl, refl), tt)))

pub permission_or-eq-ok :
    (s : String) (o : Option Permission) (p : Permission) → permission_or s o ≡ ok p → o ≡ some p
permission_or-eq-ok s o p h = ground arith

ok_inj : {A : Type 0} {a b : A} → Result.ok a ≡ ok b → a ≡ b
ok_inj e = cc

access_step :
    (blank : Bool) (namespace : String) (r : Result Permission)
    (q : Result (List (String × Permission))) (e : Error) (accesses : List (String × Permission))
    → (if blank
        then err e
        else and_then
            (wrap_err namespace r)
            λ perm. and_then q λ rest. ok ((namespace, perm) ∷ rest))
      ≡ ok accesses
    → (perm : Permission) × (rest : List (String × Permission)) × (blank ≡ false)
      × (r ≡ ok perm)
      × (q ≡ ok rest)
      × ((namespace, perm) ∷ rest ≡ accesses)
access_step false namespace (ok p) (ok rest) e accesses h = (p, rest, refl, refl, refl, ok_inj h)
access_step _ namespace r q e accesses h = cc

pub convert_accesses-cons :
    (namespace permission : String) (m : NamespaceAccess) (accesses : List (String × Permission))
    → convert_accesses ((namespace, permission) ∷ m) ≡ ok accesses
    → (perm : Permission) × (rest : List (String × Permission)) × (is_empty (trim_space namespace)
        ≡ false)
      × (parse_namespace_permission permission ≡ ok perm)
      × (convert_accesses m ≡ ok rest)
      × ((namespace, perm) ∷ rest ≡ accesses)
unfolding convert_accesses
convert_accesses-cons namespace permission m accesses h =
    access_step (is_empty (trim_space namespace)) namespace (parse_namespace_permission permission)
      (convert_accesses m) (error invalid_argument empty_namespace) accesses h

spec_step :
    (blank : Bool) (s : ServiceAccountSpec) (r : Result Role)
    (q : Result (List (String × Permission))) (e : Error) (p : ProtoSpec)
    → (if blank
        then err e
        else and_then r λ role. and_then q λ accesses. ok (record {
          name = s.name;
          description = s.description;
          role = role;
          namespace_accesses = accesses;
        }))
      ≡ ok p
    → (blank ≡ false)
      × (r ≡ ok p.role)
      × (q ≡ ok p.namespace_accesses)
      × (p.name ≡ s.name)
      × (p.description ≡ s.description)
spec_step false s (ok role) (ok accesses) e p h = ground arith
spec_step _ s r q e p h = cc

-- What an accepted spec is converted to.
pub to_proto-parts :
    (s : ServiceAccountSpec) (p : ProtoSpec)
    → to_proto s ≡ ok p
    → (is_empty (trim_space s.name) ≡ false)
      × (parse_account_role s.account_role ≡ ok p.role)
      × (convert_accesses s.namespace_access ≡ ok p.namespace_accesses)
      × (p.name ≡ s.name)
      × (p.description ≡ s.description)
unfolding to_proto
to_proto-parts s p h =
    spec_step (is_empty (trim_space s.name)) s (parse_account_role s.account_role)
      (convert_accesses s.namespace_access) (error invalid_argument empty_name) p h

pub convert_accesses-nil :
    (accesses : List (String × Permission)) → convert_accesses [] ≡ ok accesses → [] ≡ accesses
unfolding convert_accesses
convert_accesses-nil accesses h = ok_inj h

module _ (show_role : Role → String) (show_permission : Permission → String) where
  abbrev from_proto : ProtoSpec → ServiceAccountSpec
  from_proto = spec_from_proto show_role show_permission

  -- A role that parses is rendered as the operator's word, trimmed and lowered, which parses again.
  pub render_role_parsed :
      (s : String) (r : Role)
      → parse_account_role s ≡ ok r
      → (codes_eq (codes (render_role show_role show_permission r)) (lower (trim_space s)) ≡ true)
        × (parse_account_role (render_role show_role show_permission r) ≡ ok r)
  unfolding render_role
  render_role_parsed s r h =
      let entry =
        lookup_codes-entry RoleEntry (lower (trim_space s)) account_roles r account_roles-RoleEntry
          (role_or-eq-ok s _ r (unfold parse_account_role in h)) in
      let (j, same, facts) = entry in rw (facts.0, facts.2) (same, facts.1)

  pub render_permission_parsed :
      (s : String) (p : Permission)
      → parse_namespace_permission s ≡ ok p
      → (codes_eq (codes (render_permission show_role show_permission p)) (lower (trim_space s))
          ≡ true)
        × (parse_namespace_permission (render_permission show_role show_permission p) ≡ ok p)
  unfolding render_permission
  render_permission_parsed s p h =
      let entry =
        lookup_codes-entry PermissionEntry (lower (trim_space s)) namespace_permissions p
          namespace_permissions-PermissionEntry
          (permission_or-eq-ok s _ p (unfold parse_namespace_permission in h)) in
      let (j, same, facts) = entry in rw (facts.0, facts.2) (same, facts.1)

  convert-render_access :
      (namespace permission : String) (perm : Permission) (rest : List (String × Permission))
      → is_empty (trim_space namespace) ≡ false
      → parse_namespace_permission permission ≡ ok perm
      → convert_accesses (render_accesses show_role show_permission rest) ≡ ok rest
      → convert_accesses (render_accesses show_role show_permission ((namespace, perm) ∷ rest))
        ≡ ok ((namespace, perm) ∷ rest)
  unfolding convert_accesses render_accesses
  convert-render_access namespace permission perm rest full parsed converted =
      rw (full, (render_permission_parsed permission perm parsed).1, converted)

  -- Accesses that convert are rendered to accesses that convert to the same.
  convert-render_accesses :
      (m : NamespaceAccess) (accesses : List (String × Permission))
      → convert_accesses m ≡ ok accesses
      → convert_accesses (render_accesses show_role show_permission accesses) ≡ ok accesses
  convert-render_accesses [] accesses h =
      rw (← convert_accesses-nil accesses h) (unfold convert_accesses render_accesses in refl)
  convert-render_accesses ((namespace, permission) ∷ m) accesses h =
      let inv = convert_accesses-cons namespace permission m accesses h in
      let (perm, rest, full, parsed, converted, whole) = inv in
      rw (← whole) (
        convert-render_access namespace permission perm rest full parsed
          (convert-render_accesses m rest converted))

  -- Converting a spec, rendering the result and converting again gives the first conversion.
  pub to_proto-spec_from_proto :
      (s : ServiceAccountSpec) (p : ProtoSpec) → to_proto s ≡ ok p → to_proto (from_proto p) ≡ ok p
  to_proto-spec_from_proto s p h =
      let (full, parsed, converted, named, described) = to_proto-parts s p h in
      let full_name : is_empty (trim_space p.name) ≡ false = rw named full in
      unfold to_proto spec_from_proto in
      rw
        (
          full_name,
          (render_role_parsed s.account_role p.role parsed).1,
          convert-render_accesses s.namespace_access p.namespace_accesses converted,
        )
        refl
