-- ===== src/Client/Access/Accepted.antt =====
-- Which specifications client/access.go converts (toProto), and to what, said by the operator's words.
use vault_plugin_secrets_tem.Prelude.{
  ℕ, String, ◌≡◌, ◌↔◌, refl, true, false, List, [], ◌∷◌, arith, nat_eq,
}
use vault_plugin_secrets_tem.Prelude.Text.{codes_eq, is_empty, trim_space, lower, codes}
use vault_plugin_secrets_tem.Exec.{ok}
use vault_plugin_secrets_tem.Client.{ServiceAccountSpec, NamespaceAccess}
use vault_plugin_secrets_tem.Client.Service.{Role, Permission, ProtoSpec}
use vault_plugin_secrets_tem.Client.Access.{
  account_roles, namespace_permissions, parse_account_role, parse_namespace_permission,
  convert_accesses, to_proto,
}
use vault_plugin_secrets_tem.Client.Access.Roundtrip.{
  lookup_codes-entry, role_or-eq-ok, permission_or-eq-ok, convert_accesses-cons,
  convert_accesses-nil, to_proto-parts,
}

-- A role in one of the operator's words.
abbrev pub IsRoleWord : List ℕ → Role → Type 0
IsRoleWord k Role.owner = k ≡ codes "owner"
IsRoleWord k Role.admin = k ≡ codes "admin"
IsRoleWord k Role.developer = k ≡ codes "developer"
IsRoleWord k Role.finance_admin = k ≡ codes "finance-admin"
IsRoleWord k Role.read = k ≡ codes "read"
IsRoleWord k Role.metrics_read = k ≡ codes "metrics-read"
IsRoleWord k _ = ⊥

abbrev pub IsPermissionWord : List ℕ → Permission → Type 0
IsPermissionWord k Permission.admin = k ≡ codes "admin"
IsPermissionWord k Permission.write = k ≡ codes "write"
IsPermissionWord k Permission.read = k ≡ codes "read"
IsPermissionWord k _ = ⊥

-- What the words are compared with: the operator's text, trimmed and lowered.
abbrev pub normal : String → List ℕ
normal s = lower (trim_space s)

codes_eq-eq : (k l : List ℕ) → codes_eq k l ≡ true → l ≡ k
codes_eq-eq [] [] h = refl
codes_eq-eq (a ∷ k) (b ∷ l) h =
    let heads : nat_eq a b ≡ true = ground arith in
    let same : b ≡ a = ground arith in
    let tails : codes_eq k l ≡ true = ground arith in rw (same, codes_eq-eq k l tails) refl
codes_eq-eq [] (b ∷ l) h = cc
codes_eq-eq (a ∷ k) [] h = cc

abbrev RoleRow : String × Role → Type 0
RoleRow (j, r) = IsRoleWord (codes j) r

parse_account_role-IsRoleWord :
    (s : String) (r : Role) → parse_account_role s ≡ ok r → IsRoleWord (normal s) r
parse_account_role-IsRoleWord s r h =
    let (j, same, word) =
      lookup_codes-entry RoleRow (normal s) account_roles r
        (refl, (refl, (refl, (refl, (refl, (refl, tt))))))
        (role_or-eq-ok s _ r (unfold parse_account_role in h)) in
    rw (codes_eq-eq (codes j) (normal s) same) word

IsRoleWord-parse_account_role :
    (s : String) (r : Role) → IsRoleWord (normal s) r → parse_account_role s ≡ ok r
unfolding parse_account_role
IsRoleWord-parse_account_role s Role.owner h = rw h refl
IsRoleWord-parse_account_role s Role.admin h = rw h refl
IsRoleWord-parse_account_role s Role.developer h = rw h refl
IsRoleWord-parse_account_role s Role.finance_admin h = rw h refl
IsRoleWord-parse_account_role s Role.read h = rw h refl
IsRoleWord-parse_account_role s Role.metrics_read h = rw h refl
IsRoleWord-parse_account_role s Role.unspecified h = absurd h
IsRoleWord-parse_account_role s (Role.unmapped n) h = absurd h

abbrev PermissionRow : String × Permission → Type 0
PermissionRow (j, p) = IsPermissionWord (codes j) p

parse_namespace_permission-IsPermissionWord :
    (s : String) (p : Permission)
    → parse_namespace_permission s ≡ ok p
    → IsPermissionWord (normal s) p
parse_namespace_permission-IsPermissionWord s p h =
    let (j, same, word) =
      lookup_codes-entry PermissionRow (normal s) namespace_permissions p (refl, (refl, (refl, tt)))
        (permission_or-eq-ok s _ p (unfold parse_namespace_permission in h)) in
    rw (codes_eq-eq (codes j) (normal s) same) word

IsPermissionWord-parse_namespace_permission :
    (s : String) (p : Permission)
    → IsPermissionWord (normal s) p
    → parse_namespace_permission s ≡ ok p
unfolding parse_namespace_permission
IsPermissionWord-parse_namespace_permission s Permission.admin h = rw h refl
IsPermissionWord-parse_namespace_permission s Permission.write h = rw h refl
IsPermissionWord-parse_namespace_permission s Permission.read h = rw h refl
IsPermissionWord-parse_namespace_permission s Permission.unspecified h = absurd h
IsPermissionWord-parse_namespace_permission s (Permission.unmapped n) h = absurd h

-- Access by access: the same namespace, which is not blank, and the permission that the word names.
abbrev pub Corresponds : NamespaceAccess → List (String × Permission) → Type 0
Corresponds [] [] = Unit
Corresponds ((namespace, word) ∷ m) ((namespace', p) ∷ accesses) =
    (namespace ≡ namespace')
    × (is_empty (trim_space namespace) ≡ false)
    × IsPermissionWord (normal word) p
    × Corresponds m accesses
Corresponds _ _ = ⊥

pub record IsConversion (s : ServiceAccountSpec) (p : ProtoSpec) : Type 0 where
  pub named : is_empty (trim_space s.name) ≡ false
  pub same_name : p.name ≡ s.name
  pub same_description : p.description ≡ s.description
  pub role : IsRoleWord (normal s.account_role) p.role
  pub accesses : Corresponds s.namespace_access p.namespace_accesses

convert_accesses-Corresponds :
    (m : NamespaceAccess) (accesses : List (String × Permission))
    → convert_accesses m ≡ ok accesses
    → Corresponds m accesses
convert_accesses-Corresponds [] accesses h = rw (← convert_accesses-nil accesses h) tt
convert_accesses-Corresponds ((namespace, word) ∷ m) accesses h =
    let (p, rest, full, parsed, converted, whole) =
      convert_accesses-cons namespace word m accesses h in
    rw (← whole) (
      refl,
      full,
      parse_namespace_permission-IsPermissionWord word p parsed,
      convert_accesses-Corresponds m rest converted,
    )

Corresponds-convert_accesses :
    (m : NamespaceAccess) (accesses : List (String × Permission))
    → Corresponds m accesses
    → convert_accesses m ≡ ok accesses
unfolding convert_accesses
Corresponds-convert_accesses [] [] c = refl
Corresponds-convert_accesses ((namespace, word) ∷ m) ((namespace', p) ∷ accesses)
      (same, full, permission, rest) =
    rw
      (
        full,
        IsPermissionWord-parse_namespace_permission word p permission,
        Corresponds-convert_accesses m accesses rest,
        same,
      )
      refl
Corresponds-convert_accesses [] (x ∷ accesses) c = absurd c
Corresponds-convert_accesses (x ∷ m) [] c = absurd c

to_proto-forward : (s : ServiceAccountSpec) (p : ProtoSpec) → to_proto s ≡ ok p → IsConversion s p
to_proto-forward s p h =
    let (full, parsed, converted, name, description) = to_proto-parts s p h in
    record {
      named = full;
      same_name = name;
      same_description = description;
      role = parse_account_role-IsRoleWord s.account_role p.role parsed;
      accesses = convert_accesses-Corresponds s.namespace_access p.namespace_accesses converted;
    }

to_proto-backward : (s : ServiceAccountSpec) (p : ProtoSpec) → IsConversion s p → to_proto s ≡ ok p
unfolding to_proto
to_proto-backward s p c =
    rw
      (
        c.named,
        IsRoleWord-parse_account_role s.account_role p.role c.role,
        Corresponds-convert_accesses s.namespace_access p.namespace_accesses c.accesses,
        ← c.same_name,
        ← c.same_description,
      )
      refl

-- A specification is converted exactly if its name is not blank, its role is one of the six words,
-- no namespace is blank and every permission is one of the three words, with text around the words
-- trimmed and their case ignored; and it is converted to the Cloud API's role and permissions of
-- those words, namespace by namespace, with the same name and description.
pub to_proto-IsConversion :
    (s : ServiceAccountSpec) (p : ProtoSpec) → to_proto s ≡ ok p ↔ IsConversion s p
to_proto-IsConversion s p = (to_proto-forward s p, to_proto-backward s p)
