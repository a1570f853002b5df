-- ===== src/Backend/Namespaces/Valid.antt =====
-- What parseNamespaceAccess accepts.
use mathlib.Core.Path.{subst}
use vault_plugin_secrets_tem.Prelude.{
  String, ◌≡◌, refl, ◌∙◌, inl, inr, Bool, true, false, ◌||◌, List, [], ◌∷◌, ◌++◌, arith, ◌==◌,
  eq_iff, if◌then◌else◌, All, Bool-cases,
}
use vault_plugin_secrets_tem.Prelude.Text.{is_empty, is_space, trim_space, split}
use vault_plugin_secrets_tem.Prelude.Text.Trim.{
  has_code, has_code-trim_space, trim_space-trim_space,
}
use vault_plugin_secrets_tem.Prelude.Text.Split.{split-All-has_code}
use vault_plugin_secrets_tem.Exec.{Result, ok, err}
use vault_plugin_secrets_tem.Client.{NamespaceAccess}
use vault_plugin_secrets_tem.Client.Service.{Permission}
use vault_plugin_secrets_tem.Client.Access.{parse_namespace_permission}
use vault_plugin_secrets_tem.Backend.Handler.{
  Outcome, done, rejected, failed, empty_entry_namespace, empty_entry_permission,
  bad_entry_permission, duplicate_namespace,
}
use vault_plugin_secrets_tem.Backend.Namespaces.{
  has_key, add_access, add_parts, add_pair, parse_from, parse_namespace_access,
}

-- One of the two texts of a pair: not empty, with no white space round it and no equals sign.
pub record IsPart (s : String) : Type 0 where
  pub full : is_empty s ≡ false
  pub trimmed : trim_space s ≡ s
  pub plain : has_code b'=' s ≡ false

abbrev pub IsPermission : String → Type 0
IsPermission s = (p : Permission) × (parse_namespace_permission s ≡ ok p)

-- A map that the operator may ask for: parts, permissions that parse, and each namespace once.
abbrev pub IsValid : NamespaceAccess → Type 0
IsValid [] = Unit
IsValid ((namespace, permission) ∷ m) =
    IsPart namespace
    × IsPart permission
    × IsPermission permission
    × (has_key namespace m ≡ false)
    × IsValid m

pub equals_solid : is_space b'=' ≡ false
unfolding is_space
equals_solid = refl

trimmed-IsPart :
    (s : String) → has_code b'=' s ≡ false → is_empty (trim_space s) ≡ false → IsPart (trim_space s)
trimmed-IsPart s plain full = record {
  full = full;
  trimmed = trim_space-trim_space s;
  plain = has_code-trim_space b'=' equals_solid s ∙ plain;
}

pub has_key-append :
    (k namespace permission : String) (m : NamespaceAccess)
    → has_key k (m ++ (namespace, permission) ∷ []) ≡ (has_key k m || namespace == k)
unfolding has_key
has_key-append k namespace permission [] = ground arith
has_key-append k namespace permission ((j, v) ∷ m) =
    ground (arith, has_key-append k namespace permission m)

append-IsValid :
    (m : NamespaceAccess) (namespace permission : String)
    → IsValid m
    → IsPart namespace
    → IsPart permission
    → IsPermission permission
    → has_key namespace m ≡ false
    → IsValid (m ++ (namespace, permission) ∷ [])
unfolding has_key
append-IsValid [] namespace permission v n p perm fresh = (n, p, perm, refl, tt)
append-IsValid ((j, w) ∷ m) namespace permission (jn, jp, jperm, jfresh, v) n p perm fresh = (
  jn,
  jp,
  jperm,
  has_key-append j namespace permission m ∙ ground (arith, eq_iff namespace j, eq_iff j namespace),
  append-IsValid m namespace permission v n p perm (ground arith),
)

-- The checks of one round, by their results.
checked :
    (nameless powerless seen : Bool) (parsed : Result Permission) (m : NamespaceAccess)
    (pair namespace permission : String) (more : NamespaceAccess)
    → ◌≡◌ {A = Outcome NamespaceAccess}
        (if nameless
          then rejected (empty_entry_namespace pair)
          else if powerless
          then rejected (empty_entry_permission pair)
          else elim parsed [
            | err e ↦ rejected (bad_entry_permission pair e)
            | ok _ ↦
                if seen
                then rejected (duplicate_namespace namespace)
                else done (m ++ (namespace, permission) ∷ [])
          ])
        (done more)
    → (nameless ≡ false)
      × (powerless ≡ false)
      × ((p : Permission) × (parsed ≡ ok p))
      × (seen ≡ false)
      × (more ≡ m ++ (namespace, permission) ∷ [])
checked false false false (ok p) m pair namespace permission more h =
    (refl, refl, (p, refl), refl, cc)
checked true powerless seen parsed m pair namespace permission more h = cc
checked false true seen parsed m pair namespace permission more h = cc
checked false false seen (err e) m pair namespace permission more h = cc
checked false false true (ok p) m pair namespace permission more h = cc

add_access-IsValid :
    (m : NamespaceAccess) (pair namespace permission : String) (more : NamespaceAccess)
    → IsValid m
    → has_code b'=' namespace ≡ false
    → has_code b'=' permission ≡ false
    → add_access m pair (trim_space namespace) (trim_space permission) ≡ done more
    → IsValid more
unfolding add_access
add_access-IsValid m pair namespace permission more v plain plain' h =
    let n = trim_space namespace in
    let p = trim_space permission in
    let (full, full', perm, fresh, same) =
      checked (is_empty n) (is_empty p) (has_key n m) (parse_namespace_permission p) m pair n p more
        h in
    rw same (
      append-IsValid m n p v (trimmed-IsPart namespace plain full)
        (trimmed-IsPart permission plain' full') perm fresh)

add_parts-IsValid :
    (m : NamespaceAccess) (pair : String) (parts : List String) (more : NamespaceAccess)
    → IsValid m
    → All (λ t. has_code b'=' t ≡ false) parts
    → add_parts m pair parts ≡ done more
    → IsValid more
unfolding add_parts
add_parts-IsValid m pair (namespace ∷ permission ∷ []) more v plain h =
    add_access-IsValid m pair namespace permission more v plain.0 plain.1.0 h
add_parts-IsValid m pair [] more v plain h = cc
add_parts-IsValid m pair (x ∷ []) more v plain h = cc
add_parts-IsValid m pair (x ∷ y ∷ z ∷ parts) more v plain h = cc

add_pair-IsValid :
    (m : NamespaceAccess) (pair : String) (more : NamespaceAccess)
    → IsValid m
    → add_pair m pair ≡ done more
    → IsValid more
unfolding add_pair
add_pair-IsValid m pair more v h = elim (Bool-cases (is_empty (trim_space pair))) [
  | inl blank ↦ let same : m ≡ more = cc (rw blank at h) in subst IsValid same v
  | inr text ↦
      add_parts-IsValid m pair (split b'=' pair) more v (split-All-has_code b'=' pair)
        (rw text at h)
]

parsed_step :
    (o : Outcome NamespaceAccess) (pairs : List String) (more : NamespaceAccess)
    → ◌≡◌ {A = Outcome NamespaceAccess}
        (elim o [ done some_more ↦ parse_from some_more pairs | other ↦ other ])
        (done more)
    → (next : NamespaceAccess) × (o ≡ done next) × (parse_from next pairs ≡ done more)
parsed_step (done next) pairs more h = (next, refl, h)
parsed_step (rejected x) pairs more h = cc
parsed_step (failed x) pairs more h = cc

parse_from-IsValid :
    (m : NamespaceAccess) (pairs : List String) (more : NamespaceAccess)
    → IsValid m
    → parse_from m pairs ≡ done more
    → IsValid more
unfolding parse_from
parse_from-IsValid m [] more v h = subst IsValid {x = m} {y = more} (cc) v
parse_from-IsValid m (pair ∷ pairs) more v h =
    let (next, added, rest) = parsed_step (add_pair m pair) pairs more h in
    parse_from-IsValid next pairs more (add_pair-IsValid m pair next v added) rest

-- A map that is accepted holds each namespace once; its namespaces and permissions are not empty,
-- have no white space round them and no equals sign in them; and its permissions parse.
pub parse_namespace_access-IsValid :
    (pairs : List String) (m : NamespaceAccess) → parse_namespace_access pairs ≡ done m → IsValid m
unfolding parse_namespace_access
parse_namespace_access-IsValid pairs m h = parse_from-IsValid [] pairs m tt h
