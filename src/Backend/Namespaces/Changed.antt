-- ===== src/Backend/Namespaces/Changed.antt =====
-- cloudSpecChanged of path_service_accounts.go against the comparison it stands for.
use mathlib.Core.Path.{subst}
use vault_plugin_secrets_tem.Prelude.{
  String, ◌≡◌, ◌↔◌, refl, sym, ap, ◌∙◌, inl, inr, true, false, Option, none, some, [], ◌∷◌, arith,
  suc, ◌≤◌, length, ◌==◌, eq_iff, if◌then◌else◌, Bool-cases,
}
use vault_plugin_secrets_tem.Prelude.Text.{is_empty}
use vault_plugin_secrets_tem.Client.{NamespaceAccess}
use vault_plugin_secrets_tem.Backend.Entries.{ServiceAccountEntry}
use vault_plugin_secrets_tem.Backend.Namespaces.{lookup, has_key, any_differs, cloud_spec_changed}
use vault_plugin_secrets_tem.Backend.Namespaces.Valid.{IsValid}

abbrev IsWithin : NamespaceAccess → NamespaceAccess → Type 0
IsWithin m m' = (k p : String) → lookup k m ≡ some p → lookup k m' ≡ some p

abbrev IsSame : NamespaceAccess → NamespaceAccess → Type 0
IsSame m m' = (k : String) → lookup k m ≡ lookup k m'

-- The map without the first pair of a key.
remove : String → NamespaceAccess → NamespaceAccess
remove k [] = []
remove k ((j, v) ∷ m) = let rest = remove k m in if j == k then m else (j, v) ∷ rest

length-remove :
    (k p : String) (m : NamespaceAccess)
    → lookup k m ≡ some p
    → length m ≡ suc (length (remove k m))
unfolding lookup remove
length-remove k p [] h = cc
length-remove k p ((j, v) ∷ m) h = elim (Bool-cases (j == k)) [
  | inl same ↦ rw same refl
  | inr other ↦ rw other (ap suc (length-remove k p m (rw other at h)))
]

lookup-remove :
    (k j : String) (m : NamespaceAccess) → (k == j) ≡ false → lookup j (remove k m) ≡ lookup j m
unfolding lookup remove
lookup-remove k j [] other = refl
lookup-remove k j ((i, v) ∷ m) other =
    ground (arith, eq_iff i k, eq_iff i j, eq_iff k j, lookup-remove k j m other)

lookup-fresh : (k : String) (m : NamespaceAccess) → has_key k m ≡ false → lookup k m ≡ none
unfolding lookup has_key
lookup-fresh k [] h = refl
lookup-fresh k ((j, v) ∷ m) h = ground (arith, lookup-fresh k m)

-- A key of the rest is not the fresh key before it.
apart :
    (n k p : String) (m : NamespaceAccess)
    → has_key n m ≡ false
    → lookup k m ≡ some p
    → (n == k) ≡ false
apart n k p m fresh found = ground (arith, eq_iff n k, lookup-fresh n m fresh)

IsWithin-remove :
    (n p : String) (m m' : NamespaceAccess)
    → has_key n m ≡ false
    → IsWithin ((n, p) ∷ m) m'
    → IsWithin m (remove n m')
unfolding lookup
IsWithin-remove n p m m' fresh within k q found =
    let other = apart n k q m fresh found in
    lookup-remove n k m' other ∙ within k q (rw other found)

IsWithin-here :
    (n p : String) (m m' : NamespaceAccess) → IsWithin ((n, p) ∷ m) m' → lookup n m' ≡ some p
unfolding lookup
IsWithin-here n p m m' within = within n p (ground (arith, eq_iff n n))

IsWithin-rest :
    (n p : String) (m m' : NamespaceAccess)
    → has_key n m ≡ false
    → IsWithin ((n, p) ∷ m) m'
    → IsWithin m m'
unfolding lookup
IsWithin-rest n p m m' fresh within k q found = within k q (rw (apart n k q m fresh found) found)

-- Of two maps with each key once, the one within the other is not longer.
length-IsWithin : (m m' : NamespaceAccess) → IsValid m → IsWithin m m' → length m ≤ length m'
length-IsWithin [] m' v within = omega arith
length-IsWithin ((n, p) ∷ m) m' (np, pp, perm, fresh, v) within =
    let shorter = length-remove n p m' (IsWithin-here n p m m' within) in
    let rest = length-IsWithin m (remove n m') v (IsWithin-remove n p m m' fresh within) in
    omega arith

-- And it is the same map when it is as long.
IsWithin-IsSame :
    (m m' : NamespaceAccess) → IsValid m → IsWithin m m' → length m ≡ length m' → IsSame m m'
unfolding lookup
IsWithin-IsSame [] [] v within long k = refl
IsWithin-IsSame [] (x ∷ m') v within long k = cc
IsWithin-IsSame ((n, p) ∷ m) m' (np, pp, perm, fresh, v) within long k =
    let found = IsWithin-here n p m m' within in
    let shorter = length-remove n p m' found in
    let rest =
      IsWithin-IsSame m (remove n m') v (IsWithin-remove n p m m' fresh within) (omega arith) k in
    elim (Bool-cases (n == k)) [
      | inl same ↦ ground (arith, eq_iff n k)
      | inr other ↦ rw other (rest ∙ lookup-remove n k m' other)
    ]

read_some :
    (found : Option String) (p : String)
    → is_empty p ≡ false
    → ((elim found [ none ↦ "" | some v ↦ v ]) == p) ≡ true
    → found ≡ some p
read_some none p full h =
    let same : "" ≡ p = ground (arith, eq_iff "" p) in
    let blank : is_empty "" ≡ false = subst (λ t. is_empty t ≡ false) (sym same) full in cc
read_some (some v) p full h = ap some (ground (arith, eq_iff v p))

some_read :
    (found : Option String) (p : String)
    → found ≡ some p
    → ((elim found [ none ↦ "" | some v ↦ v ]) == p) ≡ true
some_read none p h = cc
some_read (some v) p h = let same : v ≡ p = cc in ground (arith, eq_iff v p)

any_differs-IsWithin :
    (old new : NamespaceAccess) → IsValid new → any_differs old new ≡ false → IsWithin new old
unfolding any_differs lookup
any_differs-IsWithin old [] v h k q found = cc
any_differs-IsWithin old ((n, p) ∷ m) (np, pp, perm, fresh, v) h k q found =
    let here = read_some (lookup n old) p pp.full (ground arith) in
    let rest = any_differs-IsWithin old m v (ground arith) k q in ground (arith, eq_iff n k)

IsWithin-any_differs :
    (old new : NamespaceAccess) → IsValid new → IsWithin new old → any_differs old new ≡ false
unfolding any_differs
IsWithin-any_differs old [] v within = refl
IsWithin-any_differs old ((n, p) ∷ m) (np, pp, perm, fresh, v) within =
    let found = IsWithin-here n p m old within in
    let rest = IsWithin-any_differs old m v (IsWithin-rest n p m old fresh within) in
    let equal = some_read (lookup n old) p found in ground (arith, equal, rest)

-- Two specs are the same when the role, the description and every permission are.
pub record IsSameSpec (old new : ServiceAccountEntry) : Type 0 where
  pub same_role : old.account_role ≡ new.account_role
  pub same_description : old.description ≡ new.description
  pub same_access : IsSame old.namespace_access new.namespace_access

cloud_spec_changed-IsSameSpec :
    (old new : ServiceAccountEntry)
    → IsValid new.namespace_access
    → cloud_spec_changed old new ≡ false
    → IsSameSpec old new
unfolding cloud_spec_changed
cloud_spec_changed-IsSameSpec old new v h =
    let within = any_differs-IsWithin old.namespace_access new.namespace_access v (ground arith) in
    let long : length new.namespace_access ≡ length old.namespace_access = ground arith in
    record {
      same_role = ground (arith, eq_iff old.account_role new.account_role);
      same_description = ground (arith, eq_iff old.description new.description);
      same_access =
          λ k. sym (IsWithin-IsSame new.namespace_access old.namespace_access v within long k);
    }

IsSameSpec-cloud_spec_changed :
    (old new : ServiceAccountEntry)
    → IsValid old.namespace_access
    → IsValid new.namespace_access
    → IsSameSpec old new
    → cloud_spec_changed old new ≡ false
unfolding cloud_spec_changed
IsSameSpec-cloud_spec_changed old new v v' same =
    let there : IsWithin old.namespace_access new.namespace_access =
      λ k q found. sym (same.same_access k) ∙ found in
    let back : IsWithin new.namespace_access old.namespace_access =
      λ k q found. same.same_access k ∙ found in
    let shorter = length-IsWithin old.namespace_access new.namespace_access v there in
    let longer = length-IsWithin new.namespace_access old.namespace_access v' back in
    let rest = IsWithin-any_differs old.namespace_access new.namespace_access v' back in
    let role = same.same_role in
    let description = same.same_description in
    rw rest (
      ground
        (arith, eq_iff old.account_role new.account_role, eq_iff old.description new.description))

-- For entries whose maps are valid, the spec counts as unchanged exactly when the roles are equal,
-- the descriptions are equal, and the two maps give the same permission for every namespace.
pub cloud_spec_changed_lem :
    (old new : ServiceAccountEntry)
    → IsValid old.namespace_access
    → IsValid new.namespace_access
    → cloud_spec_changed old new ≡ false ↔ IsSameSpec old new
cloud_spec_changed_lem old new v v' =
    (cloud_spec_changed-IsSameSpec old new v', IsSameSpec-cloud_spec_changed old new v v')
