-- ===== src/Backend/Namespaces/Reading.antt =====
-- What a read of service-accounts/<name> returns for namespace_access can be written back.
use Prim.Native.String.{◌++◌ as str_append}
use text.Mathlib.TextLemmas.{nil-append, cons-append}
use mathlib.Core.List.{append_assoc, append-nil}
use vault_plugin_secrets_tem.Prelude.{
  String, ◌≡◌, refl, sym, ap, ◌∙◌, inl, inr, true, false, ◌||◌, some, List, [], ◌∷◌, ◌++◌, arith,
  ◌==◌, eq_iff, if◌then◌else◌, Bool-cases,
}
use vault_plugin_secrets_tem.Prelude.Text.{
  is_empty, trim_space, codes, codes_leb, insert_text, sort_texts,
}
use vault_plugin_secrets_tem.Prelude.Text.Trim.{has_code, has_code-trim_space}
use vault_plugin_secrets_tem.Prelude.Text.Split.{split-append}
use vault_plugin_secrets_tem.Client.{NamespaceAccess}
use vault_plugin_secrets_tem.Backend.Handler.{Outcome, done}
use vault_plugin_secrets_tem.Backend.Namespaces.{
  lookup, has_key, add_access, add_parts, add_pair, parse_from, parse_namespace_access,
  render_access,
}
use vault_plugin_secrets_tem.Backend.Namespaces.Valid.{
  IsPart, IsPermission, IsValid, equals_solid, has_key-append,
}

abbrev pair_of : String → String → String
pair_of namespace permission = str_append namespace (str_append "=" permission)

has_code-pair_of : (n p : String) → has_code b'=' (pair_of n p) ≡ true
unfolding has_code
has_code-pair_of String.[] p = rw (nil-append (str_append "=" p), cons-append _ String.[] p) refl
has_code-pair_of (String.◌∷◌ c n) p =
    rw (cons-append c n (str_append "=" p)) (ground (arith, has_code-pair_of n p))

empty-has_code : (s : String) → has_code b'=' s ≡ true → is_empty s ≡ false
unfolding has_code
empty-has_code String.[] h = cc
empty-has_code (String.◌∷◌ c s) h = refl

not_blank : (s : String) → has_code b'=' s ≡ true → is_empty (trim_space s) ≡ false
not_blank s h = empty-has_code (trim_space s) (has_code-trim_space b'=' equals_solid s ∙ h)

add_access-fresh :
    (m : NamespaceAccess) (pair n p : String)
    → IsPart n
    → IsPart p
    → IsPermission p
    → has_key n m ≡ false
    → add_access m pair n p ≡ done (m ++ (n, p) ∷ [])
unfolding add_access
add_access-fresh m pair n p np pp perm fresh = rw (np.full, pp.full, perm.1, fresh) refl

-- A rendered pair is read as its two parts.
add_pair-pair_of :
    (m : NamespaceAccess) (n p : String)
    → IsPart n
    → IsPart p
    → IsPermission p
    → has_key n m ≡ false
    → add_pair m (pair_of n p) ≡ done (m ++ (n, p) ∷ [])
unfolding add_pair add_parts
add_pair-pair_of m n p np pp perm fresh =
    let text = not_blank (pair_of n p) (has_code-pair_of n p) in
    let parts = split-append n p np.plain pp.plain in
    rw (text, parts)
      (rw (np.trimmed, pp.trimmed) (add_access-fresh m (pair_of n p) n p np pp perm fresh))

parse_from-done :
    (m more : NamespaceAccess) (pair : String) (pairs : List String)
    → add_pair m pair ≡ done more
    → parse_from m (pair ∷ pairs) ≡ parse_from more pairs
unfolding parse_from
parse_from-done m more pair pairs h =
    ap
      (λ (o : Outcome NamespaceAccess). elim o as (λ _. Outcome NamespaceAccess) [
        | done next ↦ parse_from next pairs
        | other ↦ other
      ])
      h

-- The namespaces of the second map are not in the first.
abbrev Apart : NamespaceAccess → NamespaceAccess → Type 0
Apart m [] = Unit
Apart m ((n, p) ∷ m') = (has_key n m ≡ false) × Apart m m'

Apart-append :
    (n p : String) (m m' : NamespaceAccess)
    → has_key n m' ≡ false
    → Apart m m'
    → Apart (m ++ (n, p) ∷ []) m'
unfolding has_key
Apart-append n p m [] fresh apart = tt
Apart-append n p m ((k, v) ∷ m') fresh (absent, apart) = (
  has_key-append k n p m ∙ ground (arith, eq_iff n k, eq_iff k n),
  Apart-append n p m m' (ground arith) apart,
)

parse_from-render_access :
    (m m' : NamespaceAccess)
    → IsValid m'
    → Apart m m'
    → parse_from m (render_access m') ≡ done (m ++ m')
unfolding parse_from render_access
parse_from-render_access m [] v apart = ap done (sym (append-nil m))
parse_from-render_access m ((n, p) ∷ m') (np, pp, perm, fresh, v) (absent, apart) =
    parse_from-done m (m ++ (n, p) ∷ []) (pair_of n p) (render_access m')
      (add_pair-pair_of m n p np pp perm absent)
    ∙ parse_from-render_access (m ++ (n, p) ∷ []) m' v (Apart-append n p m m' fresh apart)
    ∙ ap done (append_assoc m ((n, p) ∷ []) m')

Apart-nil : (m : NamespaceAccess) → Apart [] m
unfolding has_key
Apart-nil [] = tt
Apart-nil ((n, p) ∷ m) = (refl, Apart-nil m)

parse-render_access :
    (m : NamespaceAccess) → IsValid m → parse_namespace_access (render_access m) ≡ done m
unfolding parse_namespace_access
parse-render_access m v = parse_from-render_access [] m v (Apart-nil m)

-- The order of the texts of a read, on the map itself.
insert_access : String → String → NamespaceAccess → NamespaceAccess
insert_access n p [] = (n, p) ∷ []
insert_access n p ((k, v) ∷ m) =
    let rest = insert_access n p m in
    if codes_leb (codes (pair_of n p)) (codes (pair_of k v))
    then (n, p) ∷ (k, v) ∷ m
    else (k, v) ∷ rest

unfoldable pub sort_access : NamespaceAccess → NamespaceAccess
unfolding insert_access
sort_access [] = []
sort_access ((n, p) ∷ m) = insert_access n p (sort_access m)

render-insert_access :
    (n p : String) (m : NamespaceAccess)
    → render_access (insert_access n p m) ≡ insert_text (pair_of n p) (render_access m)
unfolding render_access insert_access insert_text
render-insert_access n p [] = refl
render-insert_access n p ((k, v) ∷ m) =
    elim (Bool-cases (codes_leb (codes (pair_of n p)) (codes (pair_of k v)))) [
      | inl before ↦ rw before refl
      | inr after ↦
          rw after (ap (λ (l : List String). pair_of k v ∷ l) (render-insert_access n p m))
    ]

render-sort_access :
    (m : NamespaceAccess) → render_access (sort_access m) ≡ sort_texts (render_access m)
unfolding render_access sort_access sort_texts
render-sort_access [] = refl
render-sort_access ((n, p) ∷ m) =
    render-insert_access n p (sort_access m) ∙ ap (insert_text (pair_of n p)) (render-sort_access m)

has_key-insert_access :
    (k n p : String) (m : NamespaceAccess)
    → has_key k (insert_access n p m) ≡ (n == k || has_key k m)
unfolding has_key insert_access
has_key-insert_access k n p [] = refl
has_key-insert_access k n p ((j, v) ∷ m) = ground (arith, has_key-insert_access k n p m)

lookup-insert_access :
    (k n p : String) (m : NamespaceAccess)
    → has_key n m ≡ false
    → lookup k (insert_access n p m) ≡ lookup k ((n, p) ∷ m)
unfolding lookup has_key insert_access
lookup-insert_access k n p [] fresh = refl
lookup-insert_access k n p ((j, v) ∷ m) fresh =
    ground (arith, eq_iff j n, eq_iff j k, eq_iff n k, lookup-insert_access k n p m)

insert_access-IsValid :
    (n p : String) (m : NamespaceAccess)
    → IsPart n
    → IsPart p
    → IsPermission p
    → has_key n m ≡ false
    → IsValid m
    → IsValid (insert_access n p m)
unfolding insert_access has_key
insert_access-IsValid n p [] np pp perm fresh v = (np, pp, perm, refl, tt)
insert_access-IsValid n p ((k, w) ∷ m) np pp perm fresh (kp, wp, kperm, kfresh, v) =
    elim (Bool-cases (codes_leb (codes (pair_of n p)) (codes (pair_of k w)))) [
      | inl before ↦ rw before (np, pp, perm, fresh, (kp, wp, kperm, kfresh, v))
      | inr after ↦ rw after (
        kp,
        wp,
        kperm,
        has_key-insert_access k n p m ∙ ground (arith, eq_iff n k, eq_iff k n),
        insert_access-IsValid n p m np pp perm (ground arith) v,
      )
    ]

-- Sorting keeps what the map holds.
sort_keys :
    (k : String) (m : NamespaceAccess)
    → IsValid m
    → (has_key k (sort_access m) ≡ has_key k m) × (lookup k (sort_access m) ≡ lookup k m)
unfolding sort_access has_key lookup
sort_keys k [] v = (refl, refl)
sort_keys k ((n, p) ∷ m) (np, pp, perm, fresh, v) =
    let (keys, values) = sort_keys k m v in
    let (own, _) = sort_keys n m v in
    (
      has_key-insert_access k n p (sort_access m) ∙ ap (λ u. n == k || u) keys,
      lookup-insert_access k n p (sort_access m) (own ∙ fresh)
          ∙ ap (λ u. if n == k then some p else u) values,
    )

sort_access-IsValid : (m : NamespaceAccess) → IsValid m → IsValid (sort_access m)
unfolding sort_access
sort_access-IsValid [] v = tt
sort_access-IsValid ((n, p) ∷ m) (np, pp, perm, fresh, v) =
    insert_access-IsValid n p (sort_access m) np pp perm ((sort_keys n m v).0 ∙ fresh)
      (sort_access-IsValid m v)

-- For a map of valid and distinct namespaces, the sorted texts that a read returns are accepted when
-- they are written back, and the map they give holds for every namespace the permission that the
-- first map holds, and no other namespace.
pub parse_namespace_access-render_access :
    (m : NamespaceAccess)
    → IsValid m
    → (more : NamespaceAccess) × (parse_namespace_access (sort_texts (render_access m)) ≡ done more)
      × IsValid more
      × ((k : String) → lookup k more ≡ lookup k m)
parse_namespace_access-render_access m v = (
  sort_access m,
  ap parse_namespace_access (sym (render-sort_access m))
      ∙ parse-render_access (sort_access m) (sort_access-IsValid m v),
  sort_access-IsValid m v,
  λ k. (sort_keys k m v).1,
)
