-- ===== src/Client/Grpc/Paging.antt =====
-- The loops over pages of client/grpc.go, against the listing as a whole.
use vault_plugin_secrets_tem.Prelude.{
  ℕ, zero, suc, ◌+◌, ◌≤◌, String, ◌≡◌, refl, sym, ap, ◌∙◌, true, false, Option, none, some, List,
  [], ◌∷◌, ◌++◌, inl, inr, Bool-cases, length, ◌==◌, arith, if◌then◌else◌,
}
use vault_plugin_secrets_tem.Prelude.Text.{is_empty}
use vault_plugin_secrets_tem.Exec.{Result, ok, err, Exec, ◌>>=◌, continue, raise, pure, Context}
use vault_plugin_secrets_tem.Client.Errors.{
  error, not_found, unavailable, no_account_named, page_token_stuck,
}
use vault_plugin_secrets_tem.Client.{ServiceAccount}
use vault_plugin_secrets_tem.Client.Service.{
  Role, Permission, ProtoAccount, Page, Reply, answer, CloudService,
}
use vault_plugin_secrets_tem.Client.Grpc.{
  call, mapped, count_pages, count_api_keys, find_in_page, find_pages, find_service_account_by_name,
}

-- A listing that ends: whenever it is asked for a token, it answers with the page that stands there,
-- each page but the last names the next one, by another token than its own, and the last names none.
abbrev pub IsListing :
    {W A : Type 0} → (String → W → Reply (Page A) × W) → String → List (Page A) → Type 0
IsListing get token [] = ⊥
IsListing get token (page ∷ []) =
    ((w : _) → (get token w).0 ≡ answer page) × (is_empty page.next_token ≡ true)
IsListing get token (page ∷ next ∷ pages) =
    ((w : _) → (get token w).0 ≡ answer page)
    × (is_empty page.next_token ≡ false)
    × ((page.next_token == token) ≡ false)
    × IsListing get page.next_token (next ∷ pages)

abbrev pub total : {A : Type 0} → List (Page A) → ℕ
total [] = 0
total (page ∷ pages) = length page.items + total pages

-- The accounts of all pages, in order.
abbrev pub listed : {A : Type 0} → List (Page A) → List A
listed [] = []
listed (page ∷ pages) = page.items ++ listed pages

answered :
    {W A B : Type 0} (m : W → Reply A × W) (f : A → Exec W B) (a : A) (w : W)
    → (m w).0 ≡ answer a
    → (call m >>= f) w ≡ f a (m w).1
answered m f a w h = ap (λ r. continue (mapped r) f (m w).1) h

module _ {W : Type 0} (svc : CloudService W) where
  count_pages-total :
      (fuel : ℕ) (ctx : Context) (id : String) (count : ℕ) (token : String)
      (pages : List (Page String)) (w : W)
      → IsListing (svc.get_api_keys ctx id) token pages
      → length pages ≤ fuel
      → (count_pages svc fuel ctx id count token w).0 ≡ ok (count + total pages)
  unfolding count_pages
  count_pages-total fuel ctx id count token [] w listing enough = absurd listing
  count_pages-total zero ctx id count token (page ∷ pages) w listing enough = ground arith
  count_pages-total (suc fuel) ctx id count token (page ∷ []) w (said, last) enough =
      ap (λ u. u.0) (answered (svc.get_api_keys ctx id token) _ page w (said w))
      ∙ rw last (ap ok (omega arith))
  count_pages-total (suc fuel) ctx id count token (page ∷ next ∷ pages) w (said, more, moved, rest)
        enough =
      ap (λ u. u.0) (answered (svc.get_api_keys ctx id token) _ page w (said w))
      ∙ rw (more, moved)
          (count_pages-total fuel ctx id (count + length page.items) page.next_token (next ∷ pages)
              (svc.get_api_keys ctx id token w).1 rest (omega arith)
            ∙ ap ok (omega arith))

  -- Where the service lists a service account's keys in pages whose tokens advance and end, the count
  -- is the number of keys on all pages, given the fuel for as many pages.
  pub count_api_keys-total :
      (fuel : ℕ) (ctx : Context) (id : String) (pages : List (Page String)) (w : W)
      → IsListing (svc.get_api_keys ctx id) "" pages
      → length pages ≤ fuel
      → (count_api_keys svc fuel ctx id w).0 ≡ ok (total pages)
  unfolding count_api_keys
  count_api_keys-total fuel ctx id pages w listing enough =
      count_pages-total fuel ctx id 0 "" pages w listing enough ∙ ap ok (omega arith)

  module _ (show_role : Role → String) (show_permission : Permission → String) where
    find_in_page-append :
        (name : String) (xs ys : List ProtoAccount)
        → find_in_page show_role show_permission name xs ≡ none
        → find_in_page show_role show_permission name (xs ++ ys)
          ≡ find_in_page show_role show_permission name ys
    unfolding find_in_page
    find_in_page-append name [] ys h = refl
    find_in_page-append name (sa ∷ xs) ys h = elim (Bool-cases (sa.spec.name == name)) [
      | inl same ↦ let no : some _ ≡ none = rw same at h in cc
      | inr other ↦ rw other (find_in_page-append name xs ys (rw other at h))
    ]

    find_in_page-found :
        (name : String) (xs ys : List ProtoAccount) (sa : ServiceAccount)
        → find_in_page show_role show_permission name xs ≡ some sa
        → find_in_page show_role show_permission name (xs ++ ys) ≡ some sa
    unfolding find_in_page
    find_in_page-found name [] ys found h = cc
    find_in_page-found name (sa ∷ xs) ys found h = elim (Bool-cases (sa.spec.name == name)) [
      | inl same ↦ rw same (rw same at h)
      | inr other ↦ rw other (find_in_page-found name xs ys found (rw other at h))
    ]

    -- What the search over the whole listing gives.
    abbrev pub sought : String → List ProtoAccount → Result ServiceAccount
    sought name sas = elim (find_in_page show_role show_permission name sas) [
      | some sa ↦ ok sa
      | none ↦ err (error not_found (no_account_named name))
    ]

    abbrev unfound : String → String → String → Exec W ServiceAccount → Exec W ServiceAccount
    unfound name token next rest =
        if is_empty next
        then raise (error not_found (no_account_named name))
        else if next == token
        then raise (error unavailable page_token_stuck)
        else rest

    chosen :
        (found : Option ServiceAccount) (name : String) (rest : List ProtoAccount)
        (none_here : Exec W ServiceAccount) (w : W)
        → ((found ≡ none) → (none_here w).0 ≡ sought name rest)
        → ((sa : ServiceAccount) → found ≡ some sa → sought name rest ≡ ok sa)
        → (◌≡◌ {A = Result ServiceAccount}
            ((elim found as (λ _. Exec W ServiceAccount) [ some sa ↦ pure sa | none ↦ none_here ])
              w).0
            (sought name rest))
    chosen none name rest none_here w absent present = absent refl
    chosen (some sa) name rest none_here w absent present = sym (present sa refl)

    pub found-sought :
        (name : String) (found : Option ServiceAccount) (sas : List ProtoAccount)
        → find_in_page show_role show_permission name sas ≡ found
        → sought name sas ≡ elim found as (λ _. Result ServiceAccount) [
          | some sa ↦ ok sa
          | none ↦ err (error not_found (no_account_named name))
        ]
    found-sought name found sas h =
        ap
          (λ u. elim u as (λ _. Result ServiceAccount) [
            | some sa ↦ ok sa
            | none ↦ err (error not_found (no_account_named name))
          ])
          h

    find_pages-sought :
        (fuel : ℕ) (ctx : Context) (name token : String) (pages : List (Page ProtoAccount)) (w : W)
        → IsListing (svc.get_service_accounts ctx) token pages
        → length pages ≤ fuel
        → (find_pages svc show_role show_permission fuel ctx name token w).0
          ≡ sought name (listed pages)
    unfolding find_pages
    find_pages-sought fuel ctx name token [] w listing enough = absurd listing
    find_pages-sought zero ctx name token (page ∷ pages) w listing enough = ground arith
    find_pages-sought (suc fuel) ctx name token (page ∷ []) w (said, last) enough =
        ap (λ u. u.0) (answered (svc.get_service_accounts ctx token) _ page w (said w))
        ∙ chosen (find_in_page show_role show_permission name page.items) name (page.items ++ [])
            (unfound name token page.next_token
              (find_pages svc show_role show_permission fuel ctx name page.next_token))
            (svc.get_service_accounts ctx token w).1
            (λ absent. rw last (
              sym (
                found-sought name none (page.items ++ [])
                  (find_in_page-append name page.items [] absent ∙ (unfold find_in_page in refl)))))
            (λ sa present.
              found-sought name (some sa) (page.items ++ [])
                (find_in_page-found name page.items [] sa present))
    find_pages-sought (suc fuel) ctx name token (page ∷ next ∷ pages) w (said, more, moved, rest)
          enough =
        ap (λ u. u.0) (answered (svc.get_service_accounts ctx token) _ page w (said w))
        ∙ chosen (find_in_page show_role show_permission name page.items) name
            (page.items ++ listed (next ∷ pages))
            (unfound name token page.next_token
              (find_pages svc show_role show_permission fuel ctx name page.next_token))
            (svc.get_service_accounts ctx token w).1
            (λ absent.
              rw (more, moved)
                (find_pages-sought fuel ctx name page.next_token (next ∷ pages)
                    (svc.get_service_accounts ctx token w).1 rest (omega arith)
                  ∙ sym (
                      found-sought name _ (page.items ++ listed (next ∷ pages))
                        (find_in_page-append name page.items (listed (next ∷ pages)) absent))))
            (λ sa present.
              found-sought name (some sa) _
                (find_in_page-found name page.items (listed (next ∷ pages)) sa present))

    -- The search over pages gives what the scan of the whole listing gives.
    pub find_service_account_by_name-sought :
        (fuel : ℕ) (ctx : Context) (name : String) (pages : List (Page ProtoAccount)) (w : W)
        → IsListing (svc.get_service_accounts ctx) "" pages
        → length pages ≤ fuel
        → (find_service_account_by_name svc show_role show_permission fuel ctx name w).0
          ≡ sought name (listed pages)
    unfolding find_service_account_by_name
    find_service_account_by_name-sought fuel ctx name pages w listing enough =
        find_pages-sought fuel ctx name "" pages w listing enough
