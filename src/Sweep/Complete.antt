-- ===== src/Sweep/Complete.antt =====
-- That the sweeper ends and leaves no listed account of an acceptance test untried.
use mathlib.Core.Path.{subst}
use mathlib.Core.List.{map, append-nil}
use vault_plugin_secrets_tem.Prelude.{
  ℕ, zero, suc, ◌≤◌, String, ◌≡◌, refl, sym, ap, ◌∙◌, inl, inr, false, Option, none, List, [], ◌∷◌,
  ◌++◌, length, arith, if◌then◌else◌, Bool-cases,
}
use vault_plugin_secrets_tem.Prelude.Text.{is_empty, has_prefix}
use vault_plugin_secrets_tem.Client.Service.{
  ProtoAccount, AsyncOperation, Page, Reply, answer, fault, CloudService,
}
use vault_plugin_secrets_tem.Client.Grpc.Paging.{IsListing, listed}
use vault_plugin_secrets_tem.Sweep.{
  acctest_prefix, Ending, finished, Sweeping, attempted, sweep_account, sweep_page, turn_page,
  sweep_pages, connected, unswept, sweep,
}

-- The accounts tried, newest first.
abbrev pub tried : {W : Type 0} → Sweeping W → List ProtoAccount
tried st = map (λ a. a.account) st.attempts

-- The accounts of acceptance tests among those listed, put before others in the order of a log.
abbrev pub targets_onto : List ProtoAccount → List ProtoAccount → List ProtoAccount
targets_onto [] log = log
targets_onto (sa ∷ sas) log =
    targets_onto sas (if has_prefix sa.spec.name acctest_prefix then sa ∷ log else log)

targets_onto-append :
    (xs ys log : List ProtoAccount)
    → targets_onto (xs ++ ys) log ≡ targets_onto ys (targets_onto xs log)
targets_onto-append [] ys log = refl
targets_onto-append (sa ∷ xs) ys log =
    targets_onto-append xs ys (if has_prefix sa.spec.name acctest_prefix then sa ∷ log else log)

module _ {W : Type 0} (svc : CloudService W) where
  attempted-tried :
      (sa : ProtoAccount) (st : Sweeping W) (made : Reply (Option AsyncOperation) × W)
      → tried (attempted svc sa st made) ≡ sa ∷ tried st
  unfolding attempted
  attempted-tried sa st (answer op, w) = refl
  attempted-tried sa st (fault e, w) = refl

  sweep_account-tried :
      (sa : ProtoAccount) (st : Sweeping W)
      → tried (sweep_account svc sa st)
        ≡ (if has_prefix sa.spec.name acctest_prefix then sa ∷ tried st else tried st)
  unfolding sweep_account
  sweep_account-tried sa st = elim (Bool-cases (has_prefix sa.spec.name acctest_prefix)) [
    | inl target ↦
        rw target (
          attempted-tried sa st
            (svc.delete_service_account none sa.id sa.resource_version st.world))
    | inr other ↦ rw other refl
  ]

  sweep_page-tried :
      (sas : List ProtoAccount) (st : Sweeping W)
      → tried (sweep_page svc sas st) ≡ targets_onto sas (tried st)
  unfolding sweep_page
  sweep_page-tried [] st = refl
  sweep_page-tried (sa ∷ sas) st =
      sweep_page-tried sas (sweep_account svc sa st)
      ∙ ap (targets_onto sas) (sweep_account-tried sa st)

  -- The command finished, with every listed target tried once, in order.
  abbrev pub Completes : List ProtoAccount → List ProtoAccount → Ending × Sweeping W → Type 0
  Completes sas log ran = ((n : ℕ) × (ran.0 ≡ finished n)) × (tried ran.1 ≡ targets_onto sas log)

  turned :
      (rest : String → Sweeping W → Ending × Sweeping W) (token : String) (st : Sweeping W)
      (page : Page ProtoAccount) (reply : Reply (Page ProtoAccount) × W)
      → reply.0 ≡ answer page
      → turn_page svc rest token st reply ≡ turn_page svc rest token st (answer page, reply.1)
  turned rest token st page reply h = ap (λ r. turn_page svc rest token st (r, reply.1)) h

  sweep_pages-Completes :
      (fuel : ℕ) (token : String) (pages : List (Page ProtoAccount)) (st : Sweeping W)
      → IsListing (svc.get_service_accounts none) token pages
      → length pages ≤ fuel
      → Completes (listed pages) (tried st) (sweep_pages svc fuel token st)
  unfolding sweep_pages turn_page
  sweep_pages-Completes fuel token [] st listing enough = absurd listing
  sweep_pages-Completes zero token (page ∷ pages) st listing enough = ground arith
  sweep_pages-Completes (suc fuel) token (page ∷ []) st (said, last) enough =
      let reply = svc.get_service_accounts none token st.world in
      let st' = sweep_page svc page.items (record st { world = reply.1 }) in
      subst (Completes (page.items ++ []) (tried st))
        (sym (turned (sweep_pages svc fuel) token st page reply (said st.world)))
        (rw last (
          (st'.swept, refl),
          sweep_page-tried page.items (record st { world = reply.1 })
              ∙ ap (λ l. targets_onto l (tried st)) (sym (append-nil page.items)),
        ))
  sweep_pages-Completes (suc fuel) token (page ∷ next ∷ pages) st (said, more, moved, rest) enough =
      let reply = svc.get_service_accounts none token st.world in
      let st' = sweep_page svc page.items (record st { world = reply.1 }) in
      let (ended, all) =
        sweep_pages-Completes fuel page.next_token (next ∷ pages) st' rest (omega arith) in
      subst (Completes (page.items ++ listed (next ∷ pages)) (tried st))
        (sym (turned (sweep_pages svc fuel) token st page reply (said st.world)))
        (rw (more, moved)
          (
            ended,
            all
                ∙ ap (targets_onto (listed (next ∷ pages)))
                    (sweep_page-tried page.items (record st { world = reply.1 }))
                ∙ sym (targets_onto-append page.items (listed (next ∷ pages)) (tried st)),
          ))

  -- With a key and a connection, where the service lists the accounts in pages whose tokens advance
  -- and end, the sweep finishes, given the fuel for as many pages, and it has asked for the delete of
  -- every listed account whose name has the prefix of acceptance tests, once each and in the order of
  -- the listing.
  pub sweep-Completes :
      (fuel : ℕ) (api_key : String) (connect : W → Option String × W) (w : W)
      (pages : List (Page ProtoAccount))
      → is_empty api_key ≡ false
      → (connect w).0 ≡ none
      → IsListing (svc.get_service_accounts none) "" pages
      → length pages ≤ fuel
      → Completes (listed pages) [] (sweep svc fuel api_key connect w)
  unfolding sweep connected
  sweep-Completes fuel api_key connect w pages full dialled listing enough = rw full (
      subst (λ c. Completes (listed pages) [] (connected svc fuel (c, (connect w).1))) (sym dialled)
        (sweep_pages-Completes fuel "" pages (unswept svc (connect w).1) listing enough))
