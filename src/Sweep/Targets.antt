-- ===== src/Sweep/Targets.antt =====
-- What the sweeper deletes: accounts of acceptance tests alone, and all that are listed.
use vault_plugin_secrets_tem.Prelude.{
  ℕ, zero, suc, ◌+◌, String, ◌≡◌, refl, inl, inr, true, Option, none, some, List, [], ◌∷◌, ◌==◌,
  arith, if◌then◌else◌, All, Bool-cases, is_some,
}
use vault_plugin_secrets_tem.Prelude.Text.{is_empty, has_prefix}
use vault_plugin_secrets_tem.Client.Service.{
  ProtoAccount, AsyncOperation, Page, Reply, answer, fault, CloudService,
}
use vault_plugin_secrets_tem.Sweep.{
  acctest_prefix, Attempt, Ending, Sweeping, attempted, sweep_account, sweep_page, turn_page,
  sweep_pages, connected, unswept, sweep,
}

abbrev pub IsTarget : ProtoAccount → Type 0
IsTarget sa = has_prefix sa.spec.name acctest_prefix ≡ true

-- The attempts without an error.
abbrev pub successes : List Attempt → ℕ
successes [] = 0
successes (a ∷ rest) = (if is_some a.failure then 0 else 1) + successes rest

-- Only accounts of acceptance tests were deleted, and the count is that of the deletes that worked.
pub record IsCareful {W : Type 0} (st : Sweeping W) : Type 0 where
  pub targets : All (λ a. IsTarget a.account) st.attempts
  pub counted : st.swept ≡ successes st.attempts

module _ {W : Type 0} (svc : CloudService W) where
  attempted-IsCareful :
      (sa : ProtoAccount) (st : Sweeping W) (made : Reply (Option AsyncOperation) × W)
      → IsTarget sa
      → IsCareful st
      → IsCareful (attempted svc sa st made)
  unfolding attempted
  attempted-IsCareful sa st (answer op, w) target careful = record {
    targets = (target, careful.targets);
    counted = let counted = careful.counted in omega arith;
  }
  attempted-IsCareful sa st (fault e, w) target careful = record {
    targets = (target, careful.targets);
    counted = let counted = careful.counted in omega arith;
  }

  sweep_account-IsCareful :
      (sa : ProtoAccount) (st : Sweeping W) → IsCareful st → IsCareful (sweep_account svc sa st)
  unfolding sweep_account
  sweep_account-IsCareful sa st careful =
      elim (Bool-cases (has_prefix sa.spec.name acctest_prefix)) [
        | inl target ↦ rw target (
            attempted-IsCareful sa st
              (svc.delete_service_account none sa.id sa.resource_version st.world) target careful)
        | inr other ↦ rw other careful
      ]

  sweep_page-IsCareful :
      (sas : List ProtoAccount) (st : Sweeping W) → IsCareful st → IsCareful (sweep_page svc sas st)
  unfolding sweep_page
  sweep_page-IsCareful [] st careful = careful
  sweep_page-IsCareful (sa ∷ sas) st careful =
      sweep_page-IsCareful sas (sweep_account svc sa st) (sweep_account-IsCareful sa st careful)

  turn_page-IsCareful :
      (rest : String → Sweeping W → Ending × Sweeping W) (token : String) (st : Sweeping W)
      (reply : Reply (Page ProtoAccount) × W)
      → ((t : String) (st' : Sweeping W) → IsCareful st' → IsCareful (rest t st').1)
      → IsCareful st
      → IsCareful (turn_page svc rest token st reply).1
  unfolding turn_page
  turn_page-IsCareful rest token st (fault e, w) next careful = record {
    targets = careful.targets;
    counted = careful.counted;
  }
  turn_page-IsCareful rest token st (answer page, w) next careful =
      let page_careful =
        sweep_page-IsCareful page.items (record st { world = w })
          (record { targets = careful.targets; counted = careful.counted }) in
      elim (Bool-cases (is_empty page.next_token)) [
        | inl last ↦ rw last page_careful
        | inr more ↦ elim (Bool-cases (page.next_token == token)) [
          | inl stuck ↦ rw (more, stuck) page_careful
          | inr moved ↦ rw (more, moved) (next page.next_token _ page_careful)
        ]
      ]

  sweep_pages-IsCareful :
      (fuel : ℕ) (token : String) (st : Sweeping W)
      → IsCareful st
      → IsCareful (sweep_pages svc fuel token st).1
  unfolding sweep_pages
  sweep_pages-IsCareful zero token st careful = careful
  sweep_pages-IsCareful (suc fuel) token st careful =
      turn_page-IsCareful (sweep_pages svc fuel) token st
        (svc.get_service_accounts none token st.world) (sweep_pages-IsCareful fuel) careful

  connected-IsCareful :
      (fuel : ℕ) (dialled : Option String × W) → IsCareful (connected svc fuel dialled).1
  unfolding connected
  connected-IsCareful fuel (some e, w) = record { targets = tt; counted = refl }
  connected-IsCareful fuel (none, w) =
      sweep_pages-IsCareful fuel "" (unswept svc w) (record { targets = tt; counted = refl })

  -- However a sweep ends and whatever the service answers, it asked for the delete of accounts whose
  -- name has the prefix of acceptance tests alone, and its count is the number of the deletes that
  -- were answered without an error.
  pub sweep-IsCareful :
      (fuel : ℕ) (api_key : String) (connect : W → Option String × W) (w : W)
      → IsCareful (sweep svc fuel api_key connect w).1
  unfolding sweep
  sweep-IsCareful fuel api_key connect w = elim (Bool-cases (is_empty api_key)) [
    | inl empty ↦ rw empty (record { targets = tt; counted = refl })
    | inr full ↦ rw full (connected-IsCareful fuel (connect w))
  ]
