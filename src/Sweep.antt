-- ===== src/Sweep.antt =====
-- cmd/sweep/main.go: the command that deletes the service accounts that acceptance tests left. What it
-- prints of its deletes is the list of attempts, newest first.
pub mod Targets
pub mod Complete
use vault_plugin_secrets_tem.Prelude.{
  ℕ, zero, suc, String, Option, none, some, List, [], ◌∷◌, ◌==◌, if◌then◌else◌,
}
use vault_plugin_secrets_tem.Prelude.Text.{is_empty, has_prefix}
use vault_plugin_secrets_tem.Client.Errors.{RpcError}
use vault_plugin_secrets_tem.Client.Service.{
  ProtoAccount, AsyncOperation, Page, Reply, answer, fault, CloudService,
}

abbrev pub acctest_prefix : String
acctest_prefix = "vault-acctest-"

-- A delete that was asked for: the account, and the error that was answered if any.
pub record Attempt : Type 0 where
  pub account : ProtoAccount
  pub failure : Option RpcError

-- How the command ends; all but `finished` exit with status 1.
pub data Ending : Type 0 where
  finished : ℕ → Ending
  no_key token_stuck out_of_pages : Ending
  not_connected : String → Ending
  not_listed : RpcError → Ending

pub record Sweeping (W : Type 0) : Type 0 where
  pub world : W
  pub attempts : List Attempt
  pub swept : ℕ

module _ {W : Type 0} (svc : CloudService W) where
  unfoldable pub attempted :
      ProtoAccount → Sweeping W → Reply (Option AsyncOperation) × W → Sweeping W
  attempted sa st (answer op, w) = record {
    world = w;
    attempts = record { account = sa; failure = none } ∷ st.attempts;
    swept = suc st.swept;
  }
  attempted sa st (fault e, w) = record {
    world = w;
    attempts = record { account = sa; failure = some e } ∷ st.attempts;
    swept = st.swept;
  }

  -- The body of the inner loop.
  unfoldable pub sweep_account : ProtoAccount → Sweeping W → Sweeping W
  unfolding attempted
  sweep_account sa st =
      if has_prefix sa.spec.name acctest_prefix
      then attempted sa st (svc.delete_service_account none sa.id sa.resource_version st.world)
      else st

  unfoldable pub sweep_page : List ProtoAccount → Sweeping W → Sweeping W
  unfolding sweep_account
  sweep_page [] st = st
  sweep_page (sa ∷ rest) st = sweep_page rest (sweep_account sa st)

  -- One round of the loop: the rest of it, the token, the state and what the listing answered.
  unfoldable pub turn_page :
      (String → Sweeping W → Ending × Sweeping W)
      → String
      → Sweeping W
      → Reply (Page ProtoAccount) × W
      → Ending × Sweeping W
  unfolding sweep_page
  turn_page rest token st (fault e, w) = (not_listed e, record st { world = w })
  turn_page rest token st (answer page, w) =
      let st' = sweep_page page.items (record st { world = w }) in
      if is_empty page.next_token
      then (finished st'.swept, st')
      else if page.next_token == token
      then (token_stuck, st')
      else rest page.next_token st'

  -- The loop over the pages. The fuel bounds the pages; the code reads on while tokens advance.
  unfoldable pub sweep_pages : ℕ → String → Sweeping W → Ending × Sweeping W
  unfolding turn_page
  sweep_pages zero token st = (out_of_pages, st)
  sweep_pages (suc fuel) token st =
      turn_page (sweep_pages fuel) token st (svc.get_service_accounts none token st.world)

  abbrev pub unswept : W → Sweeping W
  unswept w = record { world = w; attempts = []; swept = 0 }

  unfoldable pub connected : ℕ → Option String × W → Ending × Sweeping W
  unfolding sweep_pages
  connected fuel (some e, w) = (not_connected e, unswept w)
  connected fuel (none, w) = sweep_pages fuel "" (unswept w)

  -- main, with the API key of the environment; `connect` dials, and gives the error's text if any.
  unfoldable pub sweep : ℕ → String → (W → Option String × W) → W → Ending × Sweeping W
  unfolding connected
  sweep fuel api_key connect w =
      if is_empty api_key then (no_key, unswept w) else connected fuel (connect w)
