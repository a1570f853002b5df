-- ===== src/Examples/Tools.antt =====
-- A namespace's frontend and a Cloud Ops service with its own listings, and the theorems on probes
-- and pages at concrete inputs.
use Prim.Native.Nat.{max}
use vault_plugin_secrets_tem.Prelude.{
  ℕ, ◌*◌, String, ◌≡◌, ◌≢◌, refl, ap, inl, inr, Bool, true, false, none, some, List, [], ◌∷◌, arith,
  ◌≤◌, if◌then◌else◌,
}
use vault_plugin_secrets_tem.Prelude.Text.{is_empty}
use vault_plugin_secrets_tem.Exec.{ok, is_over, with_timeout, second}
use vault_plugin_secrets_tem.Client.Errors.{ResourceState}
use vault_plugin_secrets_tem.Client.Service.{CloudService, ProtoAccount, Page, answer, Role}
use vault_plugin_secrets_tem.Client.Async.Termination.{stuck}
use vault_plugin_secrets_tem.Client.Probe.{
  Frontend, connected, probe_namespace_until_confirmed, probe_namespace_with_settings, probe_loop,
  judge, probe_namespace_once, called, on_connection,
}
use vault_plugin_secrets_tem.Client.Probe.Confirmed.{
  Streak, Rounds, probe_namespace_until_confirmed-live,
}
use vault_plugin_secrets_tem.Client.Probe.Connections.{
  AcceptedTimes, probe_namespace_until_confirmed-AcceptedTimes,
}
use vault_plugin_secrets_tem.Client.Probe.Ends.{Timed, probe_namespace_until_confirmed-ne-stuck}
use vault_plugin_secrets_tem.Client.Grpc.{count_api_keys}
use vault_plugin_secrets_tem.Client.Grpc.Paging.{IsListing, total, count_api_keys-total}
use vault_plugin_secrets_tem.Backend.Handler.{done}
use vault_plugin_secrets_tem.Backend.Probing.{
  default_probe_config, effective_checked, effective, validate_probe_config, probe_budget,
  client_settings,
}
use vault_plugin_secrets_tem.Backend.Probing.Ends.{probe_fuel, probe_in_force-ne-stuck}
use vault_plugin_secrets_tem.Examples.Service.{service}

-- A frontend whose clock is the world, and which names a connection by the time of its dialling.
abbrev pub waited : Bool → ℕ → ℕ → Bool × ℕ
waited over t w = if over then (false, w) else (true, max t w)

abbrev pub frontend : Frontend ℕ
frontend = record {
  now = λ w. w;
  over = λ c w. is_over c w;
  wait_until = λ c t w. waited (is_over c w) t w;
  dial = λ e w. (connected w, w);
  describe_namespace = λ conn c token namespace w. (none, w);
  close = λ conn w. w;
}

wait_fires : (over : Bool) (t w : ℕ) → (waited over t w).0 ≡ true → t ≤ (waited over t w).1
wait_fires true t w h = cc
wait_fires false t w h = omega arith

pub frontend-Timed : Timed frontend
frontend-Timed = record {
  fires_late = λ c t w fired. wait_fires (is_over c w) t w fired;
  ends = λ c t w over later. rw over refl;
  dial_clock = λ e w. omega arith;
  call_clock = λ conn c token namespace w. omega arith;
  close_clock = λ conn w. omega arith;
}

-- Two attempts, one interval apart.
probed : probe_namespace_until_confirmed frontend 5 none "h.key.s" "prod.a1" 50 2 0 ≡ (ok tt, 50)
unfolding probe_namespace_until_confirmed probe_loop judge probe_namespace_once called on_connection
probed = refl

probe_namespace_until_confirmed-AcceptedTimes_example :
    (start : ℕ) × Rounds frontend none "h.key.s" "prod.a1" 50 0 start
    × AcceptedTimes frontend none "h.key.s" "prod.a1" 50 2 start
        (probe_namespace_until_confirmed frontend 5 none "h.key.s" "prod.a1" 50 2 0).1
probe_namespace_until_confirmed-AcceptedTimes_example =
    probe_namespace_until_confirmed-AcceptedTimes frontend none "h.key.s" "prod.a1" 50 5 2 0
      (omega arith) (ap (λ u. u.0) probed)

two_in_a_row : Streak frontend none "h.key.s" "prod.a1" 50 2 0 50
unfolding probe_namespace_once called on_connection
two_in_a_row = (refl, inr (refl, (refl, inl (refl, refl))))

probe_namespace_until_confirmed-live_example :
    probe_namespace_until_confirmed frontend 5 none "h.key.s" "prod.a1" 50 2 0 ≡ (ok tt, 50)
probe_namespace_until_confirmed-live_example =
    probe_namespace_until_confirmed-live frontend none "h.key.s" "prod.a1" 50 5 2 0 50 (omega arith)
      two_in_a_row

probe_namespace_until_confirmed-ne-stuck_example :
    (probe_namespace_until_confirmed frontend 21 (some 1000) "h.key.s" "prod.a1" 50 30 0).0 ≢ stuck
probe_namespace_until_confirmed-ne-stuck_example =
    probe_namespace_until_confirmed-ne-stuck frontend frontend-Timed 1000 "h.key.s" "prod.a1" 50 30
      20 0 (omega arith) (omega arith)

in_force : effective_checked (some default_probe_config) ≡ done default_probe_config
unfolding effective_checked effective validate_probe_config
in_force = refl

budget_given : probe_budget none 0 ≡ some (50 * second)
unfolding probe_budget
budget_given = refl

probe_in_force-ne-stuck_example :
    (probe_namespace_with_settings frontend probe_fuel
      (with_timeout none (50 * second) 0)
      "h.key.s"
      "prod.a1"
      (client_settings default_probe_config)
      0).0
    ≢ stuck
probe_in_force-ne-stuck_example =
    probe_in_force-ne-stuck frontend frontend-Timed (some default_probe_config) default_probe_config
      none 0 (50 * second) "h.key.s" "prod.a1" 0 in_force budget_given (omega arith)

-- Two pages of keys and of service accounts.
abbrev pub account_named : String → ProtoAccount
account_named name = record {
  id = name;
  resource_version = "v1";
  state = ResourceState.active;
  spec = record { name = name; description = ""; role = Role.read; namespace_accesses = [] };
}

abbrev key_pages : List (Page String)
key_pages =
    record { items = "a" ∷ "b" ∷ []; next_token = "2" }
    ∷ record { items = "c" ∷ []; next_token = "" }
    ∷ []

abbrev pub account_pages : List (Page ProtoAccount)
account_pages =
    record { items = account_named "vault-acctest-1" ∷ account_named "ci" ∷ []; next_token = "2" }
    ∷ record { items = account_named "vault-acctest-2" ∷ []; next_token = "" }
    ∷ []

abbrev pub page_at : {A : Type 0} → String → Page A → Page A → Page A
page_at token first second = if is_empty token then first else second

abbrev pub listing : CloudService ℕ
listing = record service {
  get_api_keys = λ c id t w. (
    answer (
        page_at t (record { items = "a" ∷ "b" ∷ []; next_token = "2" })
          (record { items = "c" ∷ []; next_token = "" })),
    w,
  );
  get_service_accounts = λ c t w. (
    answer (
        page_at t
          (record {
            items = account_named "vault-acctest-1" ∷ account_named "ci" ∷ [];
            next_token = "2";
          })
          (record { items = account_named "vault-acctest-2" ∷ []; next_token = "" })),
    w,
  );
}

keys_listed : IsListing (listing.get_api_keys none "sa") "" key_pages
keys_listed = ((λ w. refl), refl, refl, ((λ w. refl), refl))

pub accounts_listed : IsListing (listing.get_service_accounts none) "" account_pages
accounts_listed = ((λ w. refl), refl, refl, ((λ w. refl), refl))

count_api_keys-total_example : (count_api_keys listing 2 none "sa" 0).0 ≡ ok (total key_pages)
count_api_keys-total_example =
    count_api_keys-total listing 2 none "sa" key_pages 0 keys_listed (omega arith)
