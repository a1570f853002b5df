-- ===== src/Examples/Commands.antt =====
-- The theorems on the commands, and on revocation over the gRPC client, at concrete inputs.
use vault_plugin_secrets_tem.Prelude.{ℕ, ◌≡◌, ◌≢◌, refl, true, false, none, some, [], ◌∷◌, arith}
use vault_plugin_secrets_tem.Prelude.Int.{pos}
use vault_plugin_secrets_tem.Exec.{ok}
use vault_plugin_secrets_tem.Client.Service.{CloudService, answer}
use vault_plugin_secrets_tem.Client.Grpc.{grpc_client}
use vault_plugin_secrets_tem.Client.Grpc.Paging.{listed}
use vault_plugin_secrets_tem.Client.Grpc.Promises.{grpc_client-IsConfirmed}
use vault_plugin_secrets_tem.Backend.Handler.{done}
use vault_plugin_secrets_tem.Examples.Service.{service, role_name, permission_name}
use vault_plugin_secrets_tem.Examples.Engine.{cloud, client, env}
use vault_plugin_secrets_tem.Backend.Creds.{delete_key as delete_lease_key}
use vault_plugin_secrets_tem.Client.Grpc.{delete_api_key, settle_delete, version_of}
use vault_plugin_secrets_tem.Client.Async.{await_operation, classify_operation_state}
use vault_plugin_secrets_tem.Client.Confirm.{
  confirm_api_key_gone, await_condition, await_loop, satisfied, api_key_gone, key_gone_answer,
}
use vault_plugin_secrets_tem.Backend.Entries.{Lease, text}
use vault_plugin_secrets_tem.Backend.World.{
  Env, State, with_client, get_client, get_config, load, decode_or_none, decoded, cached,
}
use vault_plugin_secrets_tem.Backend.Lease.{
  internal_string, internal_value, secret_api_key_revoke, revoke_with, revoked,
}
use vault_plugin_secrets_tem.Backend.Lease.Gone.{IsRevoked, secret_api_key_revoke-IsRevoked}
use vault_plugin_secrets_tem.Sweep.{sweep}
use vault_plugin_secrets_tem.Sweep.Targets.{IsCareful, sweep-IsCareful}
use vault_plugin_secrets_tem.Sweep.Complete.{Completes, sweep-Completes}
use vault_plugin_secrets_tem.Benchmark.{BenchmarkConfig, Rig, Connectivity, out_of_polls}
use vault_plugin_secrets_tem.Benchmark.Trials.{
  run_trial, wait_for_acceptance, measure, wait_loop, decide, clean_up, with_cleanup,
}
use vault_plugin_secrets_tem.Benchmark.Cleanup.{delete_key, delete_key_loop, key_error}
use vault_plugin_secrets_tem.Benchmark.Trials.Cleans.{LeavesNothing, run_trial-LeavesNothing}
use vault_plugin_secrets_tem.Benchmark.Trials.Accepted.{wait_for_acceptance-ends}
use vault_plugin_secrets_tem.Benchmark.Run.{run}
use vault_plugin_secrets_tem.Benchmark.Run.Stops.{IsContained, run-IsContained}
use vault_plugin_secrets_tem.Examples.Tools.{
  frontend, frontend-Timed, listing, account_pages, accounts_listed,
}

sweep-IsCareful_example : IsCareful (sweep listing 2 "h.root.s" (λ w. (none, w)) 0).1
sweep-IsCareful_example = sweep-IsCareful listing 2 "h.root.s" (λ w. (none, w)) 0

sweep-Completes_example :
    Completes listing (listed account_pages) [] (sweep listing 2 "h.root.s" (λ w. (none, w)) 0)
sweep-Completes_example =
    sweep-Completes listing 2 "h.root.s" (λ w. (none, w)) 0 account_pages refl refl accounts_listed
      (omega arith)

abbrev flags : BenchmarkConfig
flags = record {
  namespace = "prod.a1";
  trials = pos 2;
  interval = pos 0;
  report_every = pos 25;
  poll_interval = pos 100;
  trial_timeout = pos 1000;
  rpc_timeout = pos 50;
}

abbrev rig : Rig ℕ
rig = record {
  frontend = frontend;
  get_state = λ conn w. (Connectivity.ready, w);
  wait_for_state_change = λ c conn s w. (true, w);
  create_api_key =
      λ c s w. ((some (record { id = "key"; token = "h.key.s"; operation = none }), none), w);
  cleanup = cloud;
  cleanup_config = client;
  connect_cloud = λ w. (none, w);
  connect_cleanup = λ w. (none, w);
  cancelled = λ c w. false;
  write_row = λ row w. (none, w);
  flush = λ w. (none, w);
  format_time = λ t. "time";
  show_code = λ c. "code";
  show_error = λ e. "error";
}

trial_clean : (run_trial rig flags none 0 "sa" 1 0).0.cleanup_err ≡ none
unfolding run_trial measure wait_for_acceptance wait_loop decide clean_up with_cleanup delete_key
    delete_key_loop key_error
trial_clean = refl

run_trial-LeavesNothing_example :
    LeavesNothing rig flags
      (some (record { id = "key"; token = "h.key.s"; operation = none }))
      (run_trial rig flags none 0 "sa" 1 0).1
run_trial-LeavesNothing_example = run_trial-LeavesNothing rig flags none 0 "sa" 1 0 trial_clean

wait_for_acceptance-ends_example :
    (wait_for_acceptance rig flags (some 1000) 0 "h.key.s" 0).0.error ≢ some out_of_polls
wait_for_acceptance-ends_example =
    wait_for_acceptance-ends rig flags frontend-Timed 1000 0 "h.key.s" 0 (omega arith) (omega arith)

run-IsContained_example : IsContained (run rig flags 3 none "h.root.s" 0).1
run-IsContained_example = run-IsContained rig flags 3 none "h.root.s" 0

-- A service in which the delete of a key works.
abbrev deleting : CloudService ℕ
deleting = record service { delete_api_key = λ c id v w. (answer none, w) }

abbrev joined_env : Env ℕ
joined_env = record env { cloud = grpc_client (λ c. deleting) role_name permission_name 10 }

abbrev begun : State ℕ
begun = record { world = 0; handles = record { cells = []; current = none }; trace = [] }

abbrev held_lease : Lease
held_lease = record {
  internal_data = ("api_key_id", text "key") ∷ [];
  issue_time = some 0;
  ttl = pos 0;
  max_ttl = pos 0;
}

key_held : internal_string (some held_lease) "api_key_id" ≡ ok "key"
unfolding internal_string internal_value
key_held = refl

abbrev revoked_state : State ℕ
revoked_state = (secret_api_key_revoke joined_env none (some held_lease) begun).1

revocation_done :
    secret_api_key_revoke joined_env none (some held_lease) begun ≡ (done tt, revoked_state)
unfolding secret_api_key_revoke with_client get_client revoke_with revoked delete_lease_key
    internal_string internal_value get_config load decode_or_none decoded cached grpc_client
    delete_api_key settle_delete version_of await_operation classify_operation_state
    confirm_api_key_gone await_condition await_loop satisfied api_key_gone key_gone_answer
revocation_done = refl

secret_api_key_revoke-IsRevoked_example :
    IsRevoked joined_env (λ c. deleting) none "key" revoked_state.world
secret_api_key_revoke-IsRevoked_example =
    secret_api_key_revoke-IsRevoked joined_env (λ c. deleting)
      (grpc_client-IsConfirmed (λ c. deleting) role_name permission_name 10) none (some held_lease)
      "key" begun revoked_state key_held revocation_done
