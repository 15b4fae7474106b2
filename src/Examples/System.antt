-- ===== src/Examples/System.antt =====
-- The theorem on the transactions of the off-chain workers at a concrete system: account 7 registers
-- a cluster, and the off-chain worker of that block hands over its report.
use cyborg_chain.Prelude.{ascii, ◌≡◌, refl, true, none, some, [], ◌∷◌, arith, ok, insert, lookup}
use cyborg_chain.Text.{to_string, join, is_utf8}
use cyborg_chain.WorkerRegistration.{worker_register, derived_key, string_ip}
use cyborg_chain.WorkerRegistration.Dispatch as WorkerCalls
use cyborg_chain.WorkerRegistration.Offchain.{
  offchain_worker, read, ping_data, report, fetch_cluster_status, http_call,
}
use cyborg_chain.Runtime.Constants.{edge_config}
use cyborg_chain.Runtime.Compose.{RuntimeCall, Chain, dispatch, genesis}
use cyborg_chain.Runtime.Submission.{
  Origins, signed, System, execute, other, reported, Reach, start, later,
}
use cyborg_chain.Runtime.Submission.Success.{pending_succeeds}
use cyborg_chain.Examples.Outside.{frame, host, client, json, signer}
use cyborg_chain.Examples.Storages.{ip}

abbrev origins : Origins frame
origins = record {
  signed_by = λ who. some who;
  ensure_signed-signed_by = λ who. refl;
  no_signer = none;
  ensure_none-no_signer = refl;
}

abbrev register : RuntimeCall
register = RuntimeCall.worker_registration (WorkerCalls.Call.worker_register (ascii "w") ip 80)

abbrev report_call : WorkerCalls.Call
report_call = WorkerCalls.Call.verify_connection 0 true

abbrev after_register : Chain
after_register = (dispatch frame host edge_config 0 (some 7) register genesis).1

report_is_made :
    offchain_worker host (client (ascii "{}")) json true 0 after_register.worker ≡ some report_call
unfolding dispatch WorkerCalls.dispatch worker_register derived_key insert lookup offchain_worker
    read ping_data report fetch_cluster_status http_call is_utf8 string_ip join to_string
report_is_made = refl

abbrev reporting : System
reporting = record {
  block = 0;
  chain = after_register;
  pending = signed 9 (RuntimeCall.worker_registration report_call) ∷ [];
}

reporting_reached : Reach frame origins host edge_config signer 2 reporting
reporting_reached =
    later (later start (other (some 7) register))
      (reported (client (ascii "{}")) json true 9 report_call report_is_made)

pending_succeeds_example :
    ((execute frame origins host edge_config signer
        (signed 9 (RuntimeCall.worker_registration report_call))
        0
        after_register).0
      ≡ ok tt)
    × Unit {0}
pending_succeeds_example =
    pending_succeeds frame origins host edge_config signer 2 reporting (omega arith)
      reporting_reached
