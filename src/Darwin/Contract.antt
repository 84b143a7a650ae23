-- ===== src/Darwin/Contract.antt =====
-- routes_darwin.go: the macOS manager meets the contract of routes.go.
use urnetwork_client.Base.{◌≡◌, refl, false, List, [], ◌∷◌, none, Bytes}
use urnetwork_client.Darwin.Routes.{Target, Entry, Shell, Session, new_manager}
use urnetwork_client.Darwin.Routes.Methods.{
  Op, bypass_endpoint, split_default, exclude, extra, dns, set_dns_to, apply_op, run_ops, cleanup,
}
use urnetwork_client.Darwin.Routes.Kept.{stands, service_of}
use urnetwork_client.Darwin.Routes.Cleanup.{
  Cleaned, run_ops-Kept, new_manager-Kept, cleanup-Cleaned,
}
use urnetwork_client.Linux.Routes.{Names}
use urnetwork_client.Routes.{Call, RouteManager, run_calls}

-- The operation of a call.
op_of : Call → Op
op_of (Call.add_bypass_endpoint url) = bypass_endpoint url
op_of Call.add_split_default = split_default
op_of (Call.add_exclude dest) = exclude dest
op_of (Call.add_extra_route dest) = extra dest
op_of (Call.add_dns_server_routes ips bypass) = dns ips bypass
op_of (Call.set_dns servers service) = set_dns_to servers service

unfoldable pub darwin_call : Shell → Names → Call → Session → Session
unfolding op_of apply_op
darwin_call sh N c s = apply_op sh N (op_of c) s

ops_of : List Call → List Op
ops_of [] = []
ops_of (c ∷ cs) = op_of c ∷ ops_of cs

module _ (sh : Shell) (N : Names) where
  run_calls-ops_of :
      (cs : List Call) (s : Session)
      → run_calls (darwin_call sh N) cs s ≡ run_ops sh N (ops_of cs) s
  unfolding run_calls darwin_call ops_of run_ops
  run_calls-ops_of [] s = refl
  run_calls-ops_of (c ∷ cs) s = run_calls-ops_of cs (apply_op sh N (op_of c) s)

  pub darwin_call-cleans :
      (tun peer_ip def_gw : Bytes) (calls : List Call)
      → let s = run_calls (darwin_call sh N) calls (new_manager tun peer_ip def_gw, []) in
        Cleaned s (cleanup sh s)
  darwin_call-cleans tun peer_ip def_gw calls =
      let s : Session = (new_manager tun peer_ip def_gw, []) in
      rw (run_calls-ops_of calls s) (
        cleanup-Cleaned sh (run_ops sh N (ops_of calls) s)
          (λ e. run_ops-Kept sh N e (ops_of calls) s (new_manager-Kept e tun peer_ip def_gw)))

  -- The macOS manager of a device, from the commands' answers and the original gateway.
  unfoldable pub darwin_manager : Bytes → Bytes → Bytes → RouteManager
  darwin_manager tun peer_ip def_gw = record {
    State = Session;
    Log = List Entry;
    Destination = Target;
    start = (new_manager tun peer_ip def_gw, []);
    call = darwin_call sh N;
    cleanup = cleanup sh;
    stands = λ d log. stands d false log;
    resolvers = service_of none;
    cleans = λ calls. (darwin_call-cleans tun peer_ip def_gw calls).gone;
    clears = λ calls. (darwin_call-cleans tun peer_ip def_gw calls).unnamed;
  }
