-- ===== src/Linux/Contract.antt =====
-- routes_linux.go: the Linux manager meets the contract of routes.go.
use urnetwork_client.Base.{
  ◌≡◌, refl, sym, ap, ◌∙◌, Bool, true, false, not, ◌&&◌, ◌||◌, List, [], ◌∷◌, ◌++◌, none, arith,
  Bytes, Bool-cases, inl, inr,
}
use urnetwork_client.Linux.Routes.{
  Names, Command, add_route, del_route, add_blackhole, del_blackhole, link_down, addr_flush,
  Manager, Session, new_manager, Op, bypass_endpoint, split_default, exclude, extra, dns, apply_op,
  run_ops, cleanup,
}
use urnetwork_client.Linux.Routes.Recorded.{is_in, adds, is_recorded, run_ops-Keeps}
use urnetwork_client.Linux.Routes.Cleanup.{
  deletes, dels, cleaning_of, deletes-cleaning_of, cleanup_lem,
}
use urnetwork_client.Routes.{Call, RouteManager, run_calls}
use urnetwork_client.Text.{equal}

-- `SetDNS` does nothing on Linux.
unfoldable pub linux_call : Names → Call → Session → Session
unfolding apply_op
linux_call N (Call.add_bypass_endpoint url) s = apply_op N (bypass_endpoint url) s
linux_call N Call.add_split_default s = apply_op N split_default s
linux_call N (Call.add_exclude dest) s = apply_op N (exclude dest) s
linux_call N (Call.add_extra_route dest) s = apply_op N (extra dest) s
linux_call N (Call.add_dns_server_routes ips bypass) s = apply_op N (dns ips bypass) s
linux_call N (Call.set_dns servers service) s = s

ops_of : List Call → List Op
ops_of [] = []
ops_of (Call.add_bypass_endpoint url ∷ cs) = bypass_endpoint url ∷ ops_of cs
ops_of (Call.add_split_default ∷ cs) = split_default ∷ ops_of cs
ops_of (Call.add_exclude dest ∷ cs) = exclude dest ∷ ops_of cs
ops_of (Call.add_extra_route dest ∷ cs) = extra dest ∷ ops_of cs
ops_of (Call.add_dns_server_routes ips bypass ∷ cs) = dns ips bypass ∷ ops_of cs
ops_of (Call.set_dns servers service ∷ cs) = ops_of cs

run_calls-ops_of :
    (N : Names) (cs : List Call) (s : Session)
    → run_calls (linux_call N) cs s ≡ run_ops N (ops_of cs) s
unfolding run_calls linux_call ops_of run_ops
run_calls-ops_of N [] s = refl
run_calls-ops_of N (Call.add_bypass_endpoint url ∷ cs) s = run_calls-ops_of N cs _
run_calls-ops_of N (Call.add_split_default ∷ cs) s = run_calls-ops_of N cs _
run_calls-ops_of N (Call.add_exclude dest ∷ cs) s = run_calls-ops_of N cs _
run_calls-ops_of N (Call.add_extra_route dest ∷ cs) s = run_calls-ops_of N cs _
run_calls-ops_of N (Call.add_dns_server_routes ips bypass ∷ cs) s = run_calls-ops_of N cs _
run_calls-ops_of N (Call.set_dns servers service ∷ cs) s = run_calls-ops_of N cs s

-- Whether a route to `d` stands behind some commands, if it did before.
unfoldable pub stands : Bytes → Bool → List Command → Bool
stands d b [] = b
stands d b (add_route e p ∷ cs) = stands d (equal d e || b) cs
stands d b (del_route e p ∷ cs) = stands d (not (equal d e) && b) cs
stands d b (_ ∷ cs) = stands d b cs

stands-append :
    (d : Bytes) (b : Bool) (xs ys : List Command)
    → stands d b (xs ++ ys) ≡ stands d (stands d b xs) ys
unfolding stands
stands-append d b [] ys = refl
stands-append d b (add_route e p ∷ xs) ys = stands-append d (equal d e || b) xs ys
stands-append d b (del_route e p ∷ xs) ys = stands-append d (not (equal d e) && b) xs ys
stands-append d b (add_blackhole ∷ xs) ys = stands-append d b xs ys
stands-append d b (del_blackhole ∷ xs) ys = stands-append d b xs ys
stands-append d b (link_down e ∷ xs) ys = stands-append d b xs ys
stands-append d b (addr_flush e ∷ xs) ys = stands-append d b xs ys

-- Only what is added comes to stand.
stands_unadded : (d : Bytes) (cs : List Command) → adds d cs ≡ false → stands d false cs ≡ false
unfolding stands adds
stands_unadded d [] h = refl
stands_unadded d (add_route e p ∷ cs) h = ground (arith, h, stands_unadded d cs)
stands_unadded d (del_route e p ∷ cs) h = ground (arith, h, stands_unadded d cs)
stands_unadded d (add_blackhole ∷ cs) h = stands_unadded d cs h
stands_unadded d (del_blackhole ∷ cs) h = stands_unadded d cs h
stands_unadded d (link_down e ∷ cs) h = stands_unadded d cs h
stands_unadded d (addr_flush e ∷ cs) h = stands_unadded d cs h

-- What is deleted among commands that add nothing does not stand behind them.
stands_deleted :
    (d : Bytes) (b : Bool) (cs : List Command)
    → adds d cs ≡ false
    → deletes d cs ≡ true
    → stands d b cs ≡ false
unfolding stands adds deletes
stands_deleted d b [] h k = cc
stands_deleted d b (add_route e p ∷ cs) h k = elim (Bool-cases (equal d e)) [
  | inl q ↦ absurd (ground (arith, h, q))
  | inr q ↦ rw q (stands_deleted d b cs (ground (arith, h, q)) k)
]
stands_deleted d b (del_route e p ∷ cs) h k = elim (Bool-cases (equal d e)) [
  | inl q ↦ rw q (stands_unadded d cs h)
  | inr q ↦ rw q (stands_deleted d b cs h (ground (arith, k, q)))
]
stands_deleted d b (add_blackhole ∷ cs) h k = stands_deleted d b cs h k
stands_deleted d b (del_blackhole ∷ cs) h k = stands_deleted d b cs h k
stands_deleted d b (link_down e ∷ cs) h k = stands_deleted d b cs h k
stands_deleted d b (addr_flush e ∷ cs) h k = stands_deleted d b cs h k

adds-dels : (d : Bytes) (xs : List Bytes) (cs : List Command) → adds d (dels xs ++ cs) ≡ adds d cs
unfolding adds
adds-dels d [] cs = refl
adds-dels d (x ∷ xs) cs = adds-dels d xs cs

adds-cleaning_of : (d : Bytes) (m : Manager) → adds d (cleaning_of m) ≡ false
unfolding adds
adds-cleaning_of d m = simp adds-dels

-- A cleanup takes away what is on record, and what is not on record was not added.
run_ops-stands :
    (N : Names) (ops : List Op) (tun gw dev d : Bytes)
    → stands d false (cleanup (run_ops N ops (new_manager tun gw dev, []))) ≡ false
unfolding new_manager is_in
run_ops-stands N ops tun gw dev d =
    let s : Session = (new_manager tun gw dev, []) in
    let t = run_ops N ops s in
    let K = run_ops-Keeps N ops s in
    let clean = adds-cleaning_of d t.0 in
    ap (stands d false) (
      cleanup_lem t.0 t.1 (λ e. K.same.1 ∙ sym K.same.0 ∙ e) ∙ ap (λ l. l ++ cleaning_of t.0) K.log)
    ∙ stands-append d false K.issued (cleaning_of t.0)
    ∙ elim (Bool-cases (is_recorded d t.0)) [
      | inl e ↦
          stands_deleted d (stands d false K.issued) (cleaning_of t.0) clean
            (deletes-cleaning_of d t.0 ∙ e)
      | inr e ↦
          ap (λ b. stands d b (cleaning_of t.0))
            (stands_unadded d K.issued (sym (K.recorded d) ∙ e))
          ∙ stands_unadded d (cleaning_of t.0) clean
    ]

pub linux_call-cleans :
    (N : Names) (tun gw dev : Bytes) (calls : List Call) (d : Bytes)
    → stands d false (cleanup (run_calls (linux_call N) calls (new_manager tun gw dev, []))) ≡ false
linux_call-cleans N tun gw dev calls d =
    rw (run_calls-ops_of N calls (new_manager tun gw dev, []))
      (run_ops-stands N (ops_of calls) tun gw dev d)

-- The Linux manager of a device, from the names and the original gateway and device. None of its
-- commands is on resolvers.
unfoldable pub linux_manager : Names → Bytes → Bytes → Bytes → RouteManager
linux_manager N tun gw dev = record {
  State = Session;
  Log = List Command;
  Destination = Bytes;
  start = (new_manager tun gw dev, []);
  call = linux_call N;
  cleanup = cleanup;
  stands = λ d cs. stands d false cs;
  resolvers = λ cs. none;
  cleans = linux_call-cleans N tun gw dev;
  clears = λ calls. refl;
}
