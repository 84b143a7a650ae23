-- ===== src/Linux/Routes/Recorded.antt =====
-- routes_linux.go: the manager's record of what its methods add.
use urnetwork_client.Base.{
  ◌≡◌, refl, sym, ◌∙◌, Bool, true, false, ◌||◌, List, [], ◌∷◌, ◌++◌, append_assoc, append-nil,
  arith, Bytes, if◌then◌else◌, Bool-cases, Option-cases, inl, inr,
}
use urnetwork_client.Net.{to4}
use urnetwork_client.Text.{equal, is_empty, trim_space}
use urnetwork_client.Util.{extract_host}
use urnetwork_client.Linux.Routes.{
  Names, on, Command, add_route, del_route, add_blackhole, del_blackhole, link_down, addr_flush,
  Manager, Session, low_half, high_half, outside, add_bypass, bypass_ips, add_bypass_endpoint,
  add_split_default, add_exclude, add_extra_route, add_dns_server_route, add_dns_server_routes, Op,
  bypass_endpoint, split_default, exclude, extra, dns, apply_op, run_ops,
}

-- Whether a text is in a list.
unfoldable pub is_in : Bytes → List Bytes → Bool
is_in d [] = false
is_in d (x ∷ xs) = equal d x || is_in d xs

-- Whether a command adds a route to `d`.
unfoldable pub adds : Bytes → List Command → Bool
adds d [] = false
adds d (add_route e p ∷ cs) = equal d e || adds d cs
adds d (_ ∷ cs) = adds d cs

abbrev pub splits : Manager → List Bytes
splits m = if m.added_splits then low_half ∷ high_half ∷ [] else []

abbrev pub is_recorded : Bytes → Manager → Bool
is_recorded d m =
    is_in d (splits m)
    || (is_in d m.added_bypass
        || (is_in d m.added_exclude || (is_in d m.added_extra || is_in d m.added_dns_tun)))

pub or_assoc : (a b c : Bool) → ((a || b) || c) ≡ (a || (b || c))
or_assoc a b c = ground arith

pub or_false : (a : Bool) → (a || false) ≡ a
or_false a = ground arith

is_in-append : (d : Bytes) (xs ys : List Bytes) → is_in d (xs ++ ys) ≡ (is_in d xs || is_in d ys)
unfolding is_in
is_in-append d [] ys = refl
is_in-append d (x ∷ xs) ys =
    rw (is_in-append d xs ys) (sym (or_assoc (equal d x) (is_in d xs) (is_in d ys)))

adds-append : (d : Bytes) (xs ys : List Command) → adds d (xs ++ ys) ≡ (adds d xs || adds d ys)
unfolding adds
adds-append d [] ys = refl
adds-append d (add_route e p ∷ xs) ys =
    rw (adds-append d xs ys) (sym (or_assoc (equal d e) (adds d xs) (adds d ys)))
adds-append d (del_route e p ∷ xs) ys = adds-append d xs ys
adds-append d (add_blackhole ∷ xs) ys = adds-append d xs ys
adds-append d (del_blackhole ∷ xs) ys = adds-append d xs ys
adds-append d (link_down e ∷ xs) ys = adds-append d xs ys
adds-append d (addr_flush e ∷ xs) ys = adds-append d xs ys

-- Whether some command takes the blackhole away.
unfoldable pub unblocks : List Command → Bool
unblocks [] = false
unblocks (del_blackhole ∷ cs) = true
unblocks (_ ∷ cs) = unblocks cs

pub unblocks-append : (xs ys : List Command) → unblocks (xs ++ ys) ≡ (unblocks xs || unblocks ys)
unfolding unblocks
unblocks-append [] ys = refl
unblocks-append (del_blackhole ∷ xs) ys = refl
unblocks-append (add_route e p ∷ xs) ys = unblocks-append xs ys
unblocks-append (del_route e p ∷ xs) ys = unblocks-append xs ys
unblocks-append (add_blackhole ∷ xs) ys = unblocks-append xs ys
unblocks-append (link_down e ∷ xs) ys = unblocks-append xs ys
unblocks-append (addr_flush e ∷ xs) ys = unblocks-append xs ys

-- What the step from `s` to `t` runs is on record.
pub record Keeps (s t : Session) : Type 0 where
  pub issued : List Command
  pub log : t.1 ≡ s.1 ++ issued
  pub recorded : (d : Bytes) → is_recorded d t.0 ≡ (is_recorded d s.0 || adds d issued)
  pub same : (t.0.kill_switch_added ≡ s.0.kill_switch_added) × (t.0.kill_switch ≡ s.0.kill_switch)
  pub quiet : unblocks issued ≡ false

keep_none : (s : Session) → Keeps s s
unfolding unblocks adds
keep_none s = record {
  issued = [];
  log = sym (append-nil s.1);
  recorded = λ d. ground arith;
  same = (refl, refl);
  quiet = refl;
}

keep_both : (s t u : Session) → Keeps s t → Keeps t u → Keeps s u
keep_both s t u a b = record {
  issued = a.issued ++ b.issued;
  log = b.log ∙ rw a.log (append_assoc s.1 a.issued b.issued);
  recorded = λ d.
      rw (adds-append d a.issued b.issued, b.recorded d, a.recorded d)
        (or_assoc (is_recorded d s.0) (adds d a.issued) (adds d b.issued));
  same = (b.same.0 ∙ a.same.0, b.same.1 ∙ a.same.1);
  quiet = rw (unblocks-append a.issued b.issued, a.quiet, b.quiet) refl;
}

add_bypass-Keeps : (ip : Bytes) (s : Session) → Keeps s (add_bypass ip s)
unfolding add_bypass unblocks adds is_in
add_bypass-Keeps ip (m, log) = record {
  issued = add_route ip (outside m) ∷ [];
  log = refl;
  recorded = λ d. ground (arith, is_in-append d m.added_bypass (ip ∷ []));
  same = (refl, refl);
  quiet = refl;
}

bypass_ips-Keeps : (N : Names) (ips : List Bytes) (s : Session) → Keeps s (bypass_ips N ips s)
unfolding bypass_ips
bypass_ips-Keeps N [] s = keep_none s
bypass_ips-Keeps N (ip ∷ ips) s = elim (Option-cases (to4 ip)) [
  | inl e ↦ rw (e, bypass_ips) (bypass_ips-Keeps N ips s)
  | inr (v4, e) ↦
      rw (e, bypass_ips)
        (keep_both _ _ _ (add_bypass-Keeps (N.ip_string v4) s) (bypass_ips-Keeps N ips _))
]

add_bypass_endpoint-Keeps :
    (N : Names) (raw : Bytes) (s : Session) → Keeps s (add_bypass_endpoint N raw s)
unfolding add_bypass_endpoint
add_bypass_endpoint-Keeps N raw s =
    elim (Bool-cases (is_empty (extract_host N.url_host raw) || is_empty s.0.orig_dev)) [
      | inl e ↦ rw e (keep_none s)
      | inr e ↦ rw e (bypass_ips-Keeps N (N.lookup_ip (extract_host N.url_host raw)) s)
    ]

add_split_default-Keeps : (s : Session) → Keeps s (add_split_default s)
unfolding add_split_default unblocks adds is_in
add_split_default-Keeps (m, log) = record {
  issued = add_route low_half (on m.tun_name) ∷ add_route high_half (on m.tun_name) ∷ [];
  log = append_assoc log _ _;
  recorded = λ d. ground arith;
  same = (refl, refl);
  quiet = refl;
}

add_exclude-Keeps : (raw : Bytes) (s : Session) → Keeps s (add_exclude raw s)
unfolding add_exclude unblocks adds is_in
add_exclude-Keeps raw (m, log) = elim (Bool-cases (is_empty (trim_space raw))) [
  | inl e ↦ rw e (keep_none (m, log))
  | inr e ↦ rw e (record {
    issued = _;
    log = refl;
    recorded = λ d. ground (arith, is_in-append d m.added_exclude (trim_space raw ∷ []));
    same = (refl, refl);
    quiet = refl;
  })
]

add_extra_route-Keeps : (raw : Bytes) (s : Session) → Keeps s (add_extra_route raw s)
unfolding add_extra_route unblocks adds is_in
add_extra_route-Keeps raw (m, log) = elim (Bool-cases (is_empty (trim_space raw))) [
  | inl e ↦ rw e (keep_none (m, log))
  | inr e ↦ rw e (record {
    issued = _;
    log = refl;
    recorded = λ d. ground (arith, is_in-append d m.added_extra (trim_space raw ∷ []));
    same = (refl, refl);
    quiet = refl;
  })
]

add_dns_server_route-Keeps :
    (bypass : Bool) (raw : Bytes) (s : Session) → Keeps s (add_dns_server_route bypass raw s)
unfolding add_dns_server_route unblocks adds is_in
add_dns_server_route-Keeps bypass raw (m, log) = elim (Bool-cases (is_empty (trim_space raw))) [
  | inl e ↦ rw e (keep_none (m, log))
  | inr e ↦ rw e (elim (Bool-cases bypass) [
    | inl b ↦ rw b (elim (Bool-cases (is_empty m.orig_dev)) [
      | inl k ↦ rw k (keep_none (m, log))
      | inr k ↦ rw k (add_bypass-Keeps (trim_space raw) (m, log))
    ])
    | inr b ↦ rw b (record {
      issued = _;
      log = refl;
      recorded = λ d. ground (arith, is_in-append d m.added_dns_tun (trim_space raw ∷ []));
      same = (refl, refl);
      quiet = refl;
    })
  ])
]

add_dns_server_routes-Keeps :
    (bypass : Bool) (ips : List Bytes) (s : Session) → Keeps s (add_dns_server_routes bypass ips s)
unfolding add_dns_server_routes
add_dns_server_routes-Keeps bypass [] s = keep_none s
add_dns_server_routes-Keeps bypass (ip ∷ ips) s =
    keep_both _ _ _ (add_dns_server_route-Keeps bypass ip s)
      (add_dns_server_routes-Keeps bypass ips _)

apply_op-Keeps : (N : Names) (op : Op) (s : Session) → Keeps s (apply_op N op s)
unfolding apply_op
apply_op-Keeps N (bypass_endpoint url) s = add_bypass_endpoint-Keeps N url s
apply_op-Keeps N split_default s = add_split_default-Keeps s
apply_op-Keeps N (exclude dest) s = add_exclude-Keeps dest s
apply_op-Keeps N (extra dest) s = add_extra_route-Keeps dest s
apply_op-Keeps N (dns ips bypass) s = add_dns_server_routes-Keeps bypass ips s

pub run_ops-Keeps : (N : Names) (ops : List Op) (s : Session) → Keeps s (run_ops N ops s)
unfolding run_ops
run_ops-Keeps N [] s = keep_none s
run_ops-Keeps N (op ∷ ops) s = keep_both _ _ _ (apply_op-Keeps N op s) (run_ops-Keeps N ops _)
