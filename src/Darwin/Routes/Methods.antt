-- ===== src/Darwin/Routes/Methods.antt =====
-- routes_darwin.go: the methods of the route manager, and their calls in a session.
use urnetwork_client.Base.{
  Bool, true, not, ◌&&◌, ◌||◌, List, [], ◌∷◌, ◌++◌, none, some, Bytes, codes, if◌then◌else◌,
}
use urnetwork_client.Linux.Routes.{Names}
use urnetwork_client.Net.{to4}
use urnetwork_client.Text.{is_empty, trim_space, contains_byte}
use urnetwork_client.Util.{extract_host}
use urnetwork_client.Darwin.Routes.{
  Target, Way, Command, Answer, Entry, Shell, Session, exists, ask, target_of, ctrl, dns_bypass,
  excluded, scoped_excluded, split_up, extra_added, dns_tun, noting, host, net, net_mask, gateway,
  interface, peer, scoped, reject, scoped_reject, add, change, delete, delete_default,
  add_blackhole, add_default, set_dns, clear_dns, down,
}

abbrev pub hosts : List Bytes → List Target
hosts [] = []
hosts (ip ∷ ips) = host ip ∷ hosts ips

abbrev pub cidr_of : Bytes → Bytes
cidr_of dest = dest ++ codes "/1"

abbrev pub half_mask : Bytes
half_mask = codes "128.0.0.0"

module _ (sh : Shell) where
  module _ (N : Names) where
    unfoldable pub bypass_ips : List Bytes → Session → Session
    bypass_ips [] s = s
    bypass_ips (ip ∷ ips) s = bypass_ips ips (elim (to4 ip) [
      | none ↦ s
      | some v4 ↦
          noting sh (add (host (N.ip_string v4)) (gateway s.0.def_gw)) (ctrl (N.ip_string v4)) s
    ])

    -- `AddBypassEndpoint`
    unfoldable pub add_bypass_endpoint : Bytes → Session → Session
    unfolding bypass_ips extract_host
    add_bypass_endpoint raw s =
        let name = extract_host N.url_host raw in
        if is_empty s.0.def_gw || is_empty name then s else bypass_ips (N.lookup_ip name) s

  -- A variant of `addVariant`: added, or changed where the file exists; else the next one.
  unfoldable pub variant : Target → Way → (Session → Session) → Session → Session
  unfolding exists
  variant t w next s =
      ask sh (add t w)
        (λ a u.
          if a.is_ok
          then split_up t u
          else if exists a
          then ask sh (change t w) (λ b v. if b.is_ok then split_up t v else next v) u
          else next u)
        s

  -- `addVariant`
  unfoldable pub add_variant : Bytes → Bytes → Session → Session
  unfolding variant
  add_variant dest mask s =
      let tun = s.0.tun_name in
      let p = s.0.peer_ip in
      variant (net_mask dest mask) (interface tun)
        (variant (net (cidr_of dest)) (interface tun) (λ u.
          if is_empty p
          then u
          else variant (net_mask dest mask) (peer p tun)
              (variant (net (cidr_of dest)) (peer p tun) (λ v. v)) u))
        s

  -- `addScoped`
  unfoldable pub add_scoped : Bytes → Bytes → Session → Session
  unfolding exists
  add_scoped dest mask s =
      let tun = s.0.tun_name in
      let fallback : Session → Session =
        λ u. noting sh (add (net (cidr_of dest)) (scoped tun)) (split_up (net (cidr_of dest))) u in
      if is_empty s.0.peer_ip
      then fallback s
      else ask sh (add (net_mask dest mask) (peer s.0.peer_ip tun))
          (λ a u.
            if a.is_ok then split_up (net_mask dest mask) u else if exists a then u else fallback u)
          s

  -- `AddSplitDefault`
  unfoldable pub add_split_default : Session → Session
  unfolding add_variant
  add_split_default s = add_variant half_mask half_mask (add_variant (codes "0.0.0.0") half_mask s)

  -- `AddScopedDefault`
  unfoldable pub add_scoped_default : Session → Session
  unfolding add_scoped
  add_scoped_default s = add_scoped half_mask half_mask (add_scoped (codes "0.0.0.0") half_mask s)

  -- `AddScopedExclude`
  unfoldable pub add_scoped_exclude : Bytes → Session → Session
  add_scoped_exclude raw s =
      let dest = trim_space raw in
      if is_empty dest
      then s
      else noting sh (add (target_of dest) (scoped_reject s.0.tun_name))
          (scoped_excluded (target_of dest)) s

  -- `AddExclude`
  unfoldable pub add_exclude : Bytes → Session → Session
  unfolding exists
  add_exclude raw s =
      let dest = trim_space raw in
      let t = target_of dest in
      let rejecting : Session → Session = λ u. noting sh (add t reject) (excluded t) u in
      if is_empty dest
      then s
      else if is_empty s.0.def_gw
      then rejecting s
      else ask sh (add t (gateway s.0.def_gw))
          (λ a u. if a.is_ok then excluded t u else if exists a then u else rejecting u) s

  -- `AddExtraRoute`
  unfoldable pub add_extra_route : Bytes → Session → Session
  unfolding exists
  add_extra_route raw s =
      let dest = trim_space raw in
      let t = target_of dest in
      let finish : Answer → Session → Session =
        λ a u. if a.is_ok || exists a then extra_added t u else u in
      if is_empty dest
      then s
      else ask sh (add t (interface s.0.tun_name))
          (λ a u.
            if not a.is_ok && (not (exists a) && not (is_empty s.0.peer_ip))
            then ask sh (add t (peer s.0.peer_ip s.0.tun_name)) finish u
            else finish a u)
          s

  -- A round of `AddDNSServerRoutes`.
  unfoldable pub add_dns_server_route : Bool → Bytes → Session → Session
  add_dns_server_route bypass raw s =
      let ip = trim_space raw in
      if is_empty ip || contains_byte ip b'/'
      then s
      else if bypass
      then (if is_empty s.0.def_gw
          then s
          else noting sh (add (host ip) (gateway s.0.def_gw)) (dns_bypass ip) s)
      else noting sh (add (host ip) (interface s.0.tun_name)) (dns_tun (host ip)) s

  -- `AddDNSServerRoutes`
  unfoldable pub add_dns_server_routes : Bool → List Bytes → Session → Session
  unfolding add_dns_server_route
  add_dns_server_routes bypass [] s = s
  add_dns_server_routes bypass (ip ∷ ips) s =
      add_dns_server_routes bypass ips (add_dns_server_route bypass ip s)

  -- `SetDNS`
  unfoldable pub set_dns_servers : List Bytes → Bytes → Session → Session
  set_dns_servers servers service s =
      if is_empty service || is_empty servers
      then s
      else ask sh (set_dns service servers)
          (λ a u.
            if a.is_ok
            then (record u.0 { dns_configured = true; dns_service = service }, u.1)
            else u)
          s

  -- The deletion of each target of a list.
  unfoldable pub delete_all : List Target → List Entry → List Entry
  delete_all [] log = log
  delete_all (t ∷ ts) log = delete_all ts (log ++ ((delete t, sh log (delete t)) ∷ []))

  -- `RemoveDNSBypass`
  unfoldable pub remove_dns_bypass : Session → Session
  unfolding delete_all
  remove_dns_bypass (m, log) =
      (record m { added_dns_bypass = [] }, delete_all (hosts m.added_dns_bypass) log)

  -- `AddKillSwitchRoute`
  unfoldable pub add_kill_switch_route : Session → Session
  add_kill_switch_route s =
      let u : Session = (record s.0 { kill_switch = true }, s.1) in
      let opened : Session =
        if is_empty s.0.def_gw then u else ask sh delete_default (λ _ v. v) u in
      ask sh add_blackhole
        (λ a v. if a.is_ok then (record v.0 { kill_switch_added = true }, v.1) else v) opened

  -- A command whose answer is not looked at.
  abbrev pub run : Command → List Entry → List Entry
  run c log = log ++ ((c, sh log c) ∷ [])

  -- `Cleanup`
  unfoldable pub cleanup : Session → List Entry
  unfolding delete_all
  cleanup (m, log) =
      let routes = delete_all m.added_dns_tun (
        delete_all m.added_extra (
          delete_all (hosts m.added_dns_bypass) (
            delete_all (hosts m.added_ctrl_bypass) (
              delete_all m.added_scoped_excls
                (delete_all m.added_excludes (delete_all m.added_splits log)))))) in
      let named = if m.dns_configured then run (clear_dns m.dns_service) routes else routes in
      let end = run (down m.tun_name) named in
      if m.kill_switch_added && not m.kill_switch
      then (let open_again = run delete_default end in
          if is_empty m.def_gw then open_again else run (add_default m.def_gw) open_again)
      else end

-- The calls of a session.
pub data Op : Type 0 where
  bypass_endpoint : Bytes → Op
  split_default scoped_default : Op
  scoped_exclude exclude extra : Bytes → Op
  dns : List Bytes → Bool → Op
  set_dns_to : List Bytes → Bytes → Op
  end_bypass kill : Op

module _ (sh : Shell) (N : Names) where
  unfoldable pub apply_op : Op → Session → Session
  unfolding add_bypass_endpoint add_split_default add_scoped_default add_scoped_exclude add_exclude
      add_extra_route add_dns_server_routes set_dns_servers remove_dns_bypass add_kill_switch_route
  apply_op (bypass_endpoint url) s = add_bypass_endpoint sh N url s
  apply_op split_default s = add_split_default sh s
  apply_op scoped_default s = add_scoped_default sh s
  apply_op (scoped_exclude dest) s = add_scoped_exclude sh dest s
  apply_op (exclude dest) s = add_exclude sh dest s
  apply_op (extra dest) s = add_extra_route sh dest s
  apply_op (dns ips bypass) s = add_dns_server_routes sh bypass ips s
  apply_op (set_dns_to servers service) s = set_dns_servers sh servers service s
  apply_op end_bypass s = remove_dns_bypass sh s
  apply_op kill s = add_kill_switch_route sh s

  unfoldable pub run_ops : List Op → Session → Session
  unfolding apply_op
  run_ops [] s = s
  run_ops (op ∷ ops) s = run_ops ops (apply_op op s)
