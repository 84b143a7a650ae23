-- ===== src/Darwin/Routes/Ops.antt =====
-- routes_darwin.go: what each method of the manager keeps.
use urnetwork_client.Base.{
  inl, inr, Bool, true, false, not, ◌&&◌, ◌||◌, List, [], ◌∷◌, Bytes, codes, if◌then◌else◌,
  Option-cases,
}
use urnetwork_client.Linux.Routes.{Names}
use urnetwork_client.Net.{to4}
use urnetwork_client.Text.{is_empty, trim_space, contains_byte}
use urnetwork_client.Util.{extract_host}
use urnetwork_client.Darwin.Routes.{
  Target, net, net_mask, Way, add, change, Answer, Shell, Session, exists, ask, noting, target_of,
  interface, peer, scoped, reject, excluded, split_up, extra_added,
}
use urnetwork_client.Darwin.Routes.Methods.{
  cidr_of, half_mask, bypass_ips, add_bypass_endpoint, variant, add_variant, add_scoped,
  add_split_default, add_scoped_default, add_scoped_exclude, add_exclude, add_extra_route,
  add_dns_server_route, add_dns_server_routes,
}
use urnetwork_client.Darwin.Routes.Kept.{IsKept, Notes-Kept}
use urnetwork_client.Darwin.Routes.Steps.{
  adds, changes, ask-Kept, noting-Kept, told-Kept, told2-Kept, noted-Kept, retry-Kept, Told,
}
use urnetwork_client.Darwin.Routes.Notes.{
  ctrl-Notes, dns_bypass-Notes, excluded-Notes, scoped_excluded-Notes, split_up-Notes,
  extra_added-Notes, dns_tun-Notes,
}

-- Each branch of a test keeps.
if-Kept :
    (d : Target) (b : Bool) (s t : Session)
    → IsKept d false s
    → IsKept d false t
    → IsKept d false (if b then s else t)
if-Kept d true s t p q = p
if-Kept d false s t p q = q

module _ (sh : Shell) (d : Target) where
  bypass_ips-Kept :
      (N : Names) (ips : List Bytes) (s : Session)
      → IsKept d false s
      → IsKept d false (bypass_ips sh N ips s)
  unfolding bypass_ips
  bypass_ips-Kept N [] s p = p
  bypass_ips-Kept N (ip ∷ ips) s p = elim (Option-cases (to4 ip)) [
    | inl e ↦ rw (e, bypass_ips) (bypass_ips-Kept N ips s p)
    | inr (v4, e) ↦
        rw (e, bypass_ips)
          (bypass_ips-Kept N ips _
            (noting-Kept sh d _ _ _ s (adds _) (ctrl-Notes (N.ip_string v4)) p))
  ]

  pub add_bypass_endpoint-Kept :
      (N : Names) (raw : Bytes) (s : Session)
      → IsKept d false s
      → IsKept d false (add_bypass_endpoint sh N raw s)
  unfolding add_bypass_endpoint
  add_bypass_endpoint-Kept N raw s p =
      if-Kept d (is_empty s.0.def_gw || is_empty (extract_host N.url_host raw)) s _ p
        (bypass_ips-Kept N (N.lookup_ip (extract_host N.url_host raw)) s p)

  variant-Kept :
      (t : Target) (w : Way) (next : Session → Session) (s : Session)
      → ((u : Session) → IsKept d false u → IsKept d false (next u))
      → IsKept d false s
      → IsKept d false (variant sh t w next s)
  unfolding variant
  variant-Kept t w next s f p =
      ask-Kept sh d t (add t w) _ s (adds w)
        (λ a u k.
          told-Kept d t a u _ _ _ k (Notes-Kept d t _ u (split_up-Notes t))
            (λ q o.
              ask-Kept sh d t (change t w) _ u (changes w)
                (λ b v l. told2-Kept d t b v _ _ l (Notes-Kept d t _ v (split_up-Notes t)) (f v)) o)
            (f u))
        p

  add_variant-Kept :
      (dest mask : Bytes) (s : Session)
      → IsKept d false s
      → IsKept d false (add_variant sh dest mask s)
  unfolding add_variant
  add_variant-Kept dest mask s p =
      let tun = s.0.tun_name in
      let by_peer = peer s.0.peer_ip tun in
      let cidr = net (cidr_of dest) in
      let masked = net_mask dest mask in
      let last = λ (u : Session). variant sh masked by_peer (variant sh cidr by_peer (λ v. v)) u in
      let last-Kept = λ (u : Session) (q : IsKept d false u).
        variant-Kept masked by_peer (variant sh cidr by_peer (λ v. v)) u
          (λ v. variant-Kept cidr by_peer (λ w. w) v (λ w r. r)) q in
      let next = λ (u : Session). (if is_empty s.0.peer_ip then u else last u) in
      let next-Kept = λ (u : Session) (q : IsKept d false u).
        if-Kept d (is_empty s.0.peer_ip) u (last u) q (last-Kept u q) in
      variant-Kept masked (interface tun) (variant sh cidr (interface tun) next) s
        (λ u. variant-Kept cidr (interface tun) next u next-Kept) p

  fallback-Kept :
      (t : Target) (w : Way) (u : Session)
      → IsKept d false u
      → IsKept d false (noting sh (add t w) (split_up t) u)
  fallback-Kept t w u p = noting-Kept sh d t _ _ u (adds w) (split_up-Notes t) p

  add_scoped-Kept :
      (dest mask : Bytes) (s : Session)
      → IsKept d false s
      → IsKept d false (add_scoped sh dest mask s)
  unfolding add_scoped
  add_scoped-Kept dest mask s p =
      let masked = net_mask dest mask in
      let tun = s.0.tun_name in
      let cidr = net (cidr_of dest) in
      let fallback = λ (u : Session). noting sh (add cidr (scoped tun)) (split_up cidr) u in
      let follow = λ (a : Answer) (u : Session).
        (if a.is_ok then split_up masked u else if exists a then u else fallback u) in
      let first = add masked (peer s.0.peer_ip tun) in
      if-Kept d (is_empty s.0.peer_ip) (fallback s) (ask sh first follow s)
        (fallback-Kept cidr (scoped tun) s p)
        (ask-Kept sh d masked first follow s (adds (peer s.0.peer_ip tun))
          (λ a u k.
            told-Kept d masked a u (split_up masked u) u (fallback u) k
              (Notes-Kept d masked (split_up masked) u (split_up-Notes masked)) (λ q o. o)
              (fallback-Kept cidr (scoped tun) u))
          p)

  pub add_split_default-Kept :
      (s : Session) → IsKept d false s → IsKept d false (add_split_default sh s)
  unfolding add_split_default
  add_split_default-Kept s p =
      add_variant-Kept half_mask half_mask (add_variant sh (codes "0.0.0.0") half_mask s)
        (add_variant-Kept (codes "0.0.0.0") half_mask s p)

  pub add_scoped_default-Kept :
      (s : Session) → IsKept d false s → IsKept d false (add_scoped_default sh s)
  unfolding add_scoped_default
  add_scoped_default-Kept s p =
      add_scoped-Kept half_mask half_mask (add_scoped sh (codes "0.0.0.0") half_mask s)
        (add_scoped-Kept (codes "0.0.0.0") half_mask s p)

  pub add_scoped_exclude-Kept :
      (raw : Bytes) (s : Session) → IsKept d false s → IsKept d false (add_scoped_exclude sh raw s)
  unfolding add_scoped_exclude
  add_scoped_exclude-Kept raw s p =
      if-Kept d (is_empty (trim_space raw)) s _ p
        (noting-Kept sh d (target_of (trim_space raw)) _ _ s (adds _) (scoped_excluded-Notes _) p)

  pub add_exclude-Kept :
      (raw : Bytes) (s : Session) → IsKept d false s → IsKept d false (add_exclude sh raw s)
  unfolding add_exclude
  add_exclude-Kept raw s p =
      let t = target_of (trim_space raw) in
      let rejecting = λ (u : Session) (q : IsKept d false u).
        noting-Kept sh d t (add t reject) (excluded t) u (adds reject) (excluded-Notes t) q in
      if-Kept d (is_empty (trim_space raw)) s _ p (
        if-Kept d (is_empty s.0.def_gw) _ _ (rejecting s p) (
          ask-Kept sh d t _ _ s (adds _)
            (λ a u k.
              told-Kept d t a u _ _ _ k (Notes-Kept d t _ u (excluded-Notes t)) (λ q o. o)
                (rejecting u))
            p))

  finish-Kept :
      (t : Target) (a : Answer) (u : Session)
      → Told d t a u
      → IsKept d false (if a.is_ok || exists a then extra_added t u else u)
  finish-Kept t a u k = noted-Kept d t a u _ _ k (Notes-Kept d t _ u (extra_added-Notes t)) (λ o. o)

  pub add_extra_route-Kept :
      (raw : Bytes) (s : Session) → IsKept d false s → IsKept d false (add_extra_route sh raw s)
  unfolding add_extra_route
  add_extra_route-Kept raw s p =
      let t = target_of (trim_space raw) in
      let finish =
        λ (a : Answer) (u : Session). (if a.is_ok || exists a then extra_added t u else u) in
      let by_peer = peer s.0.peer_ip s.0.tun_name in
      let retry = λ (u : Session). ask sh (add t by_peer) finish u in
      let follow = λ (a : Answer) (u : Session).
        (if not a.is_ok && (not (exists a) && not (is_empty s.0.peer_ip))
          then retry u
          else finish a u) in
      let retried = λ (u : Session) (o : IsKept d false u).
        ask-Kept sh d t (add t by_peer) finish u (adds by_peer) (finish-Kept t) o in
      if-Kept d (is_empty (trim_space raw)) s (ask sh (add t (interface s.0.tun_name)) follow s) p (
        ask-Kept sh d t (add t (interface s.0.tun_name)) follow s (adds (interface s.0.tun_name))
          (λ a u k.
            retry-Kept d t a u (not (is_empty s.0.peer_ip)) (retry u) (finish a u) k (retried u)
              (finish-Kept t a u k))
          p)

  add_dns_server_route-Kept :
      (bypass : Bool) (raw : Bytes) (s : Session)
      → IsKept d false s
      → IsKept d false (add_dns_server_route sh bypass raw s)
  unfolding add_dns_server_route
  add_dns_server_route-Kept bypass raw s p =
      if-Kept d (is_empty (trim_space raw) || contains_byte (trim_space raw) b'/') s _ p (
        if-Kept d bypass _ _
          (if-Kept d (is_empty s.0.def_gw) s _ p
            (noting-Kept sh d _ _ _ s (adds _) (dns_bypass-Notes _) p))
          (noting-Kept sh d _ _ _ s (adds _) (dns_tun-Notes _) p))

  pub add_dns_server_routes-Kept :
      (bypass : Bool) (ips : List Bytes) (s : Session)
      → IsKept d false s
      → IsKept d false (add_dns_server_routes sh bypass ips s)
  unfolding add_dns_server_routes
  add_dns_server_routes-Kept bypass [] s p = p
  add_dns_server_routes-Kept bypass (ip ∷ ips) s p =
      add_dns_server_routes-Kept bypass ips _ (add_dns_server_route-Kept bypass ip s p)
