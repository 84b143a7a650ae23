-- ===== src/Darwin/Whole/Routes.antt =====
-- The manager of the whole session is that of `session`, whose cleanup is complete.
use urnetwork_client.Base.{
  ◌≡◌, refl, ap, ◌∙◌, ◌&&◌, List, [], ◌∷◌, ◌++◌, Bytes, subst, if◌then◌else◌,
}
use urnetwork_client.Config.{VpnConfig}
use urnetwork_client.Darwin.{tun_cidr_parts, get_system_dns_resolvers}
use urnetwork_client.Darwin.Routes.{Shell, Session, new_manager}
use urnetwork_client.Darwin.Routes.Cleanup.{Cleaned, session-Cleaned}
use urnetwork_client.Darwin.Routes.Methods.{Op, end_bypass, run_ops, cleanup}
use urnetwork_client.Darwin.Session.{route_ops, dns_ops, ends_bypass, leaves_loop, session}
use urnetwork_client.Darwin.Whole.{Host, def_gw, routed, installed, settled}
use urnetwork_client.Linux.Routes.{Names}

run_ops-append :
    (sh : Shell) (N : Names) (xs ys : List Op) (s : Session)
    → run_ops sh N (xs ++ ys) s ≡ run_ops sh N ys (run_ops sh N xs s)
unfolding run_ops
run_ops-append sh N [] ys s = refl
run_ops-append sh N (x ∷ xs) ys s = run_ops-append sh N xs ys _

module _ (H : Host) (cfg : VpnConfig) (tun : Bytes) where
  settled_lem :
      session H.shell H.names cfg tun
        (def_gw H cfg)
        (get_system_dns_resolvers H.resolvers)
        (leaves_loop H.wakes)
      ≡ (
        settled H cfg (installed H cfg (routed H cfg tun)),
        cleanup H.shell (settled H cfg (installed H cfg (routed H cfg tun))),
      )
  unfolding session settled installed routed
  settled_lem =
      let routes = route_ops cfg in
      let resolvers = dns_ops cfg (def_gw H cfg) (get_system_dns_resolvers H.resolvers) in
      let ends = if ends_bypass cfg && leaves_loop H.wakes then end_bypass ∷ [] else [] in
      let s : Session = (new_manager tun (tun_cidr_parts cfg.ip_cidr).1 (def_gw H cfg), []) in
      ap (λ (t : Session). (t, cleanup H.shell t))
        (run_ops-append H.shell H.names routes (resolvers ++ ends) s
          ∙ run_ops-append H.shell H.names resolvers ends (run_ops H.shell H.names routes s))

  -- So the commands of `Darwin.Whole.managed` leave nothing of the session behind.
  pub settled-Cleaned :
      let t = settled H cfg (installed H cfg (routed H cfg tun)) in Cleaned t (cleanup H.shell t)
  settled-Cleaned =
      subst (λ r. Cleaned r.0 r.1) settled_lem
        (session-Cleaned H.shell H.names cfg tun (def_gw H cfg)
          (get_system_dns_resolvers H.resolvers) (leaves_loop H.wakes))
