-- ===== src/Darwin/Whole/Ordered.antt =====
-- `cmdVpn` on macOS: what is held along a session.
use urnetwork_client.Base.{
  refl, not, ◌&&◌, ◌||◌, List, [], ◌∷◌, ◌++◌, map, drop, length, Option, none, some, Bytes, codes,
}
use urnetwork_client.Config.{VpnConfig}
use urnetwork_client.Darwin.Routes.{Entry}
use urnetwork_client.Darwin.Routes.Methods.{cleanup}
use urnetwork_client.Darwin.Session.{
  keeps_bypass, ends_bypass, Start, nothing_to_do, socks_only, start_of, open_device, configure,
}
use urnetwork_client.Darwin.Whole.{
  Host, words, route, is_none, ran, def_gw, routed, installed, settled, detects, asks_resolvers,
  managed, on_device, tunnelled, run_start, cmd_vpn,
}
use urnetwork_client.Dataplane.Core.{
  Resource, device, manager, logs, commands, starts_bypass_end, vpn_rules, when, vpn_run_core,
}
use urnetwork_client.Dataplane.Core.Course.{IsOrderly, when-IsOrderly, vpn_run_core-IsOrderly}
use urnetwork_client.Lifetime.{does, held}
use urnetwork_client.Lifetime.Scopes.{append-IsScoped, around-IsScoped, cons-IsScoped}
use urnetwork_client.Logger.{warn, info}
use urnetwork_client.Session.Course.{create_tun_failed, finished, is_missing, does_all, greeting}
use urnetwork_client.Session.Course.Ordered.{
  does_all-IsOrderly, IsOrdered, when-IsLog, after-IsOrdered, failed-IsOrdered, finished-IsOrdered,
  greeting-IsLog, greeting-IsOrderly, proxied-IsOrdered,
}
use urnetwork_client.Text.{is_empty, trim_space}
use urnetwork_client.Text.Laws.{equal_refl}

module _ (H : Host) (cfg : VpnConfig) where
  managed-IsOrderly : (tun : Bytes) → IsOrderly (managed H cfg tun) (device tun ∷ [])
  unfolding managed
  managed-IsOrderly tun =
      let r = routed H cfg tun in
      let s = installed H cfg r in
      let t = settled H cfg s in
      let rs : List Resource = manager ∷ device tun ∷ [] in
      let core = vpn_run_core H.listens H.level cfg tun [] in
      let log = λ (es : List Entry).
        does_all-IsOrderly (map (λ (e : Entry). words e.0) es) rs (λ c. refl) in
      let dns = drop (length r.1) s.1 in
      let undo = drop (length t.1) (cleanup H.shell t) in
      let b = ends_bypass cfg in
      let ends = core ++ ran undo in
      around-IsScoped vpn_rules manager
        (ran r.1
          ++ (asks_resolvers H cfg ++ (ran dns ++ (when b (does starts_bypass_end) ++ ends))))
        (device tun ∷ []) refl
        (append-IsScoped vpn_rules (ran r.1)
          (asks_resolvers H cfg ++ (ran dns ++ (when b (does starts_bypass_end) ++ ends))) rs
          (log r.1)
          (append-IsScoped vpn_rules (asks_resolvers H cfg)
            (ran dns ++ (when b (does starts_bypass_end) ++ ends)) rs
            (when-IsOrderly
              (is_empty cfg.dns_list && (keeps_bypass cfg && not (is_empty (def_gw H cfg))))
              (commands (codes "scutil" ∷ codes "--dns" ∷ [])) rs refl)
            (append-IsScoped vpn_rules (ran dns) (when b (does starts_bypass_end) ++ ends) rs
              (log dns)
              (append-IsScoped vpn_rules (when b (does starts_bypass_end)) ends rs
                (when-IsOrderly b starts_bypass_end rs refl)
                (append-IsScoped vpn_rules core (ran undo) rs
                  (vpn_run_core-IsOrderly H.listens H.level cfg tun [] rs refl refl
                    (unfold held in refl))
                  (log undo))))))

  detects-IsOrderly : (tun : Bytes) → IsOrderly (detects H cfg) (device tun ∷ [])
  detects-IsOrderly tun =
      let b =
        is_empty (def_gw H cfg)
        && (cfg.default_route || not (is_empty (trim_space cfg.exclude_routes))) in
      cons-IsScoped vpn_rules (commands (route (codes "get") (codes "default" ∷ [])))
        (when b (does (logs warn))) (device tun ∷ []) refl
        (when-IsOrderly b (logs warn) (device tun ∷ []) refl)

  on_device-IsOrderly : (tun : Bytes) → IsOrderly (on_device H cfg tun) []
  unfolding on_device
  on_device-IsOrderly tun =
      let set_up = does_all (configure cfg tun) in
      let rs : List Resource = device tun ∷ [] in
      let b =
        not (is_empty cfg.socks_listen)
        && (not cfg.default_route && (is_empty cfg.extra_routes && is_empty cfg.exclude_routes)) in
      let rest = detects H cfg ++ managed H cfg tun in
      around-IsScoped vpn_rules (device tun)
        (does (logs info) ∷ (set_up ++ (when b (does (logs info)) ++ rest))) [] (equal_refl tun)
        (cons-IsScoped vpn_rules (logs info) (set_up ++ (when b (does (logs info)) ++ rest)) rs refl
          (append-IsScoped vpn_rules set_up (when b (does (logs info)) ++ rest) rs
            (does_all-IsOrderly (configure cfg tun) rs (λ c. refl))
            (append-IsScoped vpn_rules (when b (does (logs info))) rest rs
              (when-IsOrderly b (logs info) rs refl)
              (append-IsScoped vpn_rules (detects H cfg) (managed H cfg tun) rs
                (detects-IsOrderly tun) (managed-IsOrderly tun)))))

  opened-IsOrdered :
      (o : Option Bytes)
      → IsOrdered
          (elim o [ none ↦ (create_tun_failed, []) | some tun ↦ (finished, on_device H cfg tun) ])
  opened-IsOrdered none = failed-IsOrdered create_tun_failed
  opened-IsOrdered (some tun) = finished-IsOrdered (on_device H cfg tun) (on_device-IsOrderly tun)

  tunnelled-IsOrdered : (name : Bytes) → IsOrdered (tunnelled H cfg name)
  unfolding tunnelled
  tunnelled-IsOrdered name =
      let b = is_none (H.creates name) && not (is_empty (trim_space name)) in
      after-IsOrdered (when b (does (logs warn))) _ (when-IsLog b)
        (when-IsOrderly b (logs warn) [] refl)
        (opened-IsOrdered (open_device H.creates cfg.tun_name name))

  run_start-IsOrdered : (s : Start) → IsOrdered (run_start H cfg s)
  unfolding run_start
  run_start-IsOrdered nothing_to_do = finished-IsOrdered _ (unfold held in refl)
  run_start-IsOrdered socks_only = proxied-IsOrdered H.listens cfg
  run_start-IsOrdered (Start.device name) =
      after-IsOrdered (when (is_missing cfg) (does (logs warn))) (tunnelled H cfg name)
        (when-IsLog (is_missing cfg)) (when-IsOrderly (is_missing cfg) (logs warn) [] refl)
        (tunnelled-IsOrdered name)

  -- On macOS too, whatever the settings are and whatever the system answers, `cmdVpn` ends with
  -- what has a deferred release released, each time what was acquired last: the server before the
  -- routes, by `Cleanup`, and the device at the end. Its own commands run only while the device is
  -- there, the multi-client, the packet loop, the ticker and the goroutine that ends the bypass are
  -- started only while its routes are managed too, and it never waits where it holds neither a
  -- server nor a device with its routes. Where it returns an error, it has done nothing but log.
  -- How long what is started runs on, and the commands of that goroutine, are not part of this.
  pub darwin_cmd_vpn-IsOrdered : IsOrdered (cmd_vpn H cfg)
  unfolding cmd_vpn
  darwin_cmd_vpn-IsOrdered =
      after-IsOrdered (greeting cfg) (run_start H cfg (start_of cfg)) (greeting-IsLog cfg)
        (greeting-IsOrderly cfg) (run_start-IsOrdered (start_of cfg))
