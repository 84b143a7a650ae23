-- ===== src/Startup.antt =====
-- vpn_core.go: the summary of the settings that `logStartupConfig` logs.
pub mod Secret
use urnetwork_client.Base.{
  ℕ, suc, Bool, true, false, not, List, [], ◌∷◌, ◌++◌, Bytes, codes, if◌then◌else◌,
}
use urnetwork_client.Base.Int.{ℤ, pos, negsuc}
use urnetwork_client.Config.{VpnConfig}
use urnetwork_client.Socks.{itoa}
use urnetwork_client.Text.{is_empty, trim_space, join}

-- `%d` and `%t`
unfoldable pub decimal : ℤ → Bytes
unfolding itoa
decimal (pos n) = itoa n
decimal (negsuc n) = b'-' ∷ itoa (suc n)

abbrev truth : Bool → Bytes
truth b = if b then codes "true" else codes "false"

-- An item that is added where the test holds.
abbrev item : Bool → Bytes → List Bytes
item b text = if b then text ∷ [] else []

unfoldable pub startup_items : VpnConfig → List Bytes
unfolding decimal
startup_items cfg =
    let route = trim_space cfg.extra_routes in
    let exclude = trim_space cfg.exclude_routes in
    let dns = trim_space cfg.dns_list in
    ((codes "api_url=" ++ cfg.api_url)
      ∷ (codes "connect_url=" ++ cfg.connect_url)
      ∷ (codes "tun=" ++ cfg.tun_name)
      ∷ (codes "ip_cidr=" ++ cfg.ip_cidr)
      ∷ (codes "mtu=" ++ decimal cfg.mtu)
      ∷ (codes "default_route=" ++ truth cfg.default_route)
      ∷ [])
    ++ (item (not (is_empty route)) (codes "route=" ++ route)
        ++ (item (not (is_empty exclude)) (codes "exclude_route=" ++ exclude)
            ++ (item (not (is_empty dns)) (codes "dns=" ++ dns)
                ++ (item (not (is_empty cfg.dns_service)) (codes "dns_service=" ++ cfg.dns_service)
                    ++ (item (not (is_empty cfg.dns_bootstrap))
                          (codes "dns_bootstrap=" ++ cfg.dns_bootstrap)
                        ++ (item (not (is_empty cfg.socks_listen))
                              (codes "socks=" ++ cfg.socks_listen)
                            ++ (item (not (is_empty cfg.allow_domains))
                                  (codes "domain=" ++ join cfg.allow_domains b',')
                                ++ (item (not (is_empty cfg.exclude_domains))
                                      (codes "exclude_domain=" ++ join cfg.exclude_domains b',')
                                    ++ (item cfg.enable_kill_switch (codes "kill_switch=enabled")
                                        ++ (item cfg.enable_ipv6 (codes "ipv6=enabled")
                                            ++ ((codes "debug=" ++ truth cfg.debug)
                                                ∷ (if is_empty (trim_space cfg.jwt)
                                                    then codes "jwt=missing"
                                                    else codes "jwt=provided")
                                                ∷ [])))))))))))

-- The line, behind `startup: `.
unfoldable pub startup_line : VpnConfig → Bytes
unfolding startup_items
startup_line cfg = codes "startup: " ++ join (startup_items cfg) b' '
