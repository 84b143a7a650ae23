-- ===== src/Dataplane/Core/Course.antt =====
-- `vpnRunCore` keeps the rules of what is held.
use urnetwork_client.Base.{
  ◌≡◌, refl, Bool, true, ◌&&◌, List, [], ◌∷◌, none, some, Bytes, Bool-cases, Option, inl, inr,
}
use urnetwork_client.Config.{VpnConfig}
use urnetwork_client.Dataplane.{block_new_inbound}
use urnetwork_client.Dataplane.Stats.{has_stats, new_plane}
use urnetwork_client.Dataplane.Core.{
  Resource, server, Deed, logs, prints, waits, starts_client, starts_loop, starts_stats, vpn_rules,
  Trace, when, serve_out, proxy, vpn_run_core,
}
use urnetwork_client.Lifetime.{does, held}
use urnetwork_client.Lifetime.Scopes.{
  IsScoped, append-IsScoped, around-IsScoped, does-IsScoped, cons-IsScoped,
}
use urnetwork_client.Logger.{LogLevel, warn, info, debug, is_enabled}
use urnetwork_client.Socks.Server.{Service, vpn_service}
use urnetwork_client.Text.Laws.{equal_refl}

abbrev pub IsOrderly : Trace → List Resource → Type 0
IsOrderly = IsScoped vpn_rules

pub same_server : (s : Service) → vpn_rules.same (server s) (server s) ≡ true
same_server s = equal_refl s.listen_addr

pub when-IsOrderly :
    (b : Bool) (a : Deed) (rs : List Resource)
    → vpn_rules.may_do rs a ≡ true
    → IsOrderly (when b (does a)) rs
unfolding held
when-IsOrderly true a rs h = does-IsScoped vpn_rules a rs h
when-IsOrderly Bool.false a rs h = refl

module _ (listens : Service → Bool) (level : LogLevel) where
  pub serve_out-IsOrderly :
      (rs : List Resource)
      → vpn_rules.may_do rs waits ≡ true
      → IsOrderly (serve_out listens level) rs
  serve_out-IsOrderly rs h =
      append-IsScoped vpn_rules _ (does waits ∷ []) rs
        (when-IsOrderly (is_enabled info level) prints rs refl) (does-IsScoped vpn_rules waits rs h)

  pub proxy-IsOrderly :
      (o : Option Service) (rs : List Resource)
      → vpn_rules.may_do rs waits ≡ true
      → IsOrderly (proxy listens level o) rs
  unfolding proxy
  proxy-IsOrderly none rs h = serve_out-IsOrderly rs h
  proxy-IsOrderly (some s) rs h = elim (Bool-cases (listens s)) [
    | inl k ↦ rw k (
        around-IsScoped vpn_rules (server s) (does (logs info) ∷ serve_out listens level) rs
          (same_server s)
          (cons-IsScoped vpn_rules (logs info) _ (server s ∷ rs) refl
            (serve_out-IsOrderly (server s ∷ rs) refl)))
    | inr k ↦ rw k (cons-IsScoped vpn_rules (logs warn) _ rs refl (serve_out-IsOrderly rs h))
  ]

  -- On a device with its routes.
  pub vpn_run_core-IsOrderly :
      (cfg : VpnConfig) (tun : Bytes) (on_before_exit : Trace) (rs : List Resource)
      → vpn_rules.may_do rs waits ≡ true
      → vpn_rules.may_do rs starts_client ≡ true
      → IsOrderly on_before_exit rs
      → IsOrderly (vpn_run_core listens level cfg tun on_before_exit) rs
  unfolding vpn_run_core
  vpn_run_core-IsOrderly cfg tun on_before_exit rs w c b =
      append-IsScoped vpn_rules
        (when (block_new_inbound cfg && is_enabled info level) (does (logs info))) _ rs
        (when-IsOrderly (block_new_inbound cfg && is_enabled info level) (logs info) rs refl)
        (append-IsScoped vpn_rules
          (does starts_client
            ∷ does starts_loop
            ∷ when (has_stats cfg level new_plane) (does starts_stats))
          _ rs
          (cons-IsScoped vpn_rules starts_client _ rs c (
            cons-IsScoped vpn_rules starts_loop _ rs c
              (when-IsOrderly (has_stats cfg level new_plane) starts_stats rs c)))
          (append-IsScoped vpn_rules
            (proxy listens level (vpn_service cfg tun (is_enabled debug level))) on_before_exit rs
            (proxy-IsOrderly (vpn_service cfg tun (is_enabled debug level)) rs w) b))
