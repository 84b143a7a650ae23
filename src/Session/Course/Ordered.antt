-- ===== src/Session/Course/Ordered.antt =====
-- What both versions of `cmdVpn` need to keep the rules of what is held.
use urnetwork_client.Base.{
  ◌≡◌, ◌≢◌, refl, Bool, true, not, ◌&&◌, List, [], ◌∷◌, All, All-append, some, Bytes, Bool-cases,
  inl, inr,
}
use urnetwork_client.Config.{VpnConfig}
use urnetwork_client.Dataplane.Core.{Resource, Deed, logs, commands, vpn_rules, Trace, when}
use urnetwork_client.Dataplane.Core.Course.{IsOrderly, same_server, when-IsOrderly}
use urnetwork_client.Lifetime.{Step, does, held}
use urnetwork_client.Lifetime.Scopes.{append-IsScoped, cons-IsScoped}
use urnetwork_client.Logger.{warn, info}
use urnetwork_client.Session.Course.{
  Outcome, finished, start_socks_failed, does_all, after, greeting, proxied,
}
use urnetwork_client.Socks.Server.{Service, plain_service}

-- Commands run wherever a device is held.
pub does_all-IsOrderly :
    (cs : List (List Bytes)) (rs : List Resource)
    → ((c : List Bytes) → vpn_rules.may_do rs (commands c) ≡ true)
    → IsOrderly (does_all cs) rs
does_all-IsOrderly [] rs h = unfold held in refl
does_all-IsOrderly (c ∷ cs) rs h =
    cons-IsScoped vpn_rules (commands c) (does_all cs) rs (h c) (does_all-IsOrderly cs rs h)

-- A call of a log function.
abbrev pub IsLog : Step Resource Deed → Type 0
IsLog (does (logs _)) = Unit {0}
IsLog _ = ⊥

-- A trace by which everything is released again, and which only logs where the outcome is an error.
pub record IsOrdered (r : Outcome × Trace) : Type 0 where
  pub released : held vpn_rules r.1 [] ≡ some []
  pub quiet : r.0 ≢ finished → All IsLog r.1

pub when-IsLog : (b : Bool) → All IsLog (when b (does (logs warn)))
when-IsLog true = (tt, tt)
when-IsLog Bool.false = tt

pub after-IsOrdered :
    (steps : Trace) (r : Outcome × Trace)
    → All IsLog steps
    → IsOrderly steps []
    → IsOrdered r
    → IsOrdered (after steps r)
after-IsOrdered steps (outcome, more) l o h = record {
  released = append-IsScoped vpn_rules steps more [] o h.released;
  quiet = λ n. All-append IsLog steps more l (h.quiet n);
}

pub failed-IsOrdered : (o : Outcome) → IsOrdered (o, [])
failed-IsOrdered o = record { released = unfold held in refl; quiet = λ n. tt }

pub finished-IsOrdered : (t : Trace) → IsOrderly t [] → IsOrdered (finished, t)
finished-IsOrdered t h = record { released = h; quiet = λ n. absurd (n refl) }

pub greeting-IsLog : (cfg : VpnConfig) → All IsLog (greeting cfg)
greeting-IsLog cfg = (tt, when-IsLog (cfg.enable_kill_switch && not cfg.default_route))

pub greeting-IsOrderly : (cfg : VpnConfig) → IsOrderly (greeting cfg) []
greeting-IsOrderly cfg =
    let b = cfg.enable_kill_switch && not cfg.default_route in
    cons-IsScoped vpn_rules (logs info) (when b (does (logs warn))) [] refl
      (when-IsOrderly b (logs warn) [] refl)

module _ (listens : Service → Bool) (cfg : VpnConfig) where
  pub proxied-IsOrdered : IsOrdered (proxied listens cfg)
  unfolding proxied
  proxied-IsOrdered = elim (Bool-cases (listens (plain_service cfg))) [
    | inl e ↦ rw e (finished-IsOrdered _ (unfold held in rw (same_server (plain_service cfg)) refl))
    | inr e ↦ rw e (failed-IsOrdered start_socks_failed)
  ]
