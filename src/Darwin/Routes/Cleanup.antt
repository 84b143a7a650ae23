-- ===== src/Darwin/Routes/Cleanup.antt =====
-- routes_darwin.go and vpn_darwin.go: what a session leaves behind.
use urnetwork_client.Base.{
  ◌≡◌, refl, ap, ◌∙◌, inl, inr, Bool, true, false, not, ◌&&◌, ◌||◌, List, [], ◌∷◌, ◌++◌, Option,
  none, some, arith, Bytes, if◌then◌else◌, Bool-cases,
}
use urnetwork_client.Config.{VpnConfig}
use urnetwork_client.Linux.Routes.{Names}
use urnetwork_client.Text.Laws.{equal_refl}
use urnetwork_client.Darwin.{tun_cidr_parts}
use urnetwork_client.Darwin.Routes.{
  Target, host, Command, clear_dns, down, Entry, Shell, Session, new_manager,
}
use urnetwork_client.Darwin.Routes.Methods.{
  hosts, delete_all, cleanup, run, Op, bypass_endpoint, split_default, scoped_default,
  scoped_exclude, exclude, extra, dns, set_dns_to, end_bypass, kill, apply_op, run_ops,
}
use urnetwork_client.Darwin.Routes.Kept.{
  is_in, after, stands, tried, drops, drops-append, service_of, restores, is_recorded,
  stands-append, service_of-append, restores-append, IsKept,
}
use urnetwork_client.Darwin.Routes.Ops.{
  add_bypass_endpoint-Kept, add_split_default-Kept, add_scoped_default-Kept,
  add_scoped_exclude-Kept, add_exclude-Kept, add_extra_route-Kept, add_dns_server_routes-Kept,
}
use urnetwork_client.Darwin.Routes.Deletes.{
  Deletes, delete_all-Deletes, remove_dns_bypass-Kept, set_dns_servers-Kept,
  add_kill_switch_route-Kept,
}
use urnetwork_client.Darwin.Session.{route_ops, dns_ops, ends_bypass, session}

module _ (sh : Shell) (N : Names) where
  apply_op-Kept :
      (d : Target) (op : Op) (s : Session) → IsKept d false s → IsKept d false (apply_op sh N op s)
  unfolding apply_op
  apply_op-Kept d (bypass_endpoint url) s p = add_bypass_endpoint-Kept sh d N url s p
  apply_op-Kept d split_default s p = add_split_default-Kept sh d s p
  apply_op-Kept d scoped_default s p = add_scoped_default-Kept sh d s p
  apply_op-Kept d (scoped_exclude dest) s p = add_scoped_exclude-Kept sh d dest s p
  apply_op-Kept d (exclude dest) s p = add_exclude-Kept sh d dest s p
  apply_op-Kept d (extra dest) s p = add_extra_route-Kept sh d dest s p
  apply_op-Kept d (dns ips bypass) s p = add_dns_server_routes-Kept sh d bypass ips s p
  apply_op-Kept d (set_dns_to servers service) s p = set_dns_servers-Kept sh d servers service s p
  apply_op-Kept d end_bypass s p = remove_dns_bypass-Kept sh d s p
  apply_op-Kept d kill s p = add_kill_switch_route-Kept sh d s p

  pub run_ops-Kept :
      (d : Target) (ops : List Op) (s : Session)
      → IsKept d false s
      → IsKept d false (run_ops sh N ops s)
  unfolding run_ops
  run_ops-Kept d [] s p = p
  run_ops-Kept d (op ∷ ops) s p = run_ops-Kept d ops _ (apply_op-Kept d op s p)

pub new_manager-Kept :
    (d : Target) (tun peer_ip def_gw : Bytes) → IsKept d false (new_manager tun peer_ip def_gw, [])
unfolding new_manager stands tried drops service_of restores is_in
new_manager-Kept d tun peer_ip def_gw = record {
  present = refl;
  known = refl;
  owned = refl;
  named = refl;
  guarded = refl;
  shut = refl;
}

module _ (sh : Shell) where
  -- The deletions of `Cleanup`.
  abbrev emptied : Session → List Entry
  emptied (m, log) = delete_all sh m.added_dns_tun (
      delete_all sh m.added_extra (
        delete_all sh (hosts m.added_dns_bypass) (
          delete_all sh (hosts m.added_ctrl_bypass) (
            delete_all sh m.added_scoped_excls
              (delete_all sh m.added_excludes (delete_all sh m.added_splits log))))))

  emptied-Deletes : (d : Target) (s : Session) → Deletes d (is_recorded d s.0) s.1 (emptied s)
  emptied-Deletes d (m, log) =
      let l1 = delete_all sh m.added_splits log in
      let l2 = delete_all sh m.added_excludes l1 in
      let l3 = delete_all sh m.added_scoped_excls l2 in
      let l4 = delete_all sh (hosts m.added_ctrl_bypass) l3 in
      let l5 = delete_all sh (hosts m.added_dns_bypass) l4 in
      let l6 = delete_all sh m.added_extra l5 in
      join (delete_all-Deletes sh d m.added_splits log) (
        join (delete_all-Deletes sh d m.added_excludes l1) (
          join (delete_all-Deletes sh d m.added_scoped_excls l2) (
            join (delete_all-Deletes sh d (hosts m.added_ctrl_bypass) l3) (
              join (delete_all-Deletes sh d (hosts m.added_dns_bypass) l4) (
                join (delete_all-Deletes sh d m.added_extra l5)
                  (delete_all-Deletes sh d m.added_dns_tun l6))))))
    where
      join :
          {a b : Bool} {x y z : List Entry}
          → Deletes d a x y
          → Deletes d b y z
          → Deletes d (a || b) x z
      join p q = record {
        stands_lem = rw (q.stands_lem, p.stands_lem) (ground arith);
        tried_lem = q.tried_lem ∙ p.tried_lem;
        drops_lem = rw (q.drops_lem, p.drops_lem) (ground arith);
        service_lem = q.service_lem ∙ p.service_lem;
        restores_lem = q.restores_lem ∙ p.restores_lem;
      }

-- What is left of a session with the log `end`, where `s` was the session before its cleanup.
pub record Cleaned (s : Session) (end : List Entry) : Type 0 where
  pub gone : (d : Target) → stands d false end ≡ false
  pub owned : (d : Target) → drops d end ≡ true → tried d s.1 ≡ true
  pub unnamed : service_of none end ≡ none
  pub shut : restores end ≡ false

-- A command that is on no target.
data Quiet : Command → Type 0 where
  clears : (service : Bytes) → Quiet (clear_dns service)
  downs : (tun : Bytes) → Quiet (down tun)

module _ (sh : Shell) (d : Target) where
  run-Quiet :
      (c : Command) (log : List Entry)
      → Quiet c
      → (stands d false (run sh c log) ≡ stands d false log)
        × (drops d (run sh c log) ≡ drops d log)
        × (restores (run sh c log) ≡ restores log)
  unfolding stands after drops restores
  run-Quiet _ log (clears s) =
      let e : List Entry = (clear_dns s, sh log (clear_dns s)) ∷ [] in
      (
        stands-append d false log e,
        rw (drops-append d log e) (ground arith),
        rw (restores-append log e) (ground arith),
      )
  run-Quiet _ log (downs tun) =
      let e : List Entry = (down tun, sh log (down tun)) ∷ [] in
      (
        stands-append d false log e,
        rw (drops-append d log e) (ground arith),
        rw (restores-append log e) (ground arith),
      )

  -- What `Cleanup` runs behind the deletions, but for the default route.
  abbrev closed : Bool → Bytes → Bytes → List Entry → List Entry
  closed configured service tun log =
      run sh (down tun) (if configured then run sh (clear_dns service) log else log)

  closed_lem :
      (configured : Bool) (service tun : Bytes) (log : List Entry)
      → (stands d false (closed configured service tun log) ≡ stands d false log)
        × (drops d (closed configured service tun log) ≡ drops d log)
        × (restores (closed configured service tun log) ≡ restores log)
  closed_lem true service tun log =
      let a = run-Quiet (clear_dns service) log (clears service) in
      let b = run-Quiet (down tun) (run sh (clear_dns service) log) (downs tun) in
      (b.0 ∙ a.0, b.1 ∙ a.1, b.2 ∙ a.2)
  closed_lem false service tun log = run-Quiet (down tun) log (downs tun)

  closed_service :
      (configured : Bool) (service tun : Bytes) (log : List Entry)
      → service_of none log ≡ (if configured then some service else none)
      → service_of none (closed configured service tun log) ≡ none
  unfolding service_of
  closed_service true service tun log e =
      let l : List Entry = run sh (clear_dns service) log in
      service_of-append none l ((down tun, sh l (down tun)) ∷ [])
      ∙ service_of-append none log ((clear_dns service, sh log (clear_dns service)) ∷ [])
      ∙ rw e rw (equal_refl service) refl
  closed_service false service tun log e =
      service_of-append none log ((down tun, sh log (down tun)) ∷ []) ∙ e

module _ (sh : Shell) where
  cleanup_lem :
      (s : Session)
      → (not s.0.kill_switch_added || s.0.kill_switch) ≡ true
      → cleanup sh s
        ≡ closed sh (host []) s.0.dns_configured s.0.dns_service s.0.tun_name (emptied sh s)
  unfolding cleanup
  cleanup_lem (m, log) g = elim (Bool-cases (m.kill_switch_added && not m.kill_switch)) [
    | inl e ↦ ground (arith, e, g)
    | inr e ↦ rw e refl
  ]

  pub cleanup-Cleaned : (s : Session) → ((d : Target) → IsKept d false s) → Cleaned s (cleanup sh s)
  cleanup-Cleaned s p =
      let m = s.0 in
      let log = emptied sh s in
      let k = λ (d : Target). closed_lem sh d m.dns_configured m.dns_service m.tun_name log in
      let e = cleanup_lem s (p (host [])).guarded in
      record {
        gone = λ d.
            ap (stands d false) e
            ∙ (k d).0
            ∙ (emptied-Deletes sh d s).stands_lem
            ∙ ground (arith, (p d).present);
        owned = λ d q. ground (
          arith,
          q,
          ap (drops d) e ∙ (k d).1 ∙ (emptied-Deletes sh d s).drops_lem,
          (p d).owned,
          (p d).known,
        );
        unnamed =
            ap (service_of none) e
            ∙ closed_service sh (host []) m.dns_configured m.dns_service m.tun_name log
                ((emptied-Deletes sh (host []) s).service_lem ∙ (p (host [])).named);
        shut =
            ap restores e
            ∙ (k (host [])).2
            ∙ (emptied-Deletes sh (host []) s).restores_lem
            ∙ (p (host [])).shut;
      }

  -- A session on macOS, with its kill switch, resolvers and fallbacks, whatever each command answers,
  -- and with the goroutine that ends the bypass through before `Cleanup` or not come to it at all: at
  -- the end of `Cleanup`, for every route that the session has added or changed with success, a
  -- deletion has been run since; every target with a deletion was added or changed by a command that
  -- has succeeded or found a route in place; where the resolvers of a service were set with success,
  -- a command has been run since that clears those of the same service; and no default route was
  -- added again.
  pub session-Cleaned :
      (N : Names) (cfg : VpnConfig) (tun def_gw : Bytes) (resolvers : Option (List Bytes))
      (in_time : Bool)
      → let r = session sh N cfg tun def_gw resolvers in_time in Cleaned r.0 r.1
  unfolding session
  session-Cleaned N cfg tun def_gw resolvers in_time = cleanup-Cleaned _ (λ d.
      run_ops-Kept sh N d
        (route_ops cfg
          ++ (dns_ops cfg def_gw resolvers
              ++ (if ends_bypass cfg && in_time then end_bypass ∷ [] else [])))
        (new_manager tun (tun_cidr_parts cfg.ip_cidr).1 def_gw, [])
        (new_manager-Kept d tun (tun_cidr_parts cfg.ip_cidr).1 def_gw))
