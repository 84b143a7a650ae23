-- ===== src/Darwin/Routes/Kept.antt =====
-- routes_darwin.go: which routes of the session are in place, and which are on record.
use urnetwork_client.Base.{
  ◌≡◌, refl, ap, Bool, true, false, not, ◌&&◌, ◌||◌, List, [], ◌∷◌, ◌++◌, Option, none, some, arith,
  Bytes, if◌then◌else◌,
}
use urnetwork_client.Text.{equal}
use urnetwork_client.Darwin.Routes.{
  Target, host, net, net_mask, add, change, delete, delete_default, add_blackhole, add_default,
  set_dns, clear_dns, down, Entry, Manager, Session, exists,
}
use urnetwork_client.Darwin.Routes.Methods.{hosts}

unfoldable pub same : Target → Target → Bool
same (host a) (host b) = equal a b
same (host a) (net b) = false
same (host a) (net_mask b k) = false
same (net a) (host b) = false
same (net a) (net b) = equal a b
same (net a) (net_mask b k) = false
same (net_mask a m) (host b) = false
same (net_mask a m) (net b) = false
same (net_mask a m) (net_mask b k) = equal a b && equal m k

unfoldable pub is_in : Target → List Target → Bool
unfolding same
is_in d [] = false
is_in d (t ∷ ts) = same d t || is_in d ts

-- Whether the route to `d` is in place behind a command, if it was before: the session has put it
-- there, and has not deleted it.
unfoldable pub after : Target → Entry → Bool → Bool
unfolding same
after d (add t w, a) b = (same d t && a.is_ok) || b
after d (change t w, a) b = (same d t && a.is_ok) || b
after d (delete t, a) b = not (same d t) && b
after d (delete_default, a) b = b
after d (add_blackhole, a) b = b
after d (add_default gw, a) b = b
after d (set_dns s l, a) b = b
after d (clear_dns s, a) b = b
after d (down tun, a) b = b

unfoldable pub stands : Target → Bool → List Entry → Bool
unfolding after
stands d b [] = b
stands d b (e ∷ es) = stands d (after d e b) es

-- Whether the session has added or changed a route to `d`, or found that there was one.
unfoldable pub tries : Target → Entry → Bool
unfolding same exists
tries d (add t w, a) = same d t && (a.is_ok || exists a)
tries d (change t w, a) = same d t && (a.is_ok || exists a)
tries d (delete t, a) = false
tries d (delete_default, a) = false
tries d (add_blackhole, a) = false
tries d (add_default gw, a) = false
tries d (set_dns s l, a) = false
tries d (clear_dns s, a) = false
tries d (down tun, a) = false

unfoldable pub tried : Target → List Entry → Bool
unfolding tries
tried d [] = false
tried d (e ∷ es) = tries d e || tried d es

-- Whether the session deletes the route to `d`.
unfoldable pub drops : Target → List Entry → Bool
unfolding same
drops d [] = false
drops d ((delete t, a) ∷ es) = same d t || drops d es
drops d (_ ∷ es) = drops d es

-- What is left of a service when this one is cleared.
abbrev pub without : Bytes → Option Bytes → Option Bytes
without s none = none
without s (some t) = if equal s t then none else some t

-- The service whose resolvers the session has set last, and which it has not cleared since.
unfoldable pub service_of : Option Bytes → List Entry → Option Bytes
service_of o [] = o
service_of o ((set_dns s l, a) ∷ es) = service_of (if a.is_ok then some s else o) es
service_of o ((clear_dns s, a) ∷ es) = service_of (without s o) es
service_of o (_ ∷ es) = service_of o es

-- Whether a default route is added again.
unfoldable pub restores : List Entry → Bool
restores [] = false
restores ((add_default gw, a) ∷ es) = true
restores (_ ∷ es) = restores es

abbrev pub is_recorded : Target → Manager → Bool
is_recorded d m =
    is_in d m.added_splits
    || (is_in d m.added_excludes
        || (is_in d m.added_scoped_excls
            || (is_in d (hosts m.added_ctrl_bypass)
                || (is_in d (hosts m.added_dns_bypass)
                    || (is_in d m.added_extra || is_in d m.added_dns_tun)))))

pub or_assoc : (a b c : Bool) → ((a || b) || c) ≡ (a || (b || c))
or_assoc a b c = ground arith

pub is_in-append :
    (d : Target) (xs ys : List Target) → is_in d (xs ++ ys) ≡ (is_in d xs || is_in d ys)
unfolding is_in
is_in-append d [] ys = refl
is_in-append d (x ∷ xs) ys = rw (is_in-append d xs ys) (ground arith)

pub hosts-append : (xs ys : List Bytes) → hosts (xs ++ ys) ≡ hosts xs ++ hosts ys
hosts-append [] ys = refl
hosts-append (x ∷ xs) ys = ap (◌∷◌ (host x)) (hosts-append xs ys)

pub stands-append :
    (d : Target) (b : Bool) (xs ys : List Entry)
    → stands d b (xs ++ ys) ≡ stands d (stands d b xs) ys
unfolding stands
stands-append d b [] ys = refl
stands-append d b (x ∷ xs) ys = stands-append d (after d x b) xs ys

pub tried-append :
    (d : Target) (xs ys : List Entry) → tried d (xs ++ ys) ≡ (tried d xs || tried d ys)
unfolding tried
tried-append d [] ys = refl
tried-append d (x ∷ xs) ys = rw (tried-append d xs ys) (ground arith)

pub drops-append :
    (d : Target) (xs ys : List Entry) → drops d (xs ++ ys) ≡ (drops d xs || drops d ys)
unfolding drops
drops-append d [] ys = refl
drops-append d ((delete t, a) ∷ xs) ys = rw (drops-append d xs ys) (ground arith)
drops-append d ((set_dns s l, a) ∷ xs) ys = drops-append d xs ys
drops-append d ((clear_dns s, a) ∷ xs) ys = drops-append d xs ys
drops-append d ((add t w, a) ∷ xs) ys = drops-append d xs ys
drops-append d ((change t w, a) ∷ xs) ys = drops-append d xs ys
drops-append d ((delete_default, a) ∷ xs) ys = drops-append d xs ys
drops-append d ((add_blackhole, a) ∷ xs) ys = drops-append d xs ys
drops-append d ((add_default gw, a) ∷ xs) ys = drops-append d xs ys
drops-append d ((down tun, a) ∷ xs) ys = drops-append d xs ys

pub service_of-append :
    (o : Option Bytes) (xs ys : List Entry)
    → service_of o (xs ++ ys) ≡ service_of (service_of o xs) ys
unfolding service_of
service_of-append o [] ys = refl
service_of-append o ((set_dns s l, a) ∷ xs) ys =
    service_of-append (if a.is_ok then some s else o) xs ys
service_of-append o ((clear_dns s, a) ∷ xs) ys = service_of-append (without s o) xs ys
service_of-append o ((add t w, a) ∷ xs) ys = service_of-append o xs ys
service_of-append o ((change t w, a) ∷ xs) ys = service_of-append o xs ys
service_of-append o ((delete t, a) ∷ xs) ys = service_of-append o xs ys
service_of-append o ((delete_default, a) ∷ xs) ys = service_of-append o xs ys
service_of-append o ((add_blackhole, a) ∷ xs) ys = service_of-append o xs ys
service_of-append o ((add_default gw, a) ∷ xs) ys = service_of-append o xs ys
service_of-append o ((down tun, a) ∷ xs) ys = service_of-append o xs ys

pub restores-append : (xs ys : List Entry) → restores (xs ++ ys) ≡ (restores xs || restores ys)
unfolding restores
restores-append [] ys = refl
restores-append ((add_default gw, a) ∷ xs) ys = refl
restores-append ((set_dns s l, a) ∷ xs) ys = restores-append xs ys
restores-append ((clear_dns s, a) ∷ xs) ys = restores-append xs ys
restores-append ((add t w, a) ∷ xs) ys = restores-append xs ys
restores-append ((change t w, a) ∷ xs) ys = restores-append xs ys
restores-append ((delete t, a) ∷ xs) ys = restores-append xs ys
restores-append ((delete_default, a) ∷ xs) ys = restores-append xs ys
restores-append ((add_blackhole, a) ∷ xs) ys = restores-append xs ys
restores-append ((down tun, a) ∷ xs) ys = restores-append xs ys

-- The manager and the log agree on a target `d`: what is in place is on record, what is on record
-- or was deleted has been tried; on the resolvers; and on the default route. Where `extra` is true,
-- `d` is about to be recorded.
pub record IsKept (d : Target) (extra : Bool) (s : Session) : Type 0 where
  pub present : (not (stands d false s.1) || (is_recorded d s.0 || extra)) ≡ true
  pub known : (not (is_recorded d s.0 || extra) || tried d s.1) ≡ true
  pub owned : (not (drops d s.1) || tried d s.1) ≡ true
  pub named : service_of none s.1 ≡ (if s.0.dns_configured then some s.0.dns_service else none)
  pub guarded : (not s.0.kill_switch_added || s.0.kill_switch) ≡ true
  pub shut : restores s.1 ≡ false

-- What notes a target in one of the manager's lists.
pub record Notes (t : Target) (k : Session → Session) : Type 0 where
  pub recorded :
      (d : Target) (s : Session) → is_recorded d (k s).0 ≡ (is_recorded d s.0 || same d t)
  pub log : (s : Session) → (k s).1 ≡ s.1
  pub resolvers :
      (s : Session)
      → ((k s).0.dns_configured ≡ s.0.dns_configured) × ((k s).0.dns_service ≡ s.0.dns_service)
  pub switch :
      (s : Session)
      → ((k s).0.kill_switch_added ≡ s.0.kill_switch_added)
        × ((k s).0.kill_switch ≡ s.0.kill_switch)

pub Notes-Kept :
    (d t : Target) (k : Session → Session) (s : Session)
    → Notes t k
    → IsKept d (same d t) s
    → IsKept d false (k s)
Notes-Kept d t k s n p = record {
  present = rw (n.log s, n.recorded d s) (ground (arith, p.present));
  known = rw (n.log s, n.recorded d s) (ground (arith, p.known));
  owned = rw (n.log s) p.owned;
  named = rw (n.log s, (n.resolvers s).0, (n.resolvers s).1) p.named;
  guarded = rw ((n.switch s).0, (n.switch s).1) p.guarded;
  shut = rw (n.log s) p.shut;
}
