-- ===== src/Darwin/Routes/Deletes.antt =====
-- routes_darwin.go: the methods that delete routes, and the one on the resolvers.
use urnetwork_client.Base.{
  ◌≡◌, refl, ◌∙◌, inl, inr, Bool, true, false, not, ◌&&◌, ◌||◌, List, [], ◌∷◌, ◌++◌, none, arith,
  Bytes, if◌then◌else◌, Bool-cases, ◌⊎◌,
}
use urnetwork_client.Text.{is_empty}
use urnetwork_client.Darwin.Routes.{
  Target, Command, delete, delete_default, add_blackhole, set_dns, Answer, Entry, Shell, Session,
}
use urnetwork_client.Darwin.Routes.Methods.{
  hosts, delete_all, set_dns_servers, remove_dns_bypass, add_kill_switch_route,
}
use urnetwork_client.Darwin.Routes.Kept.{
  is_in, after, stands, tries, tried, drops, drops-append, service_of, restores, stands-append,
  tried-append, service_of-append, restores-append, IsKept,
}

-- What a deletion does to a log.
pub record Deletes (d : Target) (gone : Bool) (log cut : List Entry) : Type 0 where
  pub stands_lem : stands d false cut ≡ (not gone && stands d false log)
  pub tried_lem : tried d cut ≡ tried d log
  pub drops_lem : drops d cut ≡ (drops d log || gone)
  pub service_lem : service_of none cut ≡ service_of none log
  pub restores_lem : restores cut ≡ restores log

module _ (sh : Shell) (d : Target) where
  pub delete_all-Deletes :
      (ts : List Target) (log : List Entry) → Deletes d (is_in d ts) log (delete_all sh ts log)
  unfolding delete_all is_in stands after tried tries drops service_of restores
  delete_all-Deletes [] log = record {
    stands_lem = ground arith;
    tried_lem = refl;
    drops_lem = ground arith;
    service_lem = refl;
    restores_lem = refl;
  }
  delete_all-Deletes (t ∷ ts) log =
      let e : List Entry = (delete t, sh log (delete t)) ∷ [] in
      let rest = delete_all-Deletes ts (log ++ e) in
      record {
        stands_lem = rw (rest.stands_lem, stands-append d false log e) (ground arith);
        tried_lem = rw (rest.tried_lem, tried-append d log e) (ground arith);
        drops_lem = rw (rest.drops_lem, drops-append d log e) (ground arith);
        service_lem = rest.service_lem ∙ service_of-append none log e;
        restores_lem = rest.restores_lem ∙ rw (restores-append log e) (ground arith);
      }

  pub remove_dns_bypass-Kept :
      (s : Session) → IsKept d false s → IsKept d false (remove_dns_bypass sh s)
  unfolding remove_dns_bypass is_in
  remove_dns_bypass-Kept (m, log) p =
      let cut = delete_all-Deletes (hosts m.added_dns_bypass) log in
      record {
        present = rw cut.stands_lem (ground (arith, p.present));
        known = rw cut.tried_lem (ground (arith, p.known));
        owned = rw (cut.drops_lem, cut.tried_lem) (ground (arith, p.owned, p.known));
        named = cut.service_lem ∙ p.named;
        guarded = p.guarded;
        shut = cut.restores_lem ∙ p.shut;
      }

  -- The service is noted where the change succeeds.
  named-Kept :
      (servers : List Bytes) (service : Bytes) (a : Answer) (b : Bool) (s : Session)
      → a.is_ok ≡ b
      → IsKept d false s
      → IsKept d false (
          if b
          then (
            record s.0 { dns_configured = true; dns_service = service },
            s.1 ++ ((set_dns service servers, a) ∷ []),
          )
          else (s.0, s.1 ++ ((set_dns service servers, a) ∷ [])))
  unfolding stands after tried tries drops service_of restores
  named-Kept servers service a true s e p =
      let entry : List Entry = (set_dns service servers, a) ∷ [] in
      record {
        present = rw (stands-append d false s.1 entry) p.present;
        known = rw (tried-append d s.1 entry) (ground (arith, p.known));
        owned = rw (drops-append d s.1 entry, tried-append d s.1 entry) (ground (arith, p.owned));
        named = rw (service_of-append none s.1 entry, e) refl;
        guarded = p.guarded;
        shut = rw (restores-append s.1 entry, p.shut) refl;
      }
  named-Kept servers service a false s e p =
      let entry : List Entry = (set_dns service servers, a) ∷ [] in
      record {
        present = rw (stands-append d false s.1 entry) p.present;
        known = rw (tried-append d s.1 entry) (ground (arith, p.known));
        owned = rw (drops-append d s.1 entry, tried-append d s.1 entry) (ground (arith, p.owned));
        named = rw (service_of-append none s.1 entry, e) p.named;
        guarded = p.guarded;
        shut = rw (restores-append s.1 entry, p.shut) refl;
      }

  pub set_dns_servers-Kept :
      (servers : List Bytes) (service : Bytes) (s : Session)
      → IsKept d false s
      → IsKept d false (set_dns_servers sh servers service s)
  unfolding set_dns_servers
  set_dns_servers-Kept servers service s p =
      elim (Bool-cases (is_empty service || is_empty servers)) [
        | inl e ↦ rw e p
        | inr e ↦ rw e (named-Kept servers service (sh s.1 (set_dns service servers)) _ s refl p)
      ]

  flags-Kept :
      (on added : Bool) (s : Session)
      → (not added || on) ≡ true
      → IsKept d false s
      → IsKept d false (record s.0 { kill_switch = on; kill_switch_added = added }, s.1)
  flags-Kept on added s g p = record {
    present = p.present;
    known = p.known;
    owned = p.owned;
    named = p.named;
    guarded = g;
    shut = p.shut;
  }

  -- A command that takes the default route away.
  default-Kept :
      (c : Command) (a : Answer) (s : Session)
      → (c ≡ delete_default) ⊎ (c ≡ add_blackhole)
      → IsKept d false s
      → IsKept d false (s.0, s.1 ++ ((c, a) ∷ []))
  unfolding stands after tried tries drops service_of restores
  default-Kept c a s (inl e) p = record {
    present = rw (e, stands-append d false s.1 ((delete_default, a) ∷ [])) p.present;
    known = rw (e, tried-append d s.1 ((delete_default, a) ∷ [])) (ground (arith, p.known));
    owned =
        rw
          (
            e,
            drops-append d s.1 ((delete_default, a) ∷ []),
            tried-append d s.1 ((delete_default, a) ∷ []),
          )
          (ground (arith, p.owned));
    named = rw (e, service_of-append none s.1 ((delete_default, a) ∷ [])) p.named;
    guarded = p.guarded;
    shut = rw (e, restores-append s.1 ((delete_default, a) ∷ []), p.shut) refl;
  }
  default-Kept c a s (inr e) p = record {
    present = rw (e, stands-append d false s.1 ((add_blackhole, a) ∷ [])) p.present;
    known = rw (e, tried-append d s.1 ((add_blackhole, a) ∷ [])) (ground (arith, p.known));
    owned =
        rw
          (
            e,
            drops-append d s.1 ((add_blackhole, a) ∷ []),
            tried-append d s.1 ((add_blackhole, a) ∷ []),
          )
          (ground (arith, p.owned));
    named = rw (e, service_of-append none s.1 ((add_blackhole, a) ∷ [])) p.named;
    guarded = p.guarded;
    shut = rw (e, restores-append s.1 ((add_blackhole, a) ∷ []), p.shut) refl;
  }

  either-Kept :
      (b : Bool) (s t : Session)
      → IsKept d false s
      → IsKept d false t
      → IsKept d false (if b then s else t)
  either-Kept true s t p q = p
  either-Kept false s t p q = q

  either_switch :
      (b : Bool) (s t : Session)
      → s.0.kill_switch ≡ true
      → t.0.kill_switch ≡ true
      → (if b then s else t).0.kill_switch ≡ true
  either_switch true s t p q = p
  either_switch false s t p q = q

  blackhole-Kept :
      (s : Session)
      → s.0.kill_switch ≡ true
      → IsKept d false s
      → IsKept d false (
          let v : Session = (s.0, s.1 ++ ((add_blackhole, sh s.1 add_blackhole) ∷ [])) in
          if (sh s.1 add_blackhole).is_ok
          then (record v.0 { kill_switch_added = true }, v.1)
          else v)
  blackhole-Kept s k p =
      let v : Session = (s.0, s.1 ++ ((add_blackhole, sh s.1 add_blackhole) ∷ [])) in
      let q = default-Kept add_blackhole (sh s.1 add_blackhole) s (inr refl) p in
      either-Kept (sh s.1 add_blackhole).is_ok (record v.0 { kill_switch_added = true }, v.1) v
        (flags-Kept s.0.kill_switch true v (ground (arith, k)) q) q

  pub add_kill_switch_route-Kept :
      (s : Session) → IsKept d false s → IsKept d false (add_kill_switch_route sh s)
  unfolding add_kill_switch_route
  add_kill_switch_route-Kept s p =
      let u : Session = (record s.0 { kill_switch = true }, s.1) in
      let c : Session = (u.0, u.1 ++ ((delete_default, sh u.1 delete_default) ∷ [])) in
      let q = flags-Kept true s.0.kill_switch_added s (ground arith) p in
      blackhole-Kept (if is_empty s.0.def_gw then u else c)
        (either_switch (is_empty s.0.def_gw) u c refl refl)
        (either-Kept (is_empty s.0.def_gw) u c q (default-Kept delete_default _ u (inl refl) q))
