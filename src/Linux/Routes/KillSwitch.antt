-- ===== src/Linux/Routes/KillSwitch.antt =====
-- routes_linux.go: what the kill switch leaves behind.
use urnetwork_client.Base.{
  ◌≡◌, refl, ◌⊎◌, inl, inr, Bool, true, false, not, ◌&&◌, List, [], ◌∷◌, ◌++◌, append_assoc,
  if◌then◌else◌, Bool-cases,
}
use urnetwork_client.Text.{is_empty}
use urnetwork_client.Linux.Routes.{
  Way, via, on, anywhere, Command, add_route, del_route, add_blackhole, Manager, Session,
  default_dest, add_kill_switch_route,
}

-- The original route has a gateway and a device.
abbrev pub has_gateway : Manager → Bool
has_gateway m = not (is_empty m.orig_gw) && not (is_empty m.orig_dev)

-- The default route that `m` takes to be in place.
abbrev pub original : Manager → Way
original m =
    if has_gateway m
    then via m.orig_gw m.orig_dev
    else if not (is_empty m.orig_dev)
    then on m.orig_dev
    else anywhere

abbrev pub tried : Session → List Command
tried s = (s.1 ++ (del_route default_dest (original s.0) ∷ [])) ++ (add_blackhole ∷ [])

-- The commands of the kill switch in `s`: the default route goes, the blackhole is tried, and
-- `rest` follows.
pub record Guard (ok : List Command → Bool) (s t : Session) : Type 0 where
  pub rest : List Command
  pub log : t.1 ≡ s.1 ++ (del_route default_dest (original s.0) ∷ add_blackhole ∷ rest)
  pub asked : t.0.kill_switch ≡ true
  pub outcome :
      ((ok (tried s) ≡ true) × (t.0.kill_switch_added ≡ true) × (rest ≡ []))
      ⊎ ((ok (tried s) ≡ false)
          × (t.0.kill_switch_added ≡ s.0.kill_switch_added)
          × (has_gateway s.0 ≡ true)
          × (rest ≡ add_route default_dest (original s.0) ∷ []))
      ⊎ ((ok (tried s) ≡ false)
          × (t.0.kill_switch_added ≡ s.0.kill_switch_added)
          × (has_gateway s.0 ≡ false)
          × (rest ≡ []))

failed-Guard :
    (ok : List Command → Bool) (m : Manager) (log : List Command)
    → ok (tried (m, log)) ≡ false
    → Guard ok
        (m, log)
        (
          record m { kill_switch = true },
          (if has_gateway m
              then tried (m, log) ++ (add_route default_dest (via m.orig_gw m.orig_dev) ∷ [])
              else tried (m, log)),
        )
failed-Guard ok m log e = elim (Bool-cases (has_gateway m)) [
  | inl g ↦ record {
    rest = add_route default_dest (original m) ∷ [];
    log = rw g (simp append_assoc);
    asked = refl;
    outcome = inr (inl (e, refl, g, refl));
  }
  | inr g ↦ record {
    rest = [];
    log = rw g (append_assoc log _ _);
    asked = refl;
    outcome = inr (inr (e, refl, g, refl));
  }
]

-- The kill switch first deletes the original default route and then tries the blackhole. It counts
-- as added where that succeeds. Where it fails, the very route that was deleted is added again if
-- the original route had a gateway and a device, and else nothing is added again.
pub add_kill_switch_route-Guard :
    (ok : List Command → Bool) (s : Session) → Guard ok s (add_kill_switch_route ok s)
unfolding add_kill_switch_route
add_kill_switch_route-Guard ok (m, log) = elim (Bool-cases (ok (tried (m, log)))) [
  | inl e ↦ rw e (record {
    rest = [];
    log = append_assoc log _ _;
    asked = refl;
    outcome = inl (e, refl, refl);
  })
  | inr e ↦ rw e (failed-Guard ok m log e)
]
