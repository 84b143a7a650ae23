-- ===== src/Darwin/Routes/Steps.antt =====
-- routes_darwin.go: the commands that add routes, and the lists that note them.
use urnetwork_client.Base.{
  ◌≡◌, refl, inl, inr, Bool, true, false, not, ◌&&◌, ◌||◌, [], ◌∷◌, ◌++◌, none, arith,
  if◌then◌else◌, Bool-cases,
}
use urnetwork_client.Darwin.Routes.{
  Target, Way, Command, add, change, Answer, Shell, Session, exists, ask, noting,
}
use urnetwork_client.Darwin.Routes.Kept.{
  same, after, stands, tries, tried, drops, drops-append, service_of, restores, stands-append,
  tried-append, service_of-append, restores-append, IsKept, Notes, Notes-Kept,
}

-- A command that adds or changes a route to `t`.
pub data Routes (t : Target) : Command → Type 0 where
  adds : (w : Way) → Routes t (add t w)
  changes : (w : Way) → Routes t (change t w)

-- The three answers to such a command, with what holds of the session that has them in its log.
pub data Told (d t : Target) (a : Answer) (u : Session) : Type 0 where
  done : a.is_ok ≡ true → IsKept d (same d t) u → Told d t a u
  there :
      a.is_ok ≡ false → exists a ≡ true → IsKept d (same d t) u → IsKept d false u → Told d t a u
  refused : a.is_ok ≡ false → exists a ≡ false → IsKept d false u → Told d t a u

-- A command that does not succeed.
failed-Kept :
    (d t : Target) (c : Command) (a : Answer) (s : Session)
    → Routes t c
    → a.is_ok ≡ false
    → IsKept d false s
    → IsKept d false (s.0, s.1 ++ ((c, a) ∷ []))
unfolding stands after tried tries drops service_of restores
failed-Kept d t _ a s (adds w) f p = record {
  present = rw (stands-append d false s.1 ((add t w, a) ∷ []), f) (ground (arith, p.present));
  known = rw (tried-append d s.1 ((add t w, a) ∷ [])) (ground (arith, p.known));
  owned =
      rw (drops-append d s.1 ((add t w, a) ∷ []), tried-append d s.1 ((add t w, a) ∷ []))
        (ground (arith, p.owned));
  named = rw (service_of-append none s.1 ((add t w, a) ∷ [])) p.named;
  guarded = p.guarded;
  shut = rw (restores-append s.1 ((add t w, a) ∷ []), p.shut) refl;
}
failed-Kept d t _ a s (changes w) f p = record {
  present = rw (stands-append d false s.1 ((change t w, a) ∷ []), f) (ground (arith, p.present));
  known = rw (tried-append d s.1 ((change t w, a) ∷ [])) (ground (arith, p.known));
  owned =
      rw (drops-append d s.1 ((change t w, a) ∷ []), tried-append d s.1 ((change t w, a) ∷ []))
        (ground (arith, p.owned));
  named = rw (service_of-append none s.1 ((change t w, a) ∷ [])) p.named;
  guarded = p.guarded;
  shut = rw (restores-append s.1 ((change t w, a) ∷ []), p.shut) refl;
}

-- A command that finds a route in place, or puts it there.
placed-Kept :
    (d t : Target) (c : Command) (a : Answer) (s : Session)
    → Routes t c
    → (a.is_ok || exists a) ≡ true
    → IsKept d false s
    → IsKept d (same d t) (s.0, s.1 ++ ((c, a) ∷ []))
unfolding stands after tried tries drops service_of restores
placed-Kept d t _ a s (adds w) f p = record {
  present = rw (stands-append d false s.1 ((add t w, a) ∷ [])) (ground (arith, p.present));
  known = rw (tried-append d s.1 ((add t w, a) ∷ []), f) (ground (arith, p.known));
  owned =
      rw (drops-append d s.1 ((add t w, a) ∷ []), tried-append d s.1 ((add t w, a) ∷ []))
        (ground (arith, p.owned));
  named = rw (service_of-append none s.1 ((add t w, a) ∷ [])) p.named;
  guarded = p.guarded;
  shut = rw (restores-append s.1 ((add t w, a) ∷ []), p.shut) refl;
}
placed-Kept d t _ a s (changes w) f p = record {
  present = rw (stands-append d false s.1 ((change t w, a) ∷ [])) (ground (arith, p.present));
  known = rw (tried-append d s.1 ((change t w, a) ∷ []), f) (ground (arith, p.known));
  owned =
      rw (drops-append d s.1 ((change t w, a) ∷ []), tried-append d s.1 ((change t w, a) ∷ []))
        (ground (arith, p.owned));
  named = rw (service_of-append none s.1 ((change t w, a) ∷ [])) p.named;
  guarded = p.guarded;
  shut = rw (restores-append s.1 ((change t w, a) ∷ []), p.shut) refl;
}

told_lem :
    (d t : Target) (c : Command) (a : Answer) (s : Session)
    → Routes t c
    → IsKept d false s
    → Told d t a (s.0, s.1 ++ ((c, a) ∷ []))
told_lem d t c a s r p = elim (Bool-cases a.is_ok) [
  | inl e ↦ done e (placed-Kept d t c a s r (ground (arith, e)) p)
  | inr e ↦ elim (Bool-cases (exists a)) [
    | inl x ↦
        there e x (placed-Kept d t c a s r (ground (arith, e, x)) p) (failed-Kept d t c a s r e p)
    | inr x ↦ refused e x (failed-Kept d t c a s r e p)
  ]
]

pub placed_of :
    (d t : Target) (a : Answer) (u : Session)
    → Told d t a u
    → (a.is_ok || exists a) ≡ true
    → IsKept d (same d t) u
placed_of d t a u (done e p) f = p
placed_of d t a u (there e x p o) f = p
placed_of d t a u (refused e x o) f = ground (arith, e, x, f)

pub plain_of :
    (d t : Target) (a : Answer) (u : Session) → Told d t a u → a.is_ok ≡ false → IsKept d false u
plain_of d t a u (done e p) f = ground (arith, e, f)
plain_of d t a u (there e x p o) f = o
plain_of d t a u (refused e x o) f = o

-- The choice among three ways on.
choose :
    (d : Target) (b c : Bool) (x y z : Session)
    → (b ≡ true → IsKept d false x)
    → (b ≡ false → c ≡ true → IsKept d false y)
    → (b ≡ false → c ≡ false → IsKept d false z)
    → IsKept d false (if b then x else if c then y else z)
choose d true c x y z f g h = f refl
choose d false true x y z f g h = g refl refl
choose d false false x y z f g h = h refl refl

pub told-Kept :
    (d t : Target) (a : Answer) (u x y z : Session)
    → Told d t a u
    → (IsKept d (same d t) u → IsKept d false x)
    → (IsKept d (same d t) u → IsKept d false u → IsKept d false y)
    → (IsKept d false u → IsKept d false z)
    → IsKept d false (if a.is_ok then x else if exists a then y else z)
told-Kept d t a u x y z k f g h =
    choose d a.is_ok (exists a) x y z (λ e. f (placed_of d t a u k (ground (arith, e))))
      (λ e c. g (placed_of d t a u k (ground (arith, e, c))) (plain_of d t a u k e))
      (λ e c. h (plain_of d t a u k e))

pick :
    (d : Target) (b : Bool) (x y : Session)
    → (b ≡ true → IsKept d false x)
    → (b ≡ false → IsKept d false y)
    → IsKept d false (if b then x else y)
pick d true x y f g = f refl
pick d false x y f g = g refl

pub told2-Kept :
    (d t : Target) (a : Answer) (u x y : Session)
    → Told d t a u
    → (IsKept d (same d t) u → IsKept d false x)
    → (IsKept d false u → IsKept d false y)
    → IsKept d false (if a.is_ok then x else y)
told2-Kept d t a u x y k f g =
    pick d a.is_ok x y (λ e. f (placed_of d t a u k (ground (arith, e))))
      (λ e. g (plain_of d t a u k e))

pub noted-Kept :
    (d t : Target) (a : Answer) (u x y : Session)
    → Told d t a u
    → (IsKept d (same d t) u → IsKept d false x)
    → (IsKept d false u → IsKept d false y)
    → IsKept d false (if a.is_ok || exists a then x else y)
noted-Kept d t a u x y k f g =
    pick d (a.is_ok || exists a) x y (λ e. f (placed_of d t a u k e))
      (λ e. g (plain_of d t a u k (ground (arith, e))))

-- A second try, where the first one has neither succeeded nor found a route.
pub retry-Kept :
    (d t : Target) (a : Answer) (u : Session) (b : Bool) (x y : Session)
    → Told d t a u
    → (IsKept d false u → IsKept d false x)
    → IsKept d false y
    → IsKept d false (if not a.is_ok && (not (exists a) && b) then x else y)
retry-Kept d t a u b x y k f q =
    pick d (not a.is_ok && (not (exists a) && b)) x y
      (λ e. f (plain_of d t a u k (ground (arith, e)))) (λ e. q)

-- What goes on from each answer.
pub ask-Kept :
    (sh : Shell) (d t : Target) (c : Command) (k : Answer → Session → Session) (s : Session)
    → Routes t c
    → ((a : Answer) (u : Session) → Told d t a u → IsKept d false (k a u))
    → IsKept d false s
    → IsKept d false (ask sh c k s)
ask-Kept sh d t c k (m, log) r f p = f (sh log c) _ (told_lem d t c (sh log c) (m, log) r p)

pub noting-Kept :
    (sh : Shell) (d t : Target) (c : Command) (k : Session → Session) (s : Session)
    → Routes t c
    → Notes t k
    → IsKept d false s
    → IsKept d false (noting sh c k s)
noting-Kept sh d t c k s r n p = ask-Kept sh d t c _ s r noted p
  where
    noted : (a : Answer) (u : Session) → Told d t a u → IsKept d false (if a.is_ok then k u else u)
    noted a u (done e q) = rw e (Notes-Kept d t k u n q)
    noted a u (there e x q o) = rw e o
    noted a u (refused e x o) = rw e o
