-- ===== src/Darwin/Routes/Variants.antt =====
-- routes_darwin.go: the variants of a split route.
use urnetwork_client.Base.{
  ◌≡◌, refl, sym, ap, ◌∙◌, ◌⊎◌, inl, inr, Bool, true, false, List, [], ◌∷◌, ◌++◌, All, All-append,
  Bytes, if◌then◌else◌, append_assoc, append-nil,
}
use urnetwork_client.Text.{is_empty}
use urnetwork_client.Darwin.Routes.{
  Target, net, net_mask, Way, interface, peer, Command, add, change, Answer, Entry, Shell, Session,
  exists, ask, split_up,
}
use urnetwork_client.Darwin.Routes.Methods.{cidr_of, variant, add_variant}
use urnetwork_client.Darwin.Routes.Steps.{Routes, adds, changes}

abbrev pub Fails : Entry → Type 0
Fails e = e.1.is_ok ≡ false

-- How the variants end from `s`: behind commands that fail, with a route to a target with `P` that
-- is added or changed, which is noted as the only one; or with nothing noted.
pub data Split (P : Target → Type 0) (s : Session) : Session → Type 0 where
  up :
      (fails : List Entry) (c : Command) (a : Answer) (t : Target) (u : Session)
      → All Fails fails
      → P t
      → Routes t c
      → a.is_ok ≡ true
      → u ≡ split_up t (s.0, s.1 ++ (fails ++ ((c, a) ∷ [])))
      → Split P s u
  missing :
      (fails : List Entry) (u : Session) → All Fails fails → u ≡ (s.0, s.1 ++ fails) → Split P s u

-- The target of a split route.
abbrev pub IsHalf : Bytes → Bytes → Target → Type 0
IsHalf dest mask t = (t ≡ net_mask dest mask) ⊎ (t ≡ net (cidr_of dest))

-- Behind commands that fail.
behind :
    (P : Target → Type 0) (s : Session) (fs : List Entry) (u : Session)
    → All Fails fs
    → Split P (s.0, s.1 ++ fs) u
    → Split P s u
behind P s fs u p (up fails c a t _ q m r k e) =
    up (fs ++ fails) c a t u (All-append Fails fs fails p q) m r k (
      e
      ∙ ap (λ l. split_up t (s.0, l))
          (append_assoc s.1 fs (fails ++ ((c, a) ∷ []))
            ∙ ap (s.1 ++◌) (sym (append_assoc fs fails ((c, a) ∷ [])))))
behind P s fs u p (missing fails _ q e) =
    missing (fs ++ fails) u (All-append Fails fs fails p q)
      (e ∙ ap (λ l. (s.0, l)) (append_assoc s.1 fs fails))

-- Each branch of a test ends so where it is taken.
if-Split :
    (P : Target → Type 0) (s : Session) (b : Bool) (x y : Session)
    → (b ≡ true → Split P s x)
    → (b ≡ false → Split P s y)
    → Split P s (if b then x else y)
if-Split P s true x y f g = f refl
if-Split P s false x y f g = g refl

module _ (sh : Shell) (P : Target → Type 0) where
  -- A command that notes its target where it succeeds, and goes on where it fails.
  command-Split :
      (t : Target) (c : Command) (s : Session) (next : Session → Session)
      → Routes t c
      → P t
      → ((u : Session) → Split P u (next u))
      → Split P s (ask sh c (λ a u. if a.is_ok then split_up t u else next u) s)
  command-Split t c s next r m f =
      let u : Session = (s.0, s.1 ++ ((c, sh s.1 c) ∷ [])) in
      if-Split P s (sh s.1 c).is_ok (split_up t u) (next u)
        (λ e. up [] c (sh s.1 c) t _ tt m r e refl)
        (λ e. behind P s ((c, sh s.1 c) ∷ []) _ (e, tt) (f u))

  variant-Split :
      (t : Target) (w : Way) (s : Session) (next : Session → Session)
      → P t
      → ((u : Session) → Split P u (next u))
      → Split P s (variant sh t w next s)
  unfolding variant
  variant-Split t w s next m f =
      let again =
        λ (u : Session). ask sh (change t w) (λ b v. if b.is_ok then split_up t v else next v) u in
      command-Split t (add t w) s (λ u. if exists (sh s.1 (add t w)) then again u else next u)
        (adds w) m
        (λ u.
          if-Split P u (exists (sh s.1 (add t w))) (again u) (next u)
            (λ e. command-Split t (change t w) u next (changes w) m f) (λ e. f u))

  none-Split : (u : Session) → Split P u u
  none-Split u = missing [] u tt (ap (λ l. (u.0, l)) (sym (append-nil u.1)))

-- However the commands are answered, `addVariant` stops with the first one that succeeds and notes its
-- target, and nothing else; all commands before it have failed. If all fail, nothing is noted. The
-- target is the destination with the mask, or with `/1`.
pub add_variant-Split :
    (sh : Shell) (dest mask : Bytes) (s : Session)
    → Split (IsHalf dest mask) s (add_variant sh dest mask s)
unfolding add_variant
add_variant-Split sh dest mask s =
    let P = IsHalf dest mask in
    let by_peer = peer s.0.peer_ip s.0.tun_name in
    let masked = net_mask dest mask in
    let cidr = net (cidr_of dest) in
    let last : Session → Session =
      λ u. variant sh masked by_peer (variant sh cidr by_peer (λ v. v)) u in
    let last-Split = λ (u : Session).
      variant-Split sh P masked by_peer u (variant sh cidr by_peer (λ v. v)) (inl refl)
        (λ v. variant-Split sh P cidr by_peer v (λ w. w) (inr refl) (none-Split sh P)) in
    let next : Session → Session = λ u. if is_empty s.0.peer_ip then u else last u in
    let next-Split = λ (u : Session).
      if-Split P u (is_empty s.0.peer_ip) u (last u) (λ e. none-Split sh P u) (λ e. last-Split u) in
    variant-Split sh P masked (interface s.0.tun_name) s
      (variant sh cidr (interface s.0.tun_name) next) (inl refl)
      (λ u. variant-Split sh P cidr (interface s.0.tun_name) u next (inr refl) next-Split)
