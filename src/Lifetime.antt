-- ===== src/Lifetime.antt =====
-- What the commands acquire and release: the deferred calls of cmdVpn and of cmdOpen, and the end of
-- vpnRunCore. A trace is a list of steps; `held` follows what is held along it.
pub mod Scopes
use urnetwork_client.Base.{Bool, List, [], ◌∷◌, Option, none, some, if◌then◌else◌}

-- To acquire or to release something, or something else that is done.
pub data Step (R A : Type 0) : Type 0 where
  acquires releases : R → Step R A
  does : A → Step R A

abbrev pub acts : {R A : Type 0} → List A → List (Step R A)
acts [] = []
acts (a ∷ as') = does a ∷ acts as'

-- A way of telling resources apart, and when an action may be done.
pub record Rules (R A : Type 0) : Type 0 where
  pub same : R → R → Bool
  pub may_do : List R → A → Bool

module _ {R A : Type 0} (rules : Rules R A) where
  -- What is held behind a trace, the newest first; nothing where something other than the newest is
  -- released, or where an action may not be done.
  unfoldable pub held : List (Step R A) → List R → Option (List R)
  held [] rs = some rs
  held (acquires r ∷ steps) rs = held steps (r ∷ rs)
  held (releases r ∷ steps) [] = none
  held (releases r ∷ steps) (q ∷ rs) =
      let rest = held steps rs in if rules.same r q then rest else none
  held (does a ∷ steps) rs = let rest = held steps rs in if rules.may_do rs a then rest else none
