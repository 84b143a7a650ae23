-- ===== src/Process/Filter.antt =====
-- process.go: the child's arguments.
use urnetwork_client.Base.{
  ◌≡◌, refl, true, false, List, [], ◌∷◌, All, some, Bytes, Bool-cases, inl, inr,
}
use urnetwork_client.Process.{is_background, drop_background, child_args}

-- An interleaving: `kept` and `dropped` in their order make up `args`.
pub data Split : List Bytes → List Bytes → List Bytes → Type 0 where
  done : Split [] [] []
  keep :
      (a : Bytes) (args kept dropped : List Bytes)
      → Split args kept dropped
      → Split (a ∷ args) (a ∷ kept) dropped
  skip :
      (a : Bytes) (args kept dropped : List Bytes)
      → Split args kept dropped
      → Split (a ∷ args) kept (a ∷ dropped)

pub IsForeground : Bytes → Type 0
IsForeground a = is_background a ≡ false

pub IsBackground : Bytes → Type 0
IsBackground a = is_background a ≡ true

drop_background-Split :
    (args : List Bytes)
    → (dropped : List Bytes) × Split args (drop_background args) dropped
      × All IsForeground (drop_background args)
      × All IsBackground dropped
unfolding drop_background IsForeground IsBackground
drop_background-Split [] = ([], done, tt, tt)
drop_background-Split (a ∷ args) =
    let (dropped, s, k, d) = drop_background-Split args in
    elim (Bool-cases (is_background a)) [
      | inl e ↦ rw e (a ∷ dropped, skip a _ _ _ s, k, (e, d))
      | inr e ↦ rw e (dropped, keep a _ _ _ s, (e, k), d)
    ]

-- The child gets the arguments behind the program name in their order, without those that are
-- `--background` or start with `--background=`, and with nothing else left out.
pub child_args-Split :
    (program : Bytes) (args : List Bytes)
    → (kept : List Bytes) × (dropped : List Bytes) × (child_args (program ∷ args) ≡ some kept)
      × Split args kept dropped
      × All IsForeground kept
      × All IsBackground dropped
unfolding child_args
child_args-Split program args =
    let (dropped, s, k, d) = drop_background-Split args in
    (drop_background args, dropped, refl, s, k, d)
