-- ===== src/Process.antt =====
-- process.go: the detached child of `spawnBackground`, and the log file. Starting a process and the
-- file system are parameters.
pub mod Filter
use urnetwork_client.Base.{
  ℕ, Bool, true, false, ◌||◌, ◌&&◌, not, List, [], ◌∷◌, Option, none, some, Bytes, codes,
  if◌then◌else◌,
}
use urnetwork_client.Text.{equal, is_empty, has_prefix}

unfoldable pub is_background : Bytes → Bool
is_background a = equal a (codes "--background") || has_prefix a (codes "--background=")

unfoldable pub drop_background : List Bytes → List Bytes
unfolding is_background
drop_background [] = []
drop_background (a ∷ argv) =
    let rest = drop_background argv in if is_background a then rest else a ∷ rest

-- Without a program name, the capacity of `make` would be negative and the code would panic.
unfoldable pub child_args : List Bytes → Option (List Bytes)
unfolding drop_background
child_args [] = none
child_args (program ∷ argv) = some (drop_background argv)

-- The outcome of `spawnBackground`: a panic, an error, or the child's number.
pub data Spawned : Type 0 where
  panicked spawn_failed : Spawned
  started : ℕ → Spawned

-- From `os.Executable` and the start of a detached process with its arguments.
unfoldable pub spawn_background :
    Option Bytes → (Bytes → List Bytes → Option ℕ) → List Bytes → Spawned
unfolding child_args
spawn_background executable start argv = elim executable [
  | none ↦ spawn_failed
  | some exe ↦ elim (child_args argv) [
    | none ↦ panicked
    | some args ↦ elim (start exe args) [ none ↦ spawn_failed | some pid ↦ started pid ]
  ]
]

-- `os.Stdout` and `os.Stderr`, as the files that they are.
pub record Std : Type 0 where
  pub stdout : ℕ
  pub stderr : ℕ

-- `filepath.Dir`, `os.MkdirAll`, and `os.OpenFile` for appending.
pub record Files : Type 0 where
  pub dir : Bytes → Bytes
  pub mkdir_all : Bytes → Bool
  pub open_append : Bytes → Option ℕ

-- `setupLogFile`: whether it succeeds, and the files behind it.
unfoldable pub setup_log_file : Files → Bytes → Std → Bool × Std
setup_log_file fs path std =
    let parent = fs.dir path in
    let named = not (equal parent (codes ".")) && not (is_empty parent) in
    if named && not (fs.mkdir_all parent) then (false, std) else elim (fs.open_append path) [
      | none ↦ (false, std)
      | some f ↦ (true, record { stdout = f; stderr = f })
    ]
