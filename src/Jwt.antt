-- ===== src/Jwt.antt =====
-- jwt.go: the token in its file. `filepath.Join` is a parameter.
pub mod File
use urnetwork_client.Base.{ℕ, List, [], ◌∷◌, ◌++◌, Option, none, some, Bytes, codes, if◌then◌else◌}
use urnetwork_client.Text.{is_empty, trim_space}

-- What `saveJWT` writes.
unfoldable pub save_jwt : Bytes → Bytes
save_jwt jwt = trim_space jwt ++ (b'\n' ∷ [])

-- `loadJWT`, from the token that is given and what reading the file gave.
unfoldable pub load_jwt : Bytes → Option Bytes → Option Bytes
load_jwt maybe file =
    if is_empty (trim_space maybe)
    then (elim file [ none ↦ none | some b ↦ some (trim_space b) ])
    else some (trim_space maybe)

-- `jwtPath`, from `filepath.Join`, `URNETWORK_HOME` and the home directory.
unfoldable pub jwt_path : (List Bytes → Bytes) → Bytes → Bytes → Bytes
jwt_path file_join urnetwork_home home =
    let base = trim_space urnetwork_home in
    if is_empty base
    then file_join (home ∷ codes ".urnetwork" ∷ codes "jwt" ∷ [])
    else file_join (base ∷ codes "jwt" ∷ [])
