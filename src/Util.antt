-- ===== src/Util.antt =====
-- util.go: list options, typed options and the host of an endpoint. docopt and net/url are
-- parameters.
pub mod Lists
use urnetwork_client.Base.{
  ℕ, Bool, true, false, List, [], ◌∷◌, map, Option, none, some, Bytes, codes, if◌then◌else◌,
}
use urnetwork_client.Base.Int.{ℤ}
use urnetwork_client.Text.{is_empty, trim_space, split, cut_at}

-- Parsed options: a lookup gives nothing where the Go method returns an error.
pub record Opts : Type 0 where
  pub string : Bytes → Option Bytes
  pub int : Bytes → Option ℤ
  pub bool : Bytes → Option Bool

-- The loop of `splitCSV`.
trimmed : List Bytes → List Bytes
trimmed [] = []
trimmed (p ∷ ps) =
    let rest = trimmed ps in if is_empty (trim_space p) then rest else trim_space p ∷ rest

unfoldable pub split_csv : Bytes → List Bytes
unfolding trimmed
split_csv s = if is_empty (trim_space s) then [] else trimmed (split s b',')

unfoldable pub get_string_or : Opts → Bytes → Bytes → Bytes
get_string_or opts key default = elim (opts.string key) [
  | some v ↦ (if is_empty v then default else v)
  | none ↦ default
]

unfoldable pub get_int_or : Opts → Bytes → ℤ → ℤ
get_int_or opts key default = elim (opts.int key) [ some v ↦ v | none ↦ default ]

-- `v, _ := opts.Bool(key)` and `mustBool`.
unfoldable pub must_bool : Opts → Bytes → Bool
must_bool opts key = elim (opts.bool key) [ some v ↦ v | none ↦ false ]

-- `v, _ := opts.String(key)`
unfoldable pub must_string : Opts → Bytes → Bytes
must_string opts key = elim (opts.string key) [ some v ↦ v | none ↦ [] ]

-- The text before the first `c`, or all of it.
abbrev pub before : Bytes → ℕ → Bytes
before s c = elim (cut_at s c) [ none ↦ s | some (k, _) ↦ k ]

-- `url_host s` is `u.Host` where `url.Parse(s)` succeeds.
module _ (url_host : Bytes → Option Bytes) where
  unfoldable pub extract_host : Bytes → Bytes
  extract_host raw =
      let s = trim_space raw in
      let bare = before s b'/' in
      if is_empty s then [] else elim (url_host s) [
        | none ↦ bare
        | some host ↦ (if is_empty host then bare else before host b':')
      ]
