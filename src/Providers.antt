-- ===== src/Providers.antt =====
-- cmd_providers.go: what `find-providers` asks the connect library for, and the lines that it prints.
pub mod Best
use urnetwork_client.Account
use urnetwork_client.Account.{parse_client_id}
use urnetwork_client.Base.{
  Bool, true, false, List, [], ◌∷◌, ◌++◌, map, Option, none, some, Bytes, codes, if◌then◌else◌,
}
use urnetwork_client.Base.Int.{ℤ, pos}
use urnetwork_client.Config.{LocationConfig, parse_location_config}
use urnetwork_client.Jwt.{load_jwt}
use urnetwork_client.Specs.{Connect, Found, build_provider_specs}
use urnetwork_client.Startup.{decimal}
use urnetwork_client.Text.{is_empty, join}
use urnetwork_client.Util.{Opts, get_string_or, get_int_or, must_string}

-- `FindProviders2Args`
pub record Query (S : Type 0) : Type 0 where
  pub specs : List S
  pub count : ℤ
  pub rank_mode : Bytes

-- An entry of the library's answer.
pub record Provider (I : Type 0) : Type 0 where
  pub client_id : I
  pub tier : ℤ
  pub est_bps : ℤ
  pub intermediaries : List I

-- Without a token; else the query, the lines that are printed, and whether the call succeeds.
pub data Result (S : Type 0) : Type 0 where
  no_jwt : Result S
  asked : Query S → List Bytes → Bool → Result S

-- `BestAvailable` of a spec, and the call of the library, nothing where it fails.
pub record Server (C : Connect) : Type 0 where
  pub is_best : C.Spec → Bool
  pub find_providers : Query C.Spec → Option (List (Provider C.ProviderId))
  pub http_find : Bytes → Option (Found C.Spec)
  pub fetched : Option (Found C.Spec)

module _ (C : Connect) (h : Account.Host) (v : Server C) where
  open C use {ProviderId, Spec, id_string}

  -- `idsToStrings`
  unfoldable pub ids_to_strings : List ProviderId → List Bytes
  ids_to_strings ids = map id_string ids

  unfoldable pub provider_line : Provider ProviderId → Bytes
  unfolding ids_to_strings decimal
  provider_line p =
      codes "provider client_id="
      ++ (id_string p.client_id
          ++ (codes " tier="
              ++ (decimal p.tier
                  ++ (codes " est_bps="
                      ++ (decimal p.est_bps
                          ++ (codes " intermediaries=["
                              ++ (join (ids_to_strings p.intermediaries) b' ' ++ codes "]")))))))

  -- The line on the client of the token, and the one on the specs.
  abbrev client_lines : Bytes → List Bytes
  client_lines id = if is_empty id then [] else (codes "client_id: " ++ id) ∷ []

  abbrev best_lines : List Spec → List Bytes
  best_lines [] = []
  best_lines (s ∷ []) = if v.is_best s then codes "using best-available providers" ∷ [] else []
  best_lines (s ∷ t ∷ ts) = []

  abbrev pub query_of : Opts → Query Spec
  query_of opts = record {
    specs = build_provider_specs C v.http_find v.fetched (parse_location_config opts);
    count = get_int_or opts (codes "--count") (pos 8);
    rank_mode = get_string_or opts (codes "--rank_mode") (codes "quality");
  }

  -- Behind the token.
  unfoldable pub find_with : Opts → Bytes → Result Spec
  unfolding provider_line build_provider_specs parse_client_id parse_location_config
  find_with opts jwt =
      let q = query_of opts in
      let head = client_lines (parse_client_id h jwt) ++ best_lines q.specs in
      elim (v.find_providers q) [
        | none ↦ asked q head false
        | some ps ↦ asked q (head ++ map provider_line ps) true
      ]

  -- `cmdFindProviders`, from the options and the token file.
  unfoldable pub cmd_find_providers : Opts → Option Bytes → Result Spec
  unfolding find_with
  cmd_find_providers opts file = elim (load_jwt (must_string opts (codes "--jwt")) file) [
    | none ↦ no_jwt
    | some jwt ↦ find_with opts jwt
  ]
