-- ===== src/Providers/Best.antt =====
-- cmd_providers.go: the options that choose locations.
use urnetwork_client.Account
use urnetwork_client.Base.{
  ◌≡◌, refl, List, [], ◌∷◌, Option, none, Bytes, codes, Option-cases, inl, inr,
}
use urnetwork_client.Config.{parse_location_config}
use urnetwork_client.Jwt.{load_jwt}
use urnetwork_client.Main.{find_providers}
use urnetwork_client.Main.Usage.{options_of, default_of, IsParsed}
use urnetwork_client.Providers.{
  Result, no_jwt, asked, Server, query_of, find_with, cmd_find_providers,
}
use urnetwork_client.Session.{is_one_of}
use urnetwork_client.Specs.{Connect, build_provider_specs}
use urnetwork_client.Text.{equal, trim_space}
use urnetwork_client.Util.{Opts, get_string_or, must_string}

unset : (opts : Opts) (k : Bytes) → opts.string k ≡ none → trim_space (get_string_or opts k []) ≡ []
unfolding trim_space get_string_or
unset opts k e = rw (e, get_string_or) refl

-- A result whose query, if there is one, has these specs.
abbrev pub AsksFor : {S : Type 0} → List S → Result S → Type 0
AsksFor specs no_jwt = Unit {0}
AsksFor specs (asked q lines is_ok) = q.specs ≡ specs

module _ (C : Connect) (h : Account.Host) (v : Server C) where
  query_of-best :
      (opts : Opts)
      → IsParsed opts find_providers
      → (query_of C h v opts).specs ≡ C.best_available ∷ []
  unfolding build_provider_specs parse_location_config options_of default_of is_one_of equal
  query_of-best opts parsed =
      rw
        (
          unset opts (codes "--location_id") (parsed (codes "--location_id") refl),
          unset opts (codes "--location_group_id") (parsed (codes "--location_group_id") refl),
          unset opts (codes "--location_query") (parsed (codes "--location_query") refl),
        )
        refl

  -- The usage line of `find-providers` has none of the options that choose locations. So, where docopt
  -- leaves what is not on the line at its default, the command only ever asks for the best available
  -- providers, whatever else is given, whatever the server answers and whatever the token is.
  pub cmd_find_providers-AsksFor :
      (opts : Opts) (file : Option Bytes)
      → IsParsed opts find_providers
      → AsksFor (C.best_available ∷ []) (cmd_find_providers C h v opts file)
  unfolding cmd_find_providers find_with
  cmd_find_providers-AsksFor opts file parsed =
      elim (Option-cases (load_jwt (must_string opts (codes "--jwt")) file)) [
        | inl e ↦ rw (e, cmd_find_providers) tt
        | inr (jwt, e) ↦
            rw (e, cmd_find_providers)
              (elim (Option-cases (v.find_providers (query_of C h v opts))) [
                | inl k ↦ rw (k, find_with) (query_of-best opts parsed)
                | inr (ps, k) ↦ rw (k, find_with) (query_of-best opts parsed)
              ])
      ]
