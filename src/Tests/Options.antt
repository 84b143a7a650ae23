-- ===== src/Tests/Options.antt =====
-- cmd_open.go, cmd_providers.go and the settings of `vpn` on concrete options.
use urnetwork_client.Account
use urnetwork_client.Base.{
  ◌≡◌, refl, inl, inr, true, [], ◌∷◌, none, some, subst, Bytes, codes, if◌then◌else◌,
}
use urnetwork_client.Main.{vpn, vpn_settings}
use urnetwork_client.Main.Usage.{options_of, default_of, Agree}
use urnetwork_client.Main.Usage.Reads.{vpn_settings-Agree}
use urnetwork_client.Open.{cmd_open}
use urnetwork_client.Open.Opened.{Ends, cmd_open-Ends}
use urnetwork_client.Providers.{Server, cmd_find_providers}
use urnetwork_client.Providers.Best.{AsksFor, cmd_find_providers-AsksFor}
use urnetwork_client.Session.{is_one_of}
use urnetwork_client.Specs.{Connect}
use urnetwork_client.Text.{equal}
use urnetwork_client.Text.Laws.{equal_cases}
use urnetwork_client.Util.{Opts}

abbrev library : Connect
library = record {
  ProviderId = Bytes;
  Spec = Bytes;
  parse_id = λ s. some s;
  id_string = λ s. s;
  location_spec = λ s. s;
  group_spec = λ s. s;
  best_available = [];
}

abbrev host : Account.Host
host = record {
  logs_in = λ cs. Account.failed [];
  verifies = λ cs. Account.failed [];
  mints = λ cs. Account.failed [];
  is_valid = λ cs. true;
  write_fails = λ cs. none;
  is_cancelled = λ cs. true;
  client_id_claim = λ jwt. some (Account.text (codes "id"));
}

-- What docopt gives for a command without any option.
abbrev plain : Opts
plain = record { string = default_of; int = λ k. none; bool = λ k. none }

cmd_open-Ends_example :
    Ends library host plain
      (some (codes "token"))
      (cmd_open library host plain (some (codes "token")))
cmd_open-Ends_example = cmd_open-Ends library host plain (some (codes "token"))

abbrev server : Server library
server = record {
  is_best = λ s. true;
  find_providers = λ q. some [];
  http_find = λ q. none;
  fetched = none;
}

cmd_find_providers-AsksFor_example :
    AsksFor ([] ∷ []) (cmd_find_providers library host server plain (some (codes "token")))
cmd_find_providers-AsksFor_example =
    cmd_find_providers-AsksFor library host server plain (some (codes "token")) (λ k h. refl)

-- Options of another command beside.
abbrev listening : Opts
listening = record plain {
  string = λ k. if equal k (codes "--listen") then some (codes ":1") else default_of k;
}

plain-Agree : Agree vpn plain listening
unfolding is_one_of options_of equal
plain-Agree k h = elim (equal_cases k (codes "--listen")) [
  | inl (e, p) ↦
      absurd (let q = subst (λ (t : Bytes). is_one_of t (options_of vpn) ≡ true) p h in cc)
  | inr (e, p) ↦ rw e (refl, refl, refl)
]

vpn_settings-Agree_example :
    vpn_settings plain (some (codes "token")) (λ path. none)
    ≡ vpn_settings listening (some (codes "token")) (λ path. none)
vpn_settings-Agree_example =
    vpn_settings-Agree plain listening (some (codes "token")) (λ path. none) plain-Agree
