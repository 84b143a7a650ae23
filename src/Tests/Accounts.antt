-- ===== src/Tests/Accounts.antt =====
-- auth.go, cmd_quickconnect.go and routes_darwin.go on concrete answers.
use urnetwork_client.Base.{
  ◌+◌, ◌*◌, List, ◌≤◌, ◌≡◌, ◌≢◌, refl, true, false, [], ◌∷◌, none, some, arith, Bytes, codes,
  length, leb, if◌then◌else◌,
}
use urnetwork_client.Base.Int.{pos}
use urnetwork_client.Config.{VpnConfig, parse_vpn_config}
use urnetwork_client.Jwt.{save_jwt, load_jwt}
use urnetwork_client.Text.{trim_space, equal}
use urnetwork_client.Account.{
  Call, failed, login_outcome, mint_outcome, token_of, login, mint, validate, write, answered, Host,
  Account, ok, err, unfinished, login_with_password, mint_client_jwt, save, load, parse_client_id,
  text,
}
use urnetwork_client.Account.Tokens.{IsSafe}
use urnetwork_client.Account.Commands.{save_token, quick, perform_all}
use urnetwork_client.Account.Commands.Written.{perform_all-IsSafe}
use urnetwork_client.Account.QuickConnect.{
  refresh, Setup, login_step, ensure_step, final_token, quick_connect,
}
use urnetwork_client.Account.QuickConnect.Recovers.{IsBack, refresh-ok}
use urnetwork_client.Account.QuickConnect.Bounds.{quick_connect_calls}
use urnetwork_client.Account.QuickConnect.Ready.{Source}
use urnetwork_client.Account.QuickConnect.Ends.{quick_connect-ne_unfinished}
use urnetwork_client.Account.QuickConnect.Start.{quick_connect-Source, quick_connect_given_jwt}
use urnetwork_client.Linux.Routes.{Names}
use urnetwork_client.Darwin.Routes.{Shell, Session, net, add, new_manager}
use urnetwork_client.Darwin.Routes.Methods.{add_variant}
use urnetwork_client.Darwin.Routes.Variants.{Split, IsHalf, add_variant-Split}
use urnetwork_client.Darwin.Routes.Cleanup.{Cleaned, session-Cleaned}
use urnetwork_client.Darwin.Session.{session}

abbrev network_token : Bytes
network_token = codes "n"

abbrev client_token : Bytes
client_token = codes "c"

-- A server that logs in and mints, and calls a token valid; a context that is cancelled behind three
-- calls.
abbrev server : Host
server = record {
  logs_in = λ cs. answered (record {
    error = none;
    verification_required = false;
    network = some (record { by_jwt = network_token; network_name = codes "net" });
  });
  verifies = λ cs. answered (record { error = none; network = none });
  mints = λ cs. answered (record { error = none; by_client_jwt = client_token });
  is_valid = λ cs. true;
  write_fails = λ cs. none;
  is_cancelled = λ cs. leb 3 (length cs);
  client_id_claim = λ jwt. if equal jwt client_token then some (text (codes "id")) else none;
}

abbrev start_account : Account
start_account = record { file = none; calls = [] }

abbrev setup : Setup
setup = record {
  user_auth = codes "u";
  password = codes "p";
  code = [];
  jwt_opt = [];
  force_jwt = false;
  renew_interval = pos 1;
}

perform_all-IsSafe_example :
    IsSafe (perform_all server (save_token (codes " t ") ∷ quick setup 1 1 ∷ []) start_account)
unfolding IsSafe
perform_all-IsSafe_example =
    perform_all-IsSafe server (save_token (codes " t ") ∷ quick setup 1 1 ∷ []) start_account tt

quick_connect-ne_unfinished_example :
    (quick_connect server setup 4 start_account).0 ≢ err unfinished
quick_connect-ne_unfinished_example =
    quick_connect-ne_unfinished server setup 3 (λ cs l. ground (arith, l)) 4 (omega arith)
      start_account

-- The account behind a login, whose token is saved, and a mint, whose token is saved.
abbrev connected : Account
connected = record {
  file = some (codes "c\n");
  calls =
      login (codes "u") (codes "p")
      ∷ write (codes "n\n")
      ∷ mint network_token
      ∷ write (codes "c\n")
      ∷ [];
}

quick_connect-Source_example :
    (jwt : Bytes) × Source server jwt connected.calls × (client_token ≡ trim_space jwt)
unfolding quick_connect login_step ensure_step final_token load save login_with_password
    mint_client_jwt parse_client_id trim_space load_jwt save_jwt equal
quick_connect-Source_example =
    quick_connect-Source server setup refl 1 start_account client_token connected refl

quick_connect_calls_example :
    length (quick_connect server setup 2 start_account).1.calls
    ≤ length start_account.calls + (4 * 2 + 6)
quick_connect_calls_example = quick_connect_calls server setup 2 start_account

-- A server that is back behind two calls.
abbrev late : Host
late = record server {
  logs_in = λ cs. if leb 2 (length cs) then server.logs_in cs else failed [];
  is_cancelled = λ cs. false;
}

late-IsBack : IsBack late 2
unfolding login_outcome mint_outcome token_of trim_space
late-IsBack = record {
  logs_in = λ cs l. (
    record { by_jwt = network_token; network_name = codes "net"; verification_required = false },
    rw (back cs l) refl,
    refl,
    refl,
  );
  mints = λ cs l. (client_token, refl);
  writes = λ cs l. refl;
  validates = λ cs l. refl;
  waits = λ cs. refl;
}
  where
    back : (cs : List Call) → 2 ≤ length cs → leb 2 (length cs) ≡ true
    back cs l = ground (arith, l)

refresh-ok_example : (refresh late setup 3 start_account).0 ≡ ok tt
refresh-ok_example = refresh-ok late setup 2 late-IsBack refl 3 (omega arith) start_account

-- With a token on the command line only.
abbrev given : Setup
given = record setup { user_auth = []; password = []; jwt_opt = client_token }

quick_connect_given_jwt_example :
    quick_connect server given 1 (record start_account { file = some (codes "old\n") })
    ≡ (ok (codes "old"), record { file = some (codes "old\n"); calls = validate client_token ∷ [] })
unfolding trim_space parse_client_id equal
quick_connect_given_jwt_example =
    quick_connect_given_jwt server given 1 (record start_account { file = some (codes "old\n") })
      refl refl refl refl refl refl

-- All commands succeed but the first variant of a split route.
abbrev shell : Shell
shell log (add (net d) w) = record { is_ok = true; out = [] }
shell log (add t w) = record { is_ok = false; out = codes "route: File exists" }
shell log c = record { is_ok = false; out = [] }

abbrev resolver : Names
resolver = record { url_host = λ s. none; lookup_ip = λ name. []; ip_string = λ ip. ip }

-- A command line with `--default_route` and `--kill_switch`.
abbrev mac_config : VpnConfig
mac_config =
    parse_vpn_config (record { string = λ k. none; int = λ k. none; bool = λ k. some true }) []

session-Cleaned_example :
    let r =
      session shell resolver mac_config (codes "utun3") (codes "192.168.1.1") (some []) true in
    Cleaned r.0 r.1
session-Cleaned_example =
    session-Cleaned shell resolver mac_config (codes "utun3") (codes "192.168.1.1") (some []) true

abbrev before : Session
before = (new_manager (codes "utun3") (codes "10.255.0.1") [], [])

add_variant-Split_example :
    Split
      (IsHalf (codes "0.0.0.0") (codes "128.0.0.0"))
      before
      (add_variant shell (codes "0.0.0.0") (codes "128.0.0.0") before)
add_variant-Split_example = add_variant-Split shell (codes "0.0.0.0") (codes "128.0.0.0") before
