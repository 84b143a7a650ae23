-- ===== src/Open.antt =====
-- cmd_open.go: the control-plane transports, as a trace. The connect library makes the client and the
-- transports, which do not fail.
pub mod Opened
use urnetwork_client.Account.{parse_client_id}
use urnetwork_client.Account
use urnetwork_client.Base.{
  ℕ, zero, suc, ◌+◌, Bool, true, false, List, [], ◌∷◌, ◌++◌, Option, none, some, Bytes, codes,
  length, ◌==◌, if◌then◌else◌,
}
use urnetwork_client.Base.Int.{ℤ, pos, negsuc}
use urnetwork_client.Config.{default_connect_url}
use urnetwork_client.Jwt.{load_jwt}
use urnetwork_client.Lifetime.{Step, acquires, releases, does, Rules}
use urnetwork_client.Specs.{Connect}
use urnetwork_client.Text.{is_empty}
use urnetwork_client.Util.{Opts, get_string_or, get_int_or, must_string}

-- The client, and a transport by its number.
pub data Resource : Type 0 where
  client : Resource
  transport : ℕ → Resource

pub data Deed : Type 0 where
  prints waits : Deed

abbrev pub Trace : Type 0
Trace = List (Step Resource Deed)

abbrev same_resource : Resource → Resource → Bool
same_resource client client = true
same_resource (transport i) (transport j) = i == j
same_resource _ _ = false

-- The message and the wait are for the client with this many transports.
abbrev pub rules_for : ℕ → Rules Resource Deed
rules_for n = record { same = same_resource; may_do = λ rs a. length rs == n + 1 }

-- The transports still to be opened, from the next number on: each is closed, by its `defer`, behind
-- those that are opened later.
unfoldable pub with_transports : ℕ → ℕ → Trace
with_transports zero i = does prints ∷ does waits ∷ []
with_transports (suc k) i =
    acquires (transport i) ∷ (with_transports k (i + 1) ++ (releases (transport i) ∷ []))

-- The rounds of the loop.
unfoldable pub rounds : ℤ → ℕ
rounds (pos n) = n
rounds (negsuc n) = 0

pub data OpenError : Type 0 where
  no_jwt no_client_id bad_client_id : OpenError

-- What every transport is opened with.
pub record Link : Type 0 where
  pub url : Bytes
  pub by_jwt : Bytes

pub data Result (I : Type 0) : Type 0 where
  failed : OpenError → Result I
  opened : I → Link → Trace → Result I

module _ (C : Connect) (h : Account.Host) where
  open C use {ProviderId, parse_id}

  -- Behind the token.
  unfoldable pub open_with : Opts → Bytes → Result ProviderId
  unfolding parse_client_id with_transports rounds
  open_with opts jwt =
      let id_text = parse_client_id h jwt in
      if is_empty id_text then failed no_client_id else elim (parse_id id_text) [
        | none ↦ failed bad_client_id
        | some id ↦
            opened id
              (record {
                url = get_string_or opts (codes "--connect_url") default_connect_url ++ codes "/";
                by_jwt = jwt;
              })
              (acquires client
                ∷ (with_transports (rounds (get_int_or opts (codes "--transports") (pos 4))) 0
                    ++ (releases client ∷ [])))
      ]

  -- `cmdOpen`, from the options and the token file.
  unfoldable pub cmd_open : Opts → Option Bytes → Result ProviderId
  unfolding open_with
  cmd_open opts file = elim (load_jwt (must_string opts (codes "--jwt")) file) [
    | none ↦ failed no_jwt
    | some jwt ↦ open_with opts jwt
  ]
