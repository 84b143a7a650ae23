-- ===== src/Routes.antt =====
-- routes.go: the interface RouteManager, with what its two implementations share of the contract that
-- its comment states.
pub mod Deferred
pub mod Both
use urnetwork_client.Base.{◌≡◌, ℕ, Bool, false, List, [], ◌∷◌, Option, none, Bytes}

-- The methods but for `Cleanup`, with their arguments.
pub data Call : Type 0 where
  add_bypass_endpoint : Bytes → Call
  add_split_default : Call
  add_exclude add_extra_route : Bytes → Call
  add_dns_server_routes : List Bytes → Bool → Call
  set_dns : List Bytes → Bytes → Call

unfoldable pub run_calls : {S : Type 0} → (Call → S → S) → List Call → S → S
run_calls call [] s = s
run_calls call (c ∷ cs) s = run_calls call cs (call c s)

-- A manager: its state, what is run by the end of `Cleanup`, whether a route stands then, which is one
-- that was added and not deleted since, and the service whose resolvers are set then. Routes that were
-- there before the first call are not part of it.
pub record RouteManager : Type 1 where
  pub State : Type 0
  pub Log : Type 0
  pub Destination : Type 0
  pub start : State
  pub call : Call → State → State
  pub cleanup : State → Log
  pub stands : Destination → Log → Bool
  pub resolvers : Log → Option Bytes
  pub cleans :
      (calls : List Call) (d : Destination)
      → stands d (cleanup (run_calls call calls start)) ≡ false
  pub clears : (calls : List Call) → resolvers (cleanup (run_calls call calls start)) ≡ none
