-- ===== src/Routes/Deferred.antt =====
-- The client of the contract of routes.go.
use urnetwork_client.Base.{ℕ, ◌≡◌, false, List, none, take}
use urnetwork_client.Routes.{Call, RouteManager, run_calls}

module _ (rm : RouteManager) where
  open rm use {Log, Destination, start, call, cleanup, stands, resolvers, cleans, clears}

  -- A session that makes so many of its calls, and its deferred `Cleanup`.
  unfoldable pub session : ℕ → List Call → Log
  unfolding run_calls
  session n calls = cleanup (run_calls call (take n calls) start)

  pub session-stands :
      (n : ℕ) (calls : List Call) (d : Destination) → stands d (session n calls) ≡ false
  unfolding session
  session-stands n calls d = cleans (take n calls) d

  pub session-resolvers : (n : ℕ) (calls : List Call) → resolvers (session n calls) ≡ none
  unfolding session
  session-resolvers n calls = clears (take n calls)
