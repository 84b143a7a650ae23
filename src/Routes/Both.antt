-- ===== src/Routes/Both.antt =====
-- The two implementations of RouteManager behind its contract.
use urnetwork_client.Darwin.Routes as Darwin
use urnetwork_client.Darwin.Routes.Kept as Kept
use urnetwork_client.Darwin.Routes.Methods as Methods
