-- ===== src/Socks/Server/Accepting.antt =====
-- socks.go: the accept loop of `StartSocks5`.
use urnetwork_client.Base.{ℕ, ◌≡◌, ◌≢◌, refl, true, false, List, [], ◌∷◌, ◌++◌, All, arith}
use urnetwork_client.Socks.Server.{Accepted, connection, timed_out, failed, serve}

abbrev pub IsRunning : Accepted → Type 0
IsRunning e = e ≢ failed

-- The connections among what is accepted.
abbrev pub connections : List Accepted → List ℕ
connections [] = []
connections (connection c ∷ es) = c ∷ connections es
connections (timed_out ∷ es) = connections es
connections (failed ∷ es) = connections es

-- Up to the first error that is not a timeout, the loop hands on every connection, in order, and goes
-- on; with that error it returns, so that `stop`, which closes the listener and waits for it, ends, and
-- nothing that would be accepted later is handed on.
pub serve-failed :
    (before after : List Accepted)
    → All IsRunning before
    → (serve before ≡ (connections before, false))
      × (serve (before ++ (failed ∷ after)) ≡ (connections before, true))
unfolding serve
serve-failed [] after h = (refl, refl)
serve-failed (connection c ∷ es) after h =
    let (p, q) = serve-failed es after h.1 in rw (p, q) (refl, refl)
serve-failed (timed_out ∷ es) after h = serve-failed es after h.1
serve-failed (failed ∷ es) after h = ground (arith, h.0 refl)
