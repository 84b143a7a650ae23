-- ===== src/Logger/Lines.antt =====
-- logger.go: how the level of the log changes what is written.
use urnetwork_client.Base.{◌≡◌, refl, ◌≤◌, List, [], ◌∷◌, arith, if◌then◌else◌}
use urnetwork_client.Logger.{LogLevel, rank, is_enabled, Entry, write_log}

-- The calls that a level lets through.
pub kept : LogLevel → List Entry → List Entry
kept current [] = []
kept current (e ∷ es) =
    let rest = kept current es in if is_enabled e.asked current then e ∷ rest else rest

-- A lower level writes what a higher one writes of the calls that it lets through: it only leaves lines
-- out, in order, and changes none.
pub write_log-kept :
    (low high : LogLevel) (es : List Entry)
    → rank low ≤ rank high
    → write_log low es ≡ write_log high (kept low es)
unfolding write_log kept is_enabled
write_log-kept low high [] h = refl
write_log-kept low high (e ∷ es) h = ground (arith, write_log-kept low high es h)
