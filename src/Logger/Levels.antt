-- ===== src/Logger/Levels.antt =====
-- logger.go: what the debug flag changes.
use urnetwork_client.Base.{◌≡◌, refl, ◌≢◌, ◌↔◌, true, false, [], ◌∷◌, arith, Bytes}
use urnetwork_client.Text.{equal, trim_space, to_lower}
use urnetwork_client.Logger.{debug, rank, set_log_level, is_enabled}

-- `--debug` decides whether debug lines are written exactly if no log level is given.
set_log_level_flag_iff :
    (level : Bytes)
    → (is_enabled debug (set_log_level level true) ≢ is_enabled debug (set_log_level level false))
      ↔ (level ≡ [])
unfolding set_log_level is_enabled rank trim_space to_lower equal
set_log_level_flag_iff [] = ((λ h. refl), λ e k. ground (arith, k))
set_log_level_flag_iff (c ∷ s) = ((λ h. absurd (h refl)), λ e. ground (arith, e))
