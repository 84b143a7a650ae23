-- ===== src/Logger.antt =====
-- logger.go: the level of the log, and what the log functions write. The clock and the formatting of
-- the message are outside.
pub mod Levels
pub mod Lines
use urnetwork_client.Base.{
  ℕ, Bool, true, false, ◌&&◌, ◌||◌, List, [], ◌∷◌, ◌++◌, Bytes, codes, leb, if◌then◌else◌,
}
use urnetwork_client.Text.{equal, is_empty, trim_space, to_lower}

pub data LogLevel : Type 0 where
  quiet : LogLevel
  error : LogLevel
  warn : LogLevel
  info : LogLevel
  debug : LogLevel

-- `int32(l)`
unfoldable pub rank : LogLevel → ℕ
rank quiet = 0
rank error = 1
rank warn = 2
rank info = 3
rank debug = 4

unfoldable pub set_log_level : Bytes → Bool → LogLevel
set_log_level level debug_flag =
    let lvl = to_lower (trim_space level) in
    if equal lvl (codes "quiet") || equal lvl (codes "silent")
    then quiet
    else if equal lvl (codes "error") || equal lvl (codes "err")
    then error
    else if equal lvl (codes "warn") || equal lvl (codes "warning")
    then warn
    else if equal lvl (codes "debug")
    then debug
    else if equal lvl (codes "info") || is_empty lvl
    then (if is_empty level && debug_flag then debug else info)
    else info

-- `isErrorEnabled`, `isWarnEnabled`, `isInfoEnabled` and `isDebugEnabled`, by the level they ask for.
unfoldable pub is_enabled : LogLevel → LogLevel → Bool
unfolding rank
is_enabled asked current = leb (rank asked) (rank current)

pub data Stream : Type 0 where
  stdout stderr : Stream

-- The streams and the tags of `logError`, `logWarn`, `logInfo` and `logDebug`.
unfoldable pub stream_of : LogLevel → Stream
stream_of quiet = stderr
stream_of error = stderr
stream_of warn = stderr
stream_of info = stdout
stream_of debug = stdout

unfoldable pub tag_of : LogLevel → Bytes
tag_of quiet = []
tag_of error = codes "ERROR"
tag_of warn = codes "WARN"
tag_of info = codes "INFO"
tag_of debug = codes "DEBUG"

-- A call of a log function: which one, the time in the format of the line, and the message.
pub record Entry : Type 0 where
  pub asked : LogLevel
  pub time : Bytes
  pub message : Bytes

-- `logf`
unfoldable pub log_line : Entry → Stream × Bytes
unfolding stream_of tag_of
log_line e =
    (stream_of e.asked, e.time ++ (codes " [" ++ (tag_of e.asked ++ (codes "] " ++ e.message))))

-- What is written by some calls, at one level.
unfoldable pub write_log : LogLevel → List Entry → List (Stream × Bytes)
unfolding log_line
write_log current [] = []
write_log current (e ∷ es) =
    let rest = write_log current es in
    if is_enabled e.asked current then log_line e ∷ rest else rest
