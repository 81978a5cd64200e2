-- ===== src/Logger.antt =====
-- src/modules/logger.c: what the plugin "logger" does with a message of the logger macros.
use vagent.Config.{AgentConfig}
use vagent.Vcl.Handlers.{decimal}
use vagent.Prelude.{
  not, ◌++◌, length, ℕ, ◌+◌, ◌∷◌, [], Bool, Option, none, some, Str, text, ltb, if◌then◌else◌,
}
use vagent.Exec.{IpcRet, answered}

-- struct logger_priv_t, for a level that is not negative.
pub record LoggerPriv : Type 0 where
  pub debug : Bool
  pub loglevel : ℕ

pub data LogLine : Type 0 where
  -- on the standard output
  printed : Str → LogLine
  -- by syslog
  syslogged : Str → LogLine

-- The answer, and the line that is written. The first byte of the message is its level, less '0'.
-- `none`: an empty message is read behind its NUL.
unfoldable pub read_log : LoggerPriv → Str → Option (IpcRet × Option LogLine)
read_log log [] = none
read_log log (level ∷ msg) =
    if ltb (log.loglevel + b'0') level
    then some (answered 200 (text "OK"), none)
    else some (answered 200 (text "OK"), some (if log.debug then printed msg else syslogged msg))

-- The private data that logger_init makes of the options -q, -v and -d, and whether syslog is open.
unfoldable pub logger_priv : AgentConfig → LoggerPriv × Bool
logger_priv config = (record { debug = config.d_arg; loglevel = config.loglevel }, not config.d_arg)

-- Where assert_fail writes before it aborts.
pub data LastWords : Type 0 where
  to_syslog to_stderr : Str → LastWords

-- The text of a failed assert, as asprintf writes it.
unfoldable pub assert_text : Str → Str → ℕ → Str → Str
assert_text expr file line func =
    file
    ++ (text ":"
        ++ (decimal line
            ++ (text ": "
                ++ (func ++ (text ": Assertion `" ++ (expr ++ text "' failed. Aborting."))))))

-- With what asprintf gives; `none` where it fails.
unfoldable pub assert_fail : Bool → Option Str → LastWords
assert_fail logger_open none = to_stderr (text "Assert, then asprintf failure. ABANDON SHIP.\n")
assert_fail logger_open (some string) =
    if ltb (length string) 10
    then to_stderr (text "Assert, then asprintf failure. ABANDON SHIP.\n")
    else if logger_open
    then to_syslog string
    else to_stderr (string ++ text "\n")
