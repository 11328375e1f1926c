-- ===== src/Startup.antt =====
-- main.cpp: the command line, the log level, and the memory that the log announces. Texts that are only printed are left out.
pub mod Options
use put_in_pipe.Common.{
  ℕ, ◌-◌, ◌+◌, ◌*◌, u64, leb, Bool, ◌&&◌, ◌||◌, List, [], ◌∷◌, map, String, Bytes, codes,
  if◌then◌else◌,
}
use put_in_pipe.Config.{Config}
use put_in_pipe.Session.Receivers.{text_eq}

-- What the arguments ask for: an exit with a status, a new configuration file, or the server with a
-- configuration.
pub data Start : Type 0 where
  exits : ℕ → Start
  generates : Bytes → Start
  serves : Bytes → Start

abbrev pub match_option : Bytes → String → String → Bool
match_option arg short_opt long_opt = text_eq arg (codes short_opt) || text_eq arg (codes long_opt)

abbrev pub default_config_path : Bytes
default_config_path = codes "/etc/put-in-pipe/config.ini"

-- The loop over the arguments after the program's name.
unfoldable pub parse_arguments : Bytes → List Bytes → Start
parse_arguments config_path [] = serves config_path
parse_arguments config_path (arg ∷ []) =
    if match_option arg "-h" "--help"
    then exits 0
    else if match_option arg "-v" "--version"
    then exits 0
    else exits 1
parse_arguments config_path (arg ∷ value ∷ rest) =
    let with_config = parse_arguments value rest in
    if match_option arg "-h" "--help"
    then exits 0
    else if match_option arg "-v" "--version"
    then exits 0
    else if match_option arg "-c" "--config"
    then with_config
    else if match_option arg "-g" "--generate-config"
    then generates value
    else exits 1

pub data Severity : Type 0 where
  none : Severity
  fatal : Severity
  error : Severity
  warning : Severity
  info : Severity
  debug : Severity
  verbose : Severity

-- `tolower` in the C locale.
abbrev pub to_lower : ℕ → ℕ
to_lower c = if leb b'A' c && leb c b'Z' then c + 32 else c

abbrev level_named : Bytes → Severity
level_named lower =
    if text_eq lower (codes "verbose")
    then verbose
    else if text_eq lower (codes "debug")
    then debug
    else if text_eq lower (codes "info")
    then info
    else if text_eq lower (codes "warning")
    then warning
    else if text_eq lower (codes "error")
    then error
    else if text_eq lower (codes "fatal")
    then fatal
    else if text_eq lower (codes "none")
    then none
    else info

unfoldable pub parse_log_level : Bytes → Severity
parse_log_level text = level_named (map to_lower text)

-- `maxMem` in bytes.
abbrev pub max_memory : Config → ℕ
max_memory cfg = u64 (
    u64 (cfg.transfer_session_count_limit * cfg.transfer_session_max_chunk_size)
    * cfg.transfer_session_chunk_queue_max_size)
