-- ===== src/Config.antt =====
-- config/config.h and config/config.cpp: the limits that the other parts read, and how they are
-- loaded. The INI reader is a parameter.
use put_in_pipe.Common.{ℕ, ◌%◌, Bool, true, false, String, Bytes, codes, []}

pub record Config : Type 0 where
  pub log_level : Bytes
  pub address : Bytes
  pub port : ℕ
  pub api_max_client_count : ℕ
  pub api_without_captcha_threshold : ℕ
  pub api_captcha_lifetime : ℕ
  pub client_timeout : ℕ
  pub transfer_session_count_limit : ℕ
  pub transfer_session_max_chunk_size : ℕ
  pub transfer_session_max_initial_freeze_duration : ℕ
  pub transfer_session_chunk_queue_max_size : ℕ
  pub transfer_session_max_consumer_count : ℕ
  pub transfer_session_max_lifetime : ℕ

-- What `INIReader::ParseError` tells: below 0, above 0, or 0.
pub data ParseError : Type 0 where
  cannot_open : ParseError
  bad_line : ℕ → ParseError
  parsed : ParseError

-- The reader of a file, as the code uses it: a value by section, name and default.
pub record IniReader : Type 0 where
  pub parse_error : ParseError
  pub get_string : String → String → Bytes → Bytes
  pub get_unsigned : String → String → ℕ → ℕ

-- The configuration with what the reader found.
unfoldable pub read_config : IniReader → Config
read_config reader = record {
  log_level = reader.get_string "server" "log_level" (codes "info");
  address = reader.get_string "server" "bind_address" (codes "0.0.0.0");
  port = reader.get_unsigned "server" "bind_port" 2233 % 65536;
  api_max_client_count = reader.get_unsigned "client" "max_count" 500;
  api_without_captcha_threshold = reader.get_unsigned "client" "without_captcha_threshold" 500;
  api_captcha_lifetime = reader.get_unsigned "client" "captcha_lifetime" 180;
  client_timeout = reader.get_unsigned "client" "timeout" 60;
  transfer_session_count_limit = reader.get_unsigned "session" "count_limit" 100;
  transfer_session_max_chunk_size = reader.get_unsigned "session" "max_chunk_size" 5242880;
  transfer_session_max_initial_freeze_duration =
      reader.get_unsigned "session" "max_initial_freeze_duration" 120;
  transfer_session_chunk_queue_max_size = reader.get_unsigned "session" "chunk_queue_max_size" 10;
  transfer_session_max_consumer_count = reader.get_unsigned "session" "max_consumer_count" 5;
  transfer_session_max_lifetime = reader.get_unsigned "session" "max_lifetime" 7200;
}

-- `loadFromFile`: the configuration after it, and whether the file was read.
unfoldable pub load_from_file : IniReader → Config → Config × Bool
load_from_file reader cfg = elim reader.parse_error [
  | cannot_open ↦ (cfg, false)
  | bad_line line ↦ (cfg, false)
  | parsed ↦ (read_config reader, true)
]

-- The defaults of the members.
abbrev pub new_config : Config
new_config = record {
  log_level = codes "info";
  address = [];
  port = 0;
  api_max_client_count = 0;
  api_without_captcha_threshold = 0;
  api_captcha_lifetime = 0;
  client_timeout = 0;
  transfer_session_count_limit = 0;
  transfer_session_max_chunk_size = 0;
  transfer_session_chunk_queue_max_size = 0;
  transfer_session_max_lifetime = 0;
  transfer_session_max_consumer_count = 0;
  transfer_session_max_initial_freeze_duration = 0;
}

-- One call of a setter.
pub data Setting : Type 0 where
  set_log_level : Bytes → Setting
  set_bind_address : Bytes → Setting
  set_bind_port : ℕ → Setting
  set_api_max_client_count : ℕ → Setting
  set_api_without_captcha_threshold : ℕ → Setting
  set_api_captcha_lifetime : ℕ → Setting
  set_client_timeout : ℕ → Setting
  set_transfer_session_count_limit : ℕ → Setting
  set_transfer_session_max_chunk_size : ℕ → Setting
  set_transfer_session_chunk_queue_max_size : ℕ → Setting
  set_transfer_session_max_lifetime : ℕ → Setting
  set_transfer_session_max_consumer_count : ℕ → Setting
  set_transfer_session_max_initial_freeze_duration : ℕ → Setting

unfoldable pub set_config : Setting → Config → Config
set_config (set_log_level value) cfg = record cfg { log_level = value }
set_config (set_bind_address value) cfg = record cfg { address = value }
set_config (set_bind_port value) cfg = record cfg { port = value % 65536 }
set_config (set_api_max_client_count value) cfg = record cfg { api_max_client_count = value }
set_config (set_api_without_captcha_threshold value) cfg = record cfg {
  api_without_captcha_threshold = value;
}
set_config (set_api_captcha_lifetime value) cfg = record cfg { api_captcha_lifetime = value }
set_config (set_client_timeout value) cfg = record cfg { client_timeout = value }
set_config (set_transfer_session_count_limit value) cfg = record cfg {
  transfer_session_count_limit = value;
}
set_config (set_transfer_session_max_chunk_size value) cfg = record cfg {
  transfer_session_max_chunk_size = value;
}
set_config (set_transfer_session_chunk_queue_max_size value) cfg = record cfg {
  transfer_session_chunk_queue_max_size = value;
}
set_config (set_transfer_session_max_lifetime value) cfg = record cfg {
  transfer_session_max_lifetime = value;
}
set_config (set_transfer_session_max_consumer_count value) cfg = record cfg {
  transfer_session_max_consumer_count = value;
}
set_config (set_transfer_session_max_initial_freeze_duration value) cfg = record cfg {
  transfer_session_max_initial_freeze_duration = value;
}
