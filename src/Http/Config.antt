-- ===== src/Http/Config.antt =====
-- http/http.go: Config, DefaultConfig and validateConfiguration.
use logd_go.Base.{Option, none, some, Bytes, codes, if◌then◌else◌, ℤ, ltb_int}

-- The timeout is a number of nanoseconds.
pub record Config : Type 0 where
  pub concurrency : ℤ
  pub chan_buffer : ℤ
  pub timeout : ℤ

abbrev pub default_timeout : ℤ
default_timeout = ℤ.pos 5000000000

abbrev pub default_config : Config
default_config = record {
  concurrency = ℤ.pos 4;
  chan_buffer = ℤ.pos 100;
  timeout = default_timeout;
}

-- The error, if there is one. Its only caller passes the address of a field, so never a nil pointer.
unfoldable pub validate_configuration : Config → Option Bytes
validate_configuration cfg =
    if ltb_int cfg.concurrency (ℤ.pos 1)
    then some (codes "config error: min http concurrency is 1")
    else if ltb_int cfg.chan_buffer (ℤ.pos 1)
    then some (codes "config error: min http channel buffer is 1")
    else none
