-- ===== src/Syslog/Record.antt =====
-- The parse result of py-syslog/pysyslog/models.py.
use home_assistant_apps.Prelude.{Text, Bool}

-- The three texts that `protocol` holds.
pub data Protocol : Type 0 where
  rfc3164 rfc5424 unknown : Protocol

pub record SyslogRecord : Type 0 where
  pub recv_ts : Text
  pub protocol : Protocol
  pub priority_text : Text
  pub program : Text
  pub sender_ts : Text
  pub message : Text
  pub malformed : Bool
  pub raw : Text
  pub structured_data : Text
