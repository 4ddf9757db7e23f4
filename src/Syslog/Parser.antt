-- ===== src/Syslog/Parser.antt =====
-- The pure parser of py-syslog/pysyslog/parser.py. Its `except Exception` has no counterpart: every
-- definition here is total, and none of the calls in the source's `try` can raise on these values.
pub mod Tests
pub mod Shape
pub mod Rfc5424
pub mod Priority
use home_assistant_apps.Prelude.{
  ℕ, ◌/◌, ◌%◌, Bool, true, false, Text, codes, List, [], ◌∷◌, ◌++◌, Option, none, some, get_elem?,
  ltb, leb, ◌==◌, ◌&&◌, ◌||◌, text_eq, if◌then◌else◌, is_nonempty, not, ◌>>=◌,
}
use home_assistant_apps.Syslog.Record.{SyslogRecord, rfc3164, rfc5424, unknown}
use home_assistant_apps.Syslog.Matching.{
  CharClasses, span, span_upto, expect, match_classes, nonempty, token, digits_value,
}
use home_assistant_apps.Syslog.Structured.{split_structured_data}

abbrev facilities : List Text
facilities =
    codes "kern"
    ∷ codes "user"
    ∷ codes "mail"
    ∷ codes "daemon"
    ∷ codes "auth"
    ∷ codes "syslog"
    ∷ codes "lpr"
    ∷ codes "news"
    ∷ codes "uucp"
    ∷ codes "cron"
    ∷ codes "authpriv"
    ∷ codes "ftp"
    ∷ codes "ntp"
    ∷ codes "audit"
    ∷ codes "alert"
    ∷ codes "clock"
    ∷ codes "local0"
    ∷ codes "local1"
    ∷ codes "local2"
    ∷ codes "local3"
    ∷ codes "local4"
    ∷ codes "local5"
    ∷ codes "local6"
    ∷ codes "local7"
    ∷ []

abbrev severities : List Text
severities =
    codes "emerg"
    ∷ codes "alert"
    ∷ codes "crit"
    ∷ codes "err"
    ∷ codes "warning"
    ∷ codes "notice"
    ∷ codes "info"
    ∷ codes "debug"
    ∷ []

-- An index out of a table is its own `"unknown"`.
join_names : Option Text → Option Text → Text
join_names (some facility) (some severity) = facility ++ b'.' ∷ severity
join_names _ _ = codes "unknown"

pub priority_text : ℕ → Text
unfolding join_names
priority_text pri =
    if ltb 191 pri
    then codes "unknown"
    else join_names (get_elem? facilities (pri / 8)) (get_elem? severities (pri % 8))

pub malformed_record : Text → Text → SyslogRecord
malformed_record raw recv_ts = record {
  recv_ts = recv_ts;
  protocol = unknown;
  priority_text = codes "unknown";
  program = codes "MALFORMED";
  sender_ts = [];
  message = [];
  malformed = true;
  raw = raw;
  structured_data = [];
}

-- `f"{program}[{pid}]"`.
unfoldable pub with_pid : Text → Text → Text
with_pid program pid = program ++ b'[' ∷ (pid ++ b']' ∷ [])

-- `raw.rstrip("\r\n")`.
unfoldable pub rstrip : Text → Text
rstrip [] = []
rstrip (c ∷ text) =
    let rest = rstrip text in
    if not (is_nonempty rest) && (c == 13 || c == 10) then [] else c ∷ rest

abbrev is_upper : ℕ → Bool
is_upper c = leb b'A' c && leb c b'Z'

abbrev is_lower : ℕ → Bool
is_lower c = leb b'a' c && leb c b'z'

module _ (u : CharClasses) where
  pub parse_rfc5424 : Text → Text → Text → Text → Option SyslogRecord
  parse_rfc5424 pri_text rest raw recv_ts = do
    let (run, after) = span_upto 2 u.is_digit rest
    _version ← nonempty run
    fields ← expect 32 after
    (timestamp, r1) ← token u fields
    (_hostname, r2) ← token u r1
    (app_name, r3) ← token u r2
    (procid, r4) ← token u r3
    (_msgid, tail) ← token u r4
    let (structured_data, message) = split_structured_data tail
    some (record {
      recv_ts = recv_ts;
      protocol = rfc5424;
      priority_text = pri_text;
      program =
          if text_eq procid (codes "-") || not (is_nonempty procid)
          then app_name
          else with_pid app_name procid;
      sender_ts = if text_eq timestamp (codes "-") then [] else timestamp;
      message = message;
      malformed = false;
      raw = raw;
      structured_data = structured_data;
    })

  -- `(\[(\d+)\])?` at the head of a text, and what follows it.
  bracketed_pid : Text → Option (Text × Text)
  bracketed_pid text = do
    inner ← expect b'[' text
    let (run, rest) = span u.is_digit inner
    pid ← nonempty run
    after ← expect b']' rest
    some (pid, after)

  -- `: ?(.*)$`.
  after_colon : Text → Option Text
  after_colon text = do
    rest ← expect b':' text
    some (elim (expect 32 rest) [ none ↦ rest | some after ↦ after ])

  -- `\[(\d+)\]: ?(.*)$`.
  pid_message : Text → Option (Text × Text)
  unfolding bracketed_pid after_colon
  pid_message text = do (pid, after) ← bracketed_pid text; m ← after_colon after; some (pid, m)

  -- What the optional group leaves; without a `:` behind it the group is given up.
  tag_rest : Text → Option (Option Text × Text)
  unfolding pid_message
  tag_rest text = elim (pid_message text) [
    | some (pid, m) ↦ some (some pid, m)
    | none ↦ do m ← after_colon text; some (none, m)
  ]

  match_tag : Text → Option (Text × Option Text × Text)
  unfolding tag_rest
  match_tag body = do
    let (run, rest) = span (λ c. not (u.is_space c || c == b':' || c == b'[')) body
    tag ← nonempty run
    (pid, message) ← tag_rest rest
    some (tag, pid, message)

  pub extract_tag : Text → Text × Text
  unfolding match_tag
  extract_tag body = elim (match_tag body) [
    | none ↦ (codes "-", body)
    | some (tag, pid, message) ↦ (elim pid [ none ↦ tag | some p ↦ with_pid tag p ], message)
  ]

  -- `Mmm dd hh:mm:ss`, the day possibly padded by a space.
  abbrev timestamp_classes : List (ℕ → Bool)
  timestamp_classes =
      is_upper
      ∷ is_lower
      ∷ is_lower
      ∷ (λ c. c == 32)
      ∷ (λ c. c == 32 || (leb 48 c && leb c 57))
      ∷ u.is_digit
      ∷ (λ c. c == 32)
      ∷ u.is_digit
      ∷ u.is_digit
      ∷ (λ c. c == b':')
      ∷ u.is_digit
      ∷ u.is_digit
      ∷ (λ c. c == b':')
      ∷ u.is_digit
      ∷ u.is_digit
      ∷ []

  match_timestamp : Text → Option (Text × Text)
  match_timestamp rest = do
    (ts, after) ← match_classes timestamp_classes rest
    body ← expect 32 after
    some (ts, body)

  -- `after_ts.split(" ", 1)`: what follows the first space, or all of it if there is none.
  drop_host : Text → Text
  drop_host after_ts = elim (expect 32 (span (λ c. not (c == 32)) after_ts).1) [
    | none ↦ after_ts
    | some body ↦ body
  ]

  pub parse_rfc3164 : Text → Text → Text → Text → SyslogRecord
  unfolding match_timestamp drop_host
  parse_rfc3164 pri_text rest raw recv_ts =
      let head : Text × Text = elim (match_timestamp rest) [
        | none ↦ ([], rest)
        | some (ts, after_ts) ↦ (ts, drop_host after_ts)
      ] in
      let (sender_ts, body) = head in
      let (program, message) = extract_tag body in
      record {
        recv_ts = recv_ts;
        protocol = rfc3164;
        priority_text = pri_text;
        program = program;
        sender_ts = sender_ts;
        message = message;
        malformed = false;
        raw = raw;
        structured_data = [];
      }

  -- `^<(\d{1,3})>`.
  pub match_pri : Text → Option (Text × Text)
  match_pri text = do
    inner ← expect b'<' text
    let (run, after) = span_upto 3 u.is_digit inner
    digits ← nonempty run
    rest ← expect b'>' after
    some (digits, rest)

  parse_body : Text → Text → Text → Text → SyslogRecord
  parse_body pri_text rest raw recv_ts = elim (parse_rfc5424 pri_text rest raw recv_ts) [
    | none ↦ parse_rfc3164 pri_text rest raw recv_ts
    | some r ↦ r
  ]

  pub parse : Text → Text → SyslogRecord
  unfolding parse_body
  parse raw recv_ts = elim (match_pri (rstrip raw)) [
    | none ↦ malformed_record raw recv_ts
    | some (digits, rest) ↦ parse_body (priority_text (digits_value u 0 digits)) rest raw recv_ts
  ]
