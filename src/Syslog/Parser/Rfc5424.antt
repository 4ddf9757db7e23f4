-- ===== src/Syslog/Parser/Rfc5424.antt =====
-- RFC 5424 messages, printed as the RFC lays them out, through `parse` of parser.py.
use home_assistant_apps.Prelude.{
  ℕ, ◌≤◌, ◌<◌, ◌≡◌, ap, ◌≢◌, ◌||◌, not, true, false, Text, codes, [], ◌∷◌, ◌++◌, All, length, some,
  text_eq, is_nonempty, if◌then◌else◌, arith,
}
use home_assistant_apps.Syslog.Record.{SyslogRecord, rfc5424}
use home_assistant_apps.Syslog.Matching.{CharClasses, expect}
use home_assistant_apps.Syslog.Matching.Runs.{
  IsWord, span_upto-run, token-word, nonempty-ne, decimal, decimal-digits, decimal-length,
  digits_value-decimal,
}
use home_assistant_apps.Syslog.Structured.{after_separator, split_structured_data}
use home_assistant_apps.Syslog.Structured.Elements.{
  IsElements, split_structured_data-elements, split_structured_data-nil,
}
use home_assistant_apps.Syslog.Parser.{
  parse, parse_body, parse_rfc5424, priority_text, with_pid, match_pri, rstrip,
}

-- The fields of a message. No element of structured data is printed as a dash.
pub record Message : Type 0 where
  pub pri : ℕ
  pub version : Text
  pub timestamp : Text
  pub hostname : Text
  pub app_name : Text
  pub procid : Text
  pub msgid : Text
  pub elements : Text
  pub text : Text

pub record IsMessage (u : CharClasses) (m : Message) : Type 0 where
  pub pri_bound : m.pri < 1000
  pub version_some : m.version ≢ []
  pub version_short : length m.version ≤ 2
  pub version_digits : All (λ c. u.is_digit c ≡ true) m.version
  pub timestamp_word : IsWord u m.timestamp
  pub hostname_word : IsWord u m.hostname
  pub app_name_word : IsWord u m.app_name
  pub procid_word : IsWord u m.procid
  pub msgid_word : IsWord u m.msgid
  pub elements_run : IsElements m.elements

abbrev pub print_data : Text → Text → Text
print_data [] text = b'-' ∷ 32 ∷ text
print_data (c ∷ elements) text = (c ∷ elements) ++ 32 ∷ text

abbrev pub print_fields : Message → Text
print_fields m =
    m.version
    ++ 32
      ∷ (m.timestamp
          ++ 32
            ∷ (m.hostname
                ++ 32
                  ∷ (m.app_name
                      ++ 32 ∷ (m.procid ++ 32 ∷ (m.msgid ++ 32 ∷ print_data m.elements m.text)))))

unfoldable pub print : Message → Text
print m = b'<' ∷ (decimal m.pri ++ b'>' ∷ print_fields m)

-- What the collector is to make of it.
abbrev pub record_of : Message → Text → Text → SyslogRecord
record_of m raw recv_ts = record {
  recv_ts = recv_ts;
  protocol = rfc5424;
  priority_text = priority_text m.pri;
  program =
      if text_eq m.procid (codes "-") || not (is_nonempty m.procid)
      then m.app_name
      else with_pid m.app_name m.procid;
  sender_ts = if text_eq m.timestamp (codes "-") then [] else m.timestamp;
  message = m.text;
  malformed = false;
  raw = raw;
  structured_data = m.elements;
}

split-print_data :
    (elements text : Text)
    → IsElements elements
    → split_structured_data (print_data elements text) ≡ (elements, text)
unfolding after_separator
split-print_data [] text h = split_structured_data-nil text
split-print_data (c ∷ elements) text h =
    split_structured_data-elements (c ∷ elements) (32 ∷ text) h (λ e. cc) (omega arith)

module _ (u : CharClasses) (m : Message) (h : IsMessage u m) (raw recv_ts : Text) where
  parse_rfc5424-print_fields :
      parse_rfc5424 u (priority_text m.pri) (print_fields m) raw recv_ts
      ≡ some (record_of m raw recv_ts)
  unfolding parse_rfc5424 expect
  parse_rfc5424-print_fields =
      rw (span_upto-run u.is_digit 32 _ 2 m.version h.version_short h.version_digits u.space_digit)
        (rw (nonempty-ne m.version h.version_some) (
          rw (token-word u m.timestamp _ h.timestamp_word) (
            rw (token-word u m.hostname _ h.hostname_word) (
              rw (token-word u m.app_name _ h.app_name_word) (
                rw (token-word u m.procid _ h.procid_word) (
                  rw (token-word u m.msgid _ h.msgid_word)
                    (rw (split-print_data m.elements m.text h.elements_run))))))))

  match_pri-print : match_pri u (print m) ≡ some (decimal m.pri, print_fields m)
  unfolding match_pri expect print
  match_pri-print =
      rw
        (span_upto-run u.is_digit 62 _ 3 (decimal m.pri) (decimal-length m.pri).1
          (decimal-digits u m.pri h.pri_bound) u.greater_digit)
        (rw (nonempty-ne (decimal m.pri) (λ e. omega (arith, ap length e, decimal-length m.pri))))

  -- A datagram that prints a message, up to line ends behind it, is parsed to the message's fields:
  -- the name of its priority, its own time (none for `-`), the program with its process id (without
  -- it for `-`), the structured data in full, and the text unchanged.
  pub parse-print : rstrip raw ≡ print m → parse u raw recv_ts ≡ record_of m raw recv_ts
  unfolding parse parse_body
  parse-print e =
      rw (e, parse)
        (rw (match_pri-print, parse)
          (rw (digits_value-decimal u m.pri h.pri_bound)
            (rw (parse_rfc5424-print_fields, parse_body))))
