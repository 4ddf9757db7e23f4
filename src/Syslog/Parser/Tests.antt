-- ===== src/Syslog/Parser/Tests.antt =====
-- Datagrams of the RFCs, parsed with the ASCII character classes.
use home_assistant_apps.Prelude.{
  ℕ, ◌+◌, ◌-◌, ◌<◌, ◌≡◌, refl, true, ◌&&◌, ◌||◌, codes, leb, ◌==◌, arith, text_eq,
}
use home_assistant_apps.Syslog.Record.{SyslogRecord, rfc3164}
use home_assistant_apps.Syslog.Matching.{
  CharClasses, span, span_upto, expect, match_classes, nonempty, token, digits_value,
}
use home_assistant_apps.Syslog.Parser.{
  parse, priority_text, rstrip, match_pri, parse_rfc5424, parse_rfc3164, extract_tag, with_pid,
}

pub ascii_digit_lem : (n : ℕ) → n < 10 → (leb 48 (48 + n) && leb (48 + n) 57) ≡ true
ascii_digit_lem n h = ground arith

pub ascii_value_lem : (n : ℕ) → n < 10 → 48 + n - 48 ≡ n
ascii_value_lem n h = omega arith

-- The ASCII part of the tables.
abbrev pub ascii : CharClasses
ascii = record {
  is_digit = λ c. leb 48 c && leb c 57;
  digit_value = λ c. c - 48;
  is_space = λ c. c == 32 || (leb 9 c && leb c 13);
  ascii_digit = ascii_digit_lem;
  ascii_value = ascii_value_lem;
  space_digit = refl;
  greater_digit = refl;
  space_space = refl;
}

abbrev sudo : SyslogRecord
sudo = parse ascii (codes "<86>Oct 11 22:14:15 host sudo[7]: hi\n") (codes "T")

parse_sudo :
    (sudo.program ≡ codes "sudo[7]")
    × (sudo.message ≡ codes "hi")
    × (sudo.priority_text ≡ codes "authpriv.info")
    × (sudo.sender_ts ≡ codes "Oct 11 22:14:15")
    × (sudo.protocol ≡ rfc3164)
unfolding parse priority_text rstrip match_pri parse_rfc5424 parse_rfc3164 extract_tag with_pid span
    span_upto expect match_classes nonempty token digits_value text_eq
parse_sudo = (refl, refl, refl, refl, refl)
