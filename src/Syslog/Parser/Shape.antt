-- ===== src/Syslog/Parser/Shape.antt =====
-- What every record that `parse` returns has, whichever branch made it.
use home_assistant_apps.Prelude.{
  ◌≡◌, refl, ◌↔◌, Text, codes, [], Bool, true, false, Option, none, some, arith,
}
use home_assistant_apps.Syslog.Record.{SyslogRecord, rfc3164, rfc5424, unknown}
use home_assistant_apps.Syslog.Matching.{CharClasses, digits_value}
use home_assistant_apps.Syslog.Parser.{
  parse, parse_body, parse_rfc5424, parse_rfc3164, malformed_record, priority_text, match_pri,
  rstrip,
}

module _ {κ} (P : SyslogRecord → Type κ) (u : CharClasses) (raw recv_ts : Text) where
  parse_body_rule :
      (pri_text rest : Text)
      → ((r : SyslogRecord) → parse_rfc5424 u pri_text rest raw recv_ts ≡ some r → P r)
      → P (parse_rfc3164 u pri_text rest raw recv_ts)
      → P (parse_body u pri_text rest raw recv_ts)
  unfolding parse_body
  parse_body_rule pri_text rest new old = go (parse_rfc5424 u pri_text rest raw recv_ts) new
    where
      go :
          (o : Option SyslogRecord)
          → ((r : SyslogRecord) → o ≡ some r → P r)
          → P (elim o [ none ↦ parse_rfc3164 u pri_text rest raw recv_ts | some r ↦ r ])
      go none new = old
      go (some r) new = new r refl

  -- One premise for each way in which `parse` makes its record.
  pub parse_rule :
      (match_pri u (rstrip raw) ≡ none → P (malformed_record raw recv_ts))
      → ((digits rest : Text) (r : SyslogRecord)
          → match_pri u (rstrip raw) ≡ some (digits, rest)
          → parse_rfc5424 u (priority_text (digits_value u 0 digits)) rest raw recv_ts ≡ some r
          → P r)
      → ((digits rest : Text)
          → match_pri u (rstrip raw) ≡ some (digits, rest)
          → P (parse_rfc3164 u (priority_text (digits_value u 0 digits)) rest raw recv_ts))
      → P (parse u raw recv_ts)
  unfolding parse
  parse_rule bad new old = go (match_pri u (rstrip raw)) bad new old
    where
      go :
          (o : Option (Text × Text))
          → (o ≡ none → P (malformed_record raw recv_ts))
          → ((digits rest : Text) (r : SyslogRecord)
              → o ≡ some (digits, rest)
              → parse_rfc5424 u (priority_text (digits_value u 0 digits)) rest raw recv_ts ≡ some r
              → P r)
          → ((digits rest : Text)
              → o ≡ some (digits, rest)
              → P (parse_rfc3164 u (priority_text (digits_value u 0 digits)) rest raw recv_ts))
          → P (elim o [
            | none ↦ malformed_record raw recv_ts
            | some (digits, rest) ↦
                parse_body u (priority_text (digits_value u 0 digits)) rest raw recv_ts
          ])
      go none bad new old = bad refl
      go (some (digits, rest)) bad new old =
          parse_body_rule (priority_text (digits_value u 0 digits)) rest
            (λ r. new digits rest r refl) (old digits rest refl)

-- What the RFC 5424 branch sets whatever it read.
pub record Is5424 (pri_text raw recv_ts : Text) (r : SyslogRecord) : Type 0 where
  pub recv_ts_kept : r.recv_ts ≡ recv_ts
  pub raw_kept : r.raw ≡ raw
  pub priority : r.priority_text ≡ pri_text
  pub protocol : r.protocol ≡ rfc5424
  pub not_malformed : r.malformed ≡ false

pub parse_rfc5424-Is5424 :
    (u : CharClasses) (pri_text rest raw recv_ts : Text) (r : SyslogRecord)
    → parse_rfc5424 u pri_text rest raw recv_ts ≡ some r
    → Is5424 pri_text raw recv_ts r
unfolding parse_rfc5424
parse_rfc5424-Is5424 u pri_text rest raw recv_ts r h = ground arith

-- A record as the datagram pipeline relies on it.
pub record IsWellFormed (raw recv_ts : Text) (has_pri : Bool) (r : SyslogRecord) : Type 0 where
  pub recv_ts_kept : r.recv_ts ≡ recv_ts
  pub raw_kept : r.raw ≡ raw
  pub malformed_unknown : (r.malformed ≡ true) ↔ (r.protocol ≡ unknown)
  pub malformed_no_pri : (r.malformed ≡ true) ↔ (has_pri ≡ false)
  pub malformed_fields : r.malformed ≡ true → (r.program ≡ codes "MALFORMED") × (r.message ≡ [])
  pub old_no_data : r.protocol ≡ rfc3164 → r.structured_data ≡ []

abbrev pub has_value {ℓ} : {A : Type ℓ} → Option A → Bool
has_value none = false
has_value (some a) = true

-- Every parsed datagram gives a record that keeps the datagram and its receive time; it is flagged
-- malformed exactly when its protocol is unknown, and exactly when no `<PRI>` begins the datagram;
-- it then has the program `MALFORMED` and no message; an RFC 3164 record has no structured data.
pub parse-IsWellFormed :
    (u : CharClasses) (raw recv_ts : Text)
    → IsWellFormed raw recv_ts (has_value (match_pri u (rstrip raw))) (parse u raw recv_ts)
parse-IsWellFormed u raw recv_ts =
    parse_rule (IsWellFormed raw recv_ts (has_value (match_pri u (rstrip raw)))) u raw recv_ts
      (λ (e : match_pri u (rstrip raw) ≡ none). unfold malformed_record in ground arith)
      (λ digits rest r e p.
        let k =
          parse_rfc5424-Is5424 u (priority_text (digits_value u 0 digits)) rest raw recv_ts r p in
        ground (arith, k, e))
      (λ digits rest e. unfold parse_rfc3164 in ground (arith, e))
