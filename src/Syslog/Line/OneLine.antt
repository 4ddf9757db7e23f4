-- ===== src/Syslog/Line/OneLine.antt =====
-- The characters of a line that `format_line` of models.py makes.
use home_assistant_apps.Prelude.{
  ◌≡◌, refl, Text, codes, [], ◌∷◌, ◌++◌, All, All-append, Bool, true, if◌then◌else◌, ◌&&◌,
  is_nonempty, if_rule, arith,
}
use home_assistant_apps.Syslog.Record.{SyslogRecord}
use home_assistant_apps.Syslog.Escape.{escape}
use home_assistant_apps.Syslog.Escape.Cases.{IsPlain, all_plain, IsPlain-of_all_plain}
use home_assistant_apps.Syslog.Escape.OneLine.{escape-IsPlain}
use home_assistant_apps.Syslog.Line.{line_body, format_line}
use home_assistant_apps.Syslog.Matching.{CharClasses}
use home_assistant_apps.Syslog.Parser.{parse}
use home_assistant_apps.Syslog.Parser.Priority.{priority-parse-IsPlain, recv_ts-parse}

abbrev pub ArePlain : Text → Type 0
ArePlain = All IsPlain

append-ArePlain : (s t : Text) → ArePlain s → ArePlain t → ArePlain (s ++ t)
append-ArePlain = All-append IsPlain

literal-ArePlain : (text : Text) → all_plain text ≡ true → ArePlain text
literal-ArePlain = IsPlain-of_all_plain

module _ (r : SyslogRecord) (site host : Text) (include_structured_data : Bool) where
  sender-ArePlain : ArePlain (if is_nonempty r.sender_ts then escape r.sender_ts else codes "-")
  unfolding all_plain
  sender-ArePlain =
      if_rule ArePlain (is_nonempty r.sender_ts) _ _ (λ _. escape-IsPlain r.sender_ts)
        λ _. literal-ArePlain (codes "-") refl

  sd_field-ArePlain : ArePlain (
      if include_structured_data && is_nonempty r.structured_data
      then codes "SD={" ++ (escape r.structured_data ++ codes "} ")
      else [])
  unfolding all_plain
  sd_field-ArePlain =
      if_rule ArePlain (include_structured_data && is_nonempty r.structured_data) _ _
        (λ _. append-ArePlain (codes "SD={") _ (literal-ArePlain (codes "SD={") refl) (
          append-ArePlain (escape r.structured_data) (codes "} ") (escape-IsPlain r.structured_data)
            (literal-ArePlain (codes "} ") refl)))
        λ _. tt

  -- The body of a line is plain where the fields that are not escaped are.
  pub line_body-ArePlain :
      ArePlain r.recv_ts
      → ArePlain r.priority_text
      → ArePlain site
      → ArePlain host
      → ArePlain (line_body r site host include_structured_data)
  unfolding line_body all_plain
  line_body-ArePlain recv pri s h =
      let space : IsPlain 32 = omega arith in
      append-ArePlain r.recv_ts _ recv (
        space,
        append-ArePlain site _ s (
          space,
          append-ArePlain host _ h (
            space,
            append-ArePlain r.priority_text _ pri (
              space,
              append-ArePlain (escape r.program) _ (escape-IsPlain r.program) (
                  append-ArePlain (codes ": [") _ (literal-ArePlain (codes ": [") refl) (
                    append-ArePlain
                      (if is_nonempty r.sender_ts then escape r.sender_ts else codes "-") _
                      sender-ArePlain
                      (append-ArePlain (codes "] ") _ (literal-ArePlain (codes "] ") refl) (
                        append-ArePlain _ _ sd_field-ArePlain
                          (escape-IsPlain (if r.malformed then r.raw else r.message)))))),
            ),
          ),
        ),
      )

-- Whatever the datagram holds, the line stored for it is text without a control character or a
-- line break, and then exactly one newline, when the receive time and the two configured labels
-- are such text.
pub format_line-parse-ArePlain :
    (u : CharClasses) (raw recv_ts site host : Text) (include_structured_data : Bool)
    → ArePlain recv_ts
    → ArePlain site
    → ArePlain host
    → (body : Text) × (format_line (parse u raw recv_ts) site host include_structured_data
        ≡ body ++ 10 ∷ [])
      × ArePlain body
unfolding format_line
format_line-parse-ArePlain u raw recv_ts site host flag recv s h = (
  line_body (parse u raw recv_ts) site host flag,
  refl,
  line_body-ArePlain (parse u raw recv_ts) site host flag (rw recv_ts-parse recv)
      (priority-parse-IsPlain u raw recv_ts) s h,
)
