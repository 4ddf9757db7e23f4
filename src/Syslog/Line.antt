-- ===== src/Syslog/Line.antt =====
-- `format_line` of py-syslog/pysyslog/models.py.
pub mod OneLine
use home_assistant_apps.Prelude.{
  Text, codes, List, [], ◌∷◌, ◌++◌, Bool, ◌&&◌, is_nonempty, if◌then◌else◌,
}
use home_assistant_apps.Syslog.Record.{SyslogRecord}
use home_assistant_apps.Syslog.Escape.{escape}

-- The line but its final newline.
pub line_body : SyslogRecord → Text → Text → Bool → Text
line_body r site host include_structured_data =
    let sender : Text = if is_nonempty r.sender_ts then escape r.sender_ts else codes "-" in
    let body : Text = if r.malformed then r.raw else r.message in
    let sd_field : Text =
      if include_structured_data && is_nonempty r.structured_data
      then codes "SD={" ++ (escape r.structured_data ++ codes "} ")
      else [] in
    r.recv_ts
    ++ (32
        ∷ (site
            ++ (32
                ∷ (host
                    ++ (32
                        ∷ (r.priority_text
                            ++ (32
                                ∷ (escape r.program
                                    ++ (codes ": ["
                                        ++ (sender
                                            ++ (codes "] " ++ (sd_field ++ escape body))))))))))))

pub format_line : SyslogRecord → Text → Text → Bool → Text
unfolding line_body
format_line r site host include_structured_data =
    line_body r site host include_structured_data ++ 10 ∷ []
