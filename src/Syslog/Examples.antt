-- ===== src/Syslog/Examples.antt =====
-- The theorems about the collector at concrete datagrams.
use mathlib.Core.Option.{some-injective}
use home_assistant_apps.Prelude.{
  ℕ, ◌≡◌, refl, ◌≢◌, Text, codes, List, [], ◌∷◌, ◌++◌, Bool, true, false, not, ◌&&◌, some, Dict,
  lookup, insert, member, All, text_eq, if_rule, arith,
}
use home_assistant_apps.Syslog.Escape.{escape}
use home_assistant_apps.Syslog.Escape.Cases.{all_plain, IsPlain-of_all_plain}
use home_assistant_apps.Syslog.Escape.Decode.{unescape, unescape-escape}
use home_assistant_apps.Syslog.Line.{format_line}
use home_assistant_apps.Syslog.Line.OneLine.{ArePlain, format_line-parse-ArePlain}
use home_assistant_apps.Syslog.Matching.Runs.{IsWord, decimal}
use home_assistant_apps.Syslog.Structured.{after_separator, split_structured_data}
use home_assistant_apps.Syslog.Structured.Elements.{
  nil, plain, quoted, IsElements, none_left, element, split_structured_data-elements,
}
use home_assistant_apps.Syslog.Parser.{parse, rstrip, match_pri}
use home_assistant_apps.Syslog.Parser.Shape.{IsWellFormed, has_value, parse-IsWellFormed}
use home_assistant_apps.Syslog.Parser.Rfc5424.{Message, IsMessage, print, record_of, parse-print}
use home_assistant_apps.Syslog.Parser.Tests.{ascii}
use home_assistant_apps.Syslog.Resolver.{SourceMapping, new_resolver}
use home_assistant_apps.Syslog.Resolver.WarnOnce.{
  Distinct, resolving, rejecting, Use, run_uses, concerned, warned-once,
}
use home_assistant_apps.Syslog.Throttle.{Throttle, should_emit}
use home_assistant_apps.Syslog.Throttle.Spacing.{Spaced, emitted, emitted-Spaced}
use home_assistant_apps.Syslog.Server.{
  no_counts, done, expected, Outcome, Env, Server, Datagram, handle_all,
}
use home_assistant_apps.Syslog.Server.Accounting.{IsBalanced, counters-IsBalanced}
use home_assistant_apps.Syslog.Server.Delivery.{
  IsLine, HasPlainLabels, HasPlainOrigin, handle_all-keeps,
}

abbrev dump : Text
dump = codes "[a\\]][b]"

dump-IsElements : IsElements dump
dump-IsElements =
    element {s = codes "a\\]"} {t = codes "[b]"}
      (plain (omega arith) (omega arith) (omega arith) (quoted b']' nil))
      (element {s = codes "b"} {t = []} (plain (omega arith) (omega arith) (omega arith) nil)
        none_left)

split_structured_data-elements_example :
    split_structured_data (dump ++ codes " up") ≡ (dump, after_separator (codes " up"))
split_structured_data-elements_example =
    split_structured_data-elements dump (codes " up") dump-IsElements (λ e. cc) (omega arith)

unescape-escape_example :
    unescape (escape (10 ∷ 92 ∷ 0x2028 ∷ 200 ∷ [])) ≡ 10 ∷ 92 ∷ 0x2028 ∷ 200 ∷ []
unescape-escape_example = unescape-escape (10 ∷ 92 ∷ 0x2028 ∷ 200 ∷ [])

label : (text : Text) → all_plain text ≡ true → ArePlain text
label = IsPlain-of_all_plain

hostile : Text
hostile = codes "<13>x\ny: z"

format_line-parse-ArePlain_example :
    (body : Text) × (format_line (parse ascii hostile (codes "T")) (codes "home") (codes "nas") true
      ≡ body ++ 10 ∷ [])
    × ArePlain body
unfolding all_plain
format_line-parse-ArePlain_example =
    format_line-parse-ArePlain ascii hostile (codes "T") (codes "home") (codes "nas") true
      (label (codes "T") refl) (label (codes "home") refl) (label (codes "nas") refl)

parse-IsWellFormed_example :
    IsWellFormed hostile
      (codes "T")
      (has_value (match_pri ascii (rstrip hostile)))
      (parse ascii hostile (codes "T"))
parse-IsWellFormed_example = parse-IsWellFormed ascii hostile (codes "T")

abbrev rfc_message : Message
rfc_message = record {
  pri = 165;
  version = codes "1";
  timestamp = codes "2003-10-11T22:14:15Z";
  hostname = codes "host";
  app_name = codes "evntslog";
  procid = codes "-";
  msgid = codes "ID47";
  elements = [];
  text = codes "An event";
}

all_of : (ℕ → Bool) → Text → Bool
all_of p [] = true
all_of p (c ∷ text) = p c && all_of p text

All-of_all_of : (p : ℕ → Bool) (text : Text) → all_of p text ≡ true → All (λ c. p c ≡ true) text
unfolding all_of
All-of_all_of p [] h = tt
All-of_all_of p (c ∷ text) h = (ground arith, All-of_all_of p text (ground arith))

word : (w : Text) → w ≢ [] → all_of (λ c. not (ascii.is_space c)) w ≡ true → IsWord ascii w
word w n h = record { some_char = n; no_space = All-of_all_of (λ c. not (ascii.is_space c)) w h }

rfc_message-IsMessage : IsMessage ascii rfc_message
unfolding all_of
rfc_message-IsMessage = record {
  pri_bound = omega arith;
  version_some = λ e. cc;
  version_short = omega arith;
  version_digits = All-of_all_of ascii.is_digit (codes "1") refl;
  timestamp_word = word rfc_message.timestamp (λ e. cc) refl;
  hostname_word = word rfc_message.hostname (λ e. cc) refl;
  app_name_word = word rfc_message.app_name (λ e. cc) refl;
  procid_word = word rfc_message.procid (λ e. cc) refl;
  msgid_word = word rfc_message.msgid (λ e. cc) refl;
  elements_run = none_left;
}

rfc_datagram : Text
rfc_datagram = codes "<165>1 2003-10-11T22:14:15Z host evntslog - ID47 - An event\n"

trimmed : rstrip rfc_datagram ≡ print rfc_message
unfolding rstrip print rfc_datagram decimal
trimmed = refl

parse-print_example :
    parse ascii rfc_datagram (codes "T") ≡ record_of rfc_message rfc_datagram (codes "T")
parse-print_example =
    parse-print ascii rfc_message rfc_message-IsMessage rfc_datagram (codes "T") trimmed

abbrev sources : Dict SourceMapping
sources =
    (codes "10.0.0.2", record { ip = codes "10.0.0.2"; site = codes "home"; host = codes "nas" })
    ∷ []

abbrev uses : List Use
uses =
    resolving (codes "10.0.0.9") ∷ rejecting (codes "10.0.0.9") ∷ resolving (codes "10.0.0.2") ∷ []

warned-once_example :
    Distinct (run_uses (new_resolver sources) uses).warned
    × (member (codes "10.0.0.9") (run_uses (new_resolver sources) uses).warned
        ≡ concerned sources (codes "10.0.0.9") uses)
warned-once_example = warned-once sources uses (codes "10.0.0.9")

abbrev throttle : Throttle
throttle = record { window = 10; last = [] }

abbrev calls : List (Text × ℕ)
calls = (codes "a", 3) ∷ (codes "b", 4) ∷ (codes "a", 5) ∷ (codes "a", 14) ∷ []

emitted-Spaced_example :
    Spaced 10 (lookup (codes "a") throttle.last) (emitted (codes "a") throttle calls)
emitted-Spaced_example = emitted-Spaced (codes "a") throttle calls

emitted-calls : emitted (codes "a") throttle calls ≡ 3 ∷ 14 ∷ []
unfolding emitted should_emit lookup insert text_eq
emitted-calls = refl

-- A writer that keeps its lines, and fails on the second.
write_two : Text → List Text → Outcome × List Text
write_two line [] = (done, line ∷ [])
write_two line (l ∷ ls) = (expected, l ∷ ls)

abbrev env : Env (List Text)
env = record { write = write_two; decode = λ bytes. bytes; echo = λ line. done; classes = ascii }

abbrev server : Server (List Text)
server = record {
  resolver = new_resolver sources;
  writer = [];
  counters = no_counts;
  throttle = throttle;
  warnings = [];
}

abbrev datagrams : List Datagram
datagrams =
    record { bytes = hostile; client_ip = codes "10.0.0.2"; recv_ts = codes "T1"; monotonic = 1 }
    ∷ record {
      bytes = codes "junk";
      client_ip = codes "10.0.0.9";
      recv_ts = codes "T2";
      monotonic = 2;
    }
    ∷ record { bytes = hostile; client_ip = codes "10.0.0.2"; recv_ts = codes "T3"; monotonic = 3 }
    ∷ []

counters-IsBalanced_example : IsBalanced 3 (handle_all env true false datagrams server).counters
counters-IsBalanced_example = counters-IsBalanced env true false datagrams server refl

write_two-IsLine :
    (line : Text) (lines : List Text)
    → IsLine line
    → All IsLine lines
    → All IsLine (write_two line lines).1
unfolding write_two
write_two-IsLine line [] h hs = (h, tt)
write_two-IsLine line (l ∷ ls) h hs = hs

abbrev nas : SourceMapping
nas = record { ip = codes "10.0.0.2"; site = codes "home"; host = codes "nas" }

lookup-sources : (ip : Text) (m : SourceMapping) → lookup ip sources ≡ some m → nas ≡ m
unfolding lookup
lookup-sources ip m =
    if_rule (λ o. o ≡ some m → nas ≡ m) (text_eq (codes "10.0.0.2") ip) _ _
      (λ _ e. some-injective nas m e) λ _ e. cc

server-HasPlainLabels : HasPlainLabels server.resolver
unfolding new_resolver all_plain
server-HasPlainLabels = record {
  site_plain = λ ip m e. rw (← lookup-sources ip m e) (label (codes "home") refl);
  host_plain = λ ip m e. rw (← lookup-sources ip m e) (label (codes "nas") refl);
}

datagrams-HasPlainOrigin : All HasPlainOrigin datagrams
unfolding all_plain
datagrams-HasPlainOrigin = (
  record { ip_plain = label (codes "10.0.0.2") refl; time_plain = label (codes "T1") refl },
  (
    record { ip_plain = label (codes "10.0.0.9") refl; time_plain = label (codes "T2") refl },
    (record { ip_plain = label (codes "10.0.0.2") refl; time_plain = label (codes "T3") refl }, tt),
  ),
)

handle_all-keeps_example : All IsLine (handle_all env true false datagrams server).writer
handle_all-keeps_example =
    handle_all-keeps (All IsLine) env true false write_two-IsLine datagrams server
      server-HasPlainLabels datagrams-HasPlainOrigin tt
