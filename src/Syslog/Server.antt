-- ===== src/Syslog/Server.antt =====
-- The datagram pipeline of py-syslog/pysyslog/server.py: `process_datagram` and the `handle_one`
-- that calls it. The trace at DEBUG level changes no state and is left out.
pub mod Accounting
pub mod Delivery
use home_assistant_apps.Prelude.{
  ℕ, ◌+◌, Text, codes, List, [], ◌∷◌, ◌++◌, Bool, true, false, not, ◌&&◌, if◌then◌else◌,
}
use home_assistant_apps.Syslog.Record.{Protocol, rfc3164, rfc5424, unknown, SyslogRecord}
use home_assistant_apps.Syslog.Matching.{CharClasses}
use home_assistant_apps.Syslog.Parser.{parse}
use home_assistant_apps.Syslog.Line.{format_line}
use home_assistant_apps.Syslog.Resolver.{Resolver, resolve, is_known, note_unknown_rejected}
use home_assistant_apps.Syslog.Throttle.{Throttle, should_emit}

pub record Counters : Type 0 where
  pub received : ℕ
  pub rfc3164_count : ℕ
  pub rfc5424_count : ℕ
  pub unknown_count : ℕ
  pub malformed : ℕ
  pub unknown_source : ℕ
  pub rejected_sources : ℕ
  pub written : ℕ
  pub write_errors : ℕ
  pub internal_errors : ℕ
  pub size_rotations : ℕ
  pub space_prunes : ℕ
  pub bytes_reclaimed : ℕ

abbrev pub no_counts : Counters
no_counts = record {
  received = 0;
  rfc3164_count = 0;
  rfc5424_count = 0;
  unknown_count = 0;
  malformed = 0;
  unknown_source = 0;
  rejected_sources = 0;
  written = 0;
  write_errors = 0;
  internal_errors = 0;
  size_rotations = 0;
  space_prunes = 0;
  bytes_reclaimed = 0;
}

-- How a call of the writer or of the standard output ends: `expected` is the exception that its
-- caller names, `WriteError` and `OSError`.
pub data Outcome : Type 0 where
  done expected unexpected : Outcome

-- What the pipeline does not implement: the writer, `bytes.decode("utf-8", errors="replace")`, the
-- echo to standard output, and the character tables of the parser.
pub record Env (W : Type 0) : Type 0 where
  pub write : Text → W → Outcome × W
  pub decode : List ℕ → Text
  pub echo : Text → Outcome
  pub classes : CharClasses

pub record Server (W : Type 0) : Type 0 where
  pub resolver : Resolver
  pub writer : W
  pub counters : Counters
  pub throttle : Throttle
  -- The keys of the warnings that were let through, newest first.
  pub warnings : List Text

-- A datagram, with the readings of the two clocks that its processing takes.
pub record Datagram : Type 0 where
  pub bytes : List ℕ
  pub client_ip : Text
  pub recv_ts : Text
  pub monotonic : ℕ

count_protocol : Protocol → Counters → Counters
count_protocol rfc3164 c = record c { rfc3164_count = c.rfc3164_count + 1 }
count_protocol rfc5424 c = record c { rfc5424_count = c.rfc5424_count + 1 }
count_protocol unknown c = record c { unknown_count = c.unknown_count + 1 }

-- `received`, then the protocol, then `malformed`.
count_parsed : SyslogRecord → Counters → Counters
unfolding count_protocol
count_parsed r c =
    let c' = count_protocol r.protocol (record c { received = c.received + 1 }) in
    if r.malformed then record c' { malformed = c'.malformed + 1 } else c'

module _ {W : Type 0} where
  pub warn_throttled : Text → ℕ → Server W → Server W
  warn_throttled key monotonic s =
      let (ok, t) = should_emit s.throttle key monotonic in
      if ok
      then record s { throttle = t; warnings = key ∷ s.warnings }
      else record s { throttle = t }

  -- The loop-level `except Exception`.
  survive : Datagram → Bool × Server W → Server W
  survive d (false, s) = s
  survive d (true, s) =
      let c = s.counters in
      let s' = record s { counters = record c { internal_errors = c.internal_errors + 1 } } in
      warn_throttled (codes "internal:" ++ d.client_ip) d.monotonic s'

module _ {W : Type 0} (env : Env W) (reject_unknown_sources include_structured_data : Bool) where
  -- What follows `writer.write(line)`; the result says whether an exception leaves the seam.
  after_write : Outcome → Text → Datagram → Server W → Bool × Server W
  after_write expected line d s =
      let c = s.counters in
      let s' = record s { counters = record c { write_errors = c.write_errors + 1 } } in
      (false, warn_throttled (codes "write:" ++ d.client_ip) d.monotonic s')
  after_write unexpected line d s = (true, s)
  after_write done line d s =
      let c = s.counters in
      let s' = record s { counters = record c { written = c.written + 1 } } in
      (elim (env.echo line) [ unexpected ↦ true | _ ↦ false ], s')

  -- From `resolver.resolve` on.
  store : SyslogRecord → Datagram → Server W → Bool × Server W
  unfolding after_write
  store r d s =
      let ((site, host), resolver') = resolve s.resolver d.client_ip in
      let line = format_line r site host include_structured_data in
      let (outcome, w) = env.write line s.writer in
      after_write outcome line d (record s { resolver = resolver'; writer = w })

  -- From `if not resolver.is_known(client_ip)` on.
  route : Bool → SyslogRecord → Datagram → Server W → Bool × Server W
  unfolding store
  route true r d s = store r d s
  route false r d s =
      let c = record s.counters { unknown_source = s.counters.unknown_source + 1 } in
      if reject_unknown_sources
      then (
        false,
        record s {
          counters = record c { rejected_sources = c.rejected_sources + 1 };
          resolver = note_unknown_rejected s.resolver d.client_ip;
        },
      )
      else store r d (record s { counters = c })

  pub process_datagram : Datagram → Server W → Bool × Server W
  unfolding route
  process_datagram d s =
      let r = parse env.classes (env.decode d.bytes) d.recv_ts in
      route (is_known s.resolver d.client_ip) r d
        (record s { counters = count_parsed r s.counters })

  pub handle_one : Datagram → Server W → Server W
  unfolding survive
  handle_one d s = survive d (process_datagram d s)

  -- The loop of `run`, over the datagrams that it receives.
  pub handle_all : List Datagram → Server W → Server W
  handle_all [] s = s
  handle_all (d ∷ ds) s = handle_all ds (handle_one d s)
