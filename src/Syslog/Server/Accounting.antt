-- ===== src/Syslog/Server/Accounting.antt =====
-- How the counters of server.py account for the datagrams.
use native.Mathlib.Nat.{add-zero}
use home_assistant_apps.Prelude.{
  ℕ, ◌+◌, ◌≤◌, ◌≡◌, Text, List, [], ◌∷◌, Bool, true, false, length, if_rule, arith, ◌↔◌,
}
use home_assistant_apps.Syslog.Record.{unknown, SyslogRecord}
use home_assistant_apps.Syslog.Parser.{parse}
use home_assistant_apps.Syslog.Parser.Shape.{parse-IsWellFormed}
use home_assistant_apps.Syslog.Resolver.{is_known}
use home_assistant_apps.Syslog.Server.{
  Counters, no_counts, Outcome, done, expected, unexpected, Env, Server, Datagram, count_protocol,
  count_parsed, warn_throttled, after_write, store, route, process_datagram, survive, handle_one,
  handle_all,
}

-- After `n` datagrams.
pub record IsBalanced (n : ℕ) (c : Counters) : Type 0 where
  pub all_received : c.received ≡ n
  pub by_protocol : c.rfc3164_count + c.rfc5424_count + c.unknown_count ≡ c.received
  pub malformed_unknown : c.malformed ≡ c.unknown_count
  pub rejected_unknown : c.rejected_sources ≤ c.unknown_source
  pub sources_received : c.unknown_source ≤ c.received
  pub no_more : c.written + c.write_errors + c.rejected_sources ≤ c.received
  pub no_less : c.received ≤ c.written + c.write_errors + c.rejected_sources + c.internal_errors

-- While one datagram more is under way: all but its last counter.
record IsUnderWay (n : ℕ) (c : Counters) : Type 0 where
  all_received : c.received ≡ n + 1
  by_protocol : c.rfc3164_count + c.rfc5424_count + c.unknown_count ≡ c.received
  malformed_unknown : c.malformed ≡ c.unknown_count
  rejected_unknown : c.rejected_sources ≤ c.unknown_source
  sources_received : c.unknown_source ≤ c.received
  no_more : c.written + c.write_errors + c.rejected_sources ≤ n
  no_less : n ≤ c.written + c.write_errors + c.rejected_sources + c.internal_errors

count_parsed-IsUnderWay :
    (n : ℕ) (r : SyslogRecord) (c : Counters)
    → ((r.malformed ≡ true) ↔ (r.protocol ≡ unknown))
    → IsBalanced n c
    → IsUnderWay n (count_parsed r c) × ((count_parsed r c).unknown_source ≤ n)
unfolding count_parsed count_protocol
count_parsed-IsUnderWay n r c h b = ground arith

module _ {W : Type 0} where
  pub counters-warn_throttled :
      (key : Text) (m : ℕ) (s : Server W) → (warn_throttled key m s).counters ≡ s.counters
  unfolding warn_throttled
  counters-warn_throttled key m s = ground arith

  -- What leaves the seam: nothing is missing, or only `internal_errors` is.
  abbrev IsSettled : ℕ → Bool × Server W → Type 0
  IsSettled n (false, s) = IsBalanced (n + 1) s.counters
  IsSettled n (true, s) =
      let c = s.counters in
      IsBalanced (n + 1) (record c { internal_errors = c.internal_errors + 1 })

  survive-IsBalanced :
      (n : ℕ) (d : Datagram) (r : Bool × Server W)
      → IsSettled n r
      → IsBalanced (n + 1) (survive d r).counters
  unfolding survive
  survive-IsBalanced n d (false, s) h = h
  survive-IsBalanced n d (true, s) h = rw counters-warn_throttled h

module _ {W : Type 0} (env : Env W) (reject_unknown_sources include_structured_data : Bool) where
  after_write-IsSettled :
      (n : ℕ) (o : Outcome) (line : Text) (d : Datagram) (s : Server W)
      → IsUnderWay n s.counters
      → IsSettled n (after_write env reject_unknown_sources include_structured_data o line d s)
  unfolding after_write
  after_write-IsSettled n done line d s h = echoed (env.echo line)
    where
      echoed :
          (o : Outcome)
          → IsSettled n (
            elim o as (λ _. Bool) [ unexpected ↦ true | _ ↦ false ],
            record s { counters = record s.counters { written = s.counters.written + 1 } },
          )
      echoed done = omega arith
      echoed expected = omega arith
      echoed unexpected = omega arith
  after_write-IsSettled n expected line d s h = rw counters-warn_throttled (omega arith)
  after_write-IsSettled n unexpected line d s h = omega arith

  store-IsSettled :
      (n : ℕ) (r : SyslogRecord) (d : Datagram) (s : Server W)
      → IsUnderWay n s.counters
      → IsSettled n (store env reject_unknown_sources include_structured_data r d s)
  unfolding store
  store-IsSettled n r d s h = after_write-IsSettled n _ _ d _ h

  route-IsSettled :
      (n : ℕ) (known : Bool) (r : SyslogRecord) (d : Datagram) (s : Server W)
      → IsUnderWay n s.counters
      → s.counters.unknown_source ≤ n
      → IsSettled n (route env reject_unknown_sources include_structured_data known r d s)
  unfolding route
  route-IsSettled n true r d s h k = store-IsSettled n r d s h
  route-IsSettled n false r d s h k =
      if_rule (IsSettled n) reject_unknown_sources _ _ (λ _. omega arith)
        λ _. store-IsSettled n r d _ (omega arith)

  process_datagram-IsSettled :
      (n : ℕ) (d : Datagram) (s : Server W)
      → IsBalanced n s.counters
      → IsSettled n (process_datagram env reject_unknown_sources include_structured_data d s)
  unfolding process_datagram
  process_datagram-IsSettled n d s h =
      let r = parse env.classes (env.decode d.bytes) d.recv_ts in
      let shape = parse-IsWellFormed env.classes (env.decode d.bytes) d.recv_ts in
      let (under_way, sources) = count_parsed-IsUnderWay n r s.counters shape.malformed_unknown h in
      route-IsSettled n (is_known s.resolver d.client_ip) r d _ under_way sources

  handle_all-IsBalanced :
      (n m : ℕ) (ds : List Datagram) (s : Server W)
      → m ≡ n + length ds
      → IsBalanced n s.counters
      → IsBalanced m (handle_all env reject_unknown_sources include_structured_data ds s).counters
  unfolding handle_all handle_one
  handle_all-IsBalanced n m [] s e h = rw (e, add-zero) h
  handle_all-IsBalanced n m (d ∷ ds) s e h =
      handle_all-IsBalanced (n + 1) m ds _ (omega arith)
        (survive-IsBalanced n d _ (process_datagram-IsSettled n d s h))

  -- Whatever the datagrams are, and however the writer and the standard output end their calls, the
  -- counters of a server that began with none account for all of them: each datagram has a protocol
  -- count, the malformed are those of unknown protocol, at most the unknown senders' are rejected,
  -- and each datagram is written, a write error, rejected, or among the internal errors.
  pub counters-IsBalanced :
      (ds : List Datagram) (s : Server W)
      → s.counters ≡ no_counts
      → IsBalanced
          (length ds)
          (handle_all env reject_unknown_sources include_structured_data ds s).counters
  counters-IsBalanced ds s e =
      handle_all-IsBalanced 0 (length ds) ds s (omega arith) (rw e (omega arith))
