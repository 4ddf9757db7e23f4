-- ===== src/Lib.antt =====
-- Verification library of home-assistant-apps: models of the parts of its Home Assistant add-ons that
-- decide something, and theorems about them. Paths are from the repository's root.
--
-- The syslog collector, py-syslog/pysyslog. A datagram goes through `process_datagram` of server.py:
-- it is parsed (parser.py), its sender is resolved (resolver.py), the record becomes one line
-- (models.py), and the line goes to the writer (writer.py), which rotates, compresses and prunes.
--   Syslog/Record       the record of a message, and the sources (models.py)
--   Syslog/Escape       `_escape`; Syslog/Line: `format_line` (models.py)
--   Syslog/Matching     the matching that the regular expressions do; Syslog/Structured:
--                       `_split_structured_data`; Syslog/Parser: `parse` and what it calls (parser.py)
--   Syslog/Resolver     `Resolver` (resolver.py)
--   Syslog/Throttle     `_Throttle`; Syslog/Server: `process_datagram`, `handle_one` and the loop of
--                       `run` over the datagrams that it receives (server.py)
--   Syslog/Storage      the log directory as a list of files: Files, Gzip (`_atomic_gzip`, with the
--                       points where it can stop), Reconcile (`_reconcile_stale_base`,
--                       `_reconcile_orphans`, and Start: `__init__`), Archives (`_segment_sort_key`, `_prune`, `_next_seq`,
--                       `_oldest_prunable_segment`), Space (`_enforce_space`), Writer (`write`, with
--                       `_rotate_if_needed`, `_open` and `_rotate_by_size_if_needed`) (writer.py)
-- The character classes of Unicode, the decoding of bytes, the writer as the pipeline sees it, and the
-- faults and sizes of the file system are parameters.
--
-- The dynamic DNS updater, py-ddns/pyddns. `run_loop` repeats a reconcile cycle, which detects the
-- address, asks or fires the provider under a bounded backoff, looks the name up, and persists what
-- it has confirmed.
--   Ddns/Models         models.py, errors.py, and the outside as a parameter whose answers depend on
--                       all calls so far
--   Ddns/Cycle          actions that change the state and may raise, the persistence (state.py)
--   Ddns/Retry          `backoff_delays`, `_jittered`, `RetryRunner.run` (updater.py)
--   Ddns/Updater        `Updater` (updater.py)
-- A call of the outside is noted in a list of events, which the theorems read. A sleep is in 5000ths
-- of a second, so that the jitter is exact. Clock readings are natural numbers.
--
-- The collection side of wxverify, wxverify/wxverify.
--   Wxverify/Backoff    the backoff of a provider's domain (worker/domain_backoff.py)
--   Wxverify/Budget     the daily budget of a provider (collection/budget.py)
--   Wxverify/RainPick   `rank_rain` (forecast/rain_pick.py)
--   Wxverify/AccessHold the holds after a refused access (worker/access_hold.py)
--   Wxverify/Jobs       the table `jobs` with its checks (db/migrations.py), and the enqueues: Claim
--                       (`_claim`, its lanes and its order), Outcome (`fail`, `complete` and the other
--                       ends, db/queue.py, and `_record_outcome`, worker/processor.py)
--   Wxverify/Jobs/Changes  all of these as changes of the table, in any sequence; Life: the abstract
--                       queue, by the id of a job; Lanes: the two lanes of worker/processor.py and
--                       worker/current_obs_poller.py that run the jobs
-- A table of the database is a list of rows with a key. Time stamps, dates and time zones are
-- parameters. The run of a job is a parameter too, which ends in one of the ways that
-- `run_claimed_job` tells apart.
--
-- The weather publisher, py-weather/pyweather. A poll of a station reads a snapshot of the entities,
-- tells the station's health, learns the stamp of the observation and sets the next poll.
--   Weather/Cadence     the learned interval (cadence.py)
--   Weather/Health      `discover`, `evaluate` (health.py)
--   Weather/Scheduler   `_read_health`, `poll_station`; Weather/Loop: `run_loop` (scheduler.py)
-- `datetime.fromisoformat`, the scaled median of the gaps, which is a float, the clock, the sleeper
-- and the jitter are parameters.
--
-- Prelude holds what the others share: tests on numbers, texts as lists of code points, lists,
-- options, dictionaries.
--
-- Loops. The loop of the size guard runs on fuel: each step drops a file, so more steps than there are
-- files are enough. `bit_length` runs on its argument as fuel, which is enough since each step
-- halves it. The drop rule of the rain ranking runs on as many steps as there are models, which is
-- enough since each step drops one. The loop of the updater, which ends only by a signal, is run for
-- a given number of cycles, and that of the weather publisher over the turns that it meets. All other loops are over a list or a fixed number of attempts.
--
-- Not modelled: a file of the log directory whose name matches a pattern of the writer with a date that
-- does not exist, on which `date.fromisoformat` raises; sockets, signals, log lines, HTTP and DNS, which are input and output; the
-- floating-point statistics, the web pages and the rest of the database's schema of wxverify, its
-- close chain, its forecasts apart from the rain ranking, and the log row that a failing close or
-- feed job writes before `fail`; the discovery and the state file of the weather publisher; the test
-- programs.
pub mod Ddns
pub mod Prelude
pub mod Syslog
pub mod Weather
pub mod Wxverify
