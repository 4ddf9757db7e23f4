-- ===== src/Syslog/Server/Delivery.antt =====
-- What the pipeline hands to the writer.
use home_assistant_apps.Prelude.{
  ℕ, ◌≡◌, refl, Text, codes, List, [], ◌∷◌, ◌++◌, Bool, true, false, All, some, lookup, if_rule,
  arith, Option-cases, inl, inr,
}
use home_assistant_apps.Syslog.Escape.Cases.{all_plain, IsPlain-of_all_plain}
use home_assistant_apps.Syslog.Line.OneLine.{ArePlain, format_line-parse-ArePlain}
use home_assistant_apps.Syslog.Parser.{parse}
use home_assistant_apps.Syslog.Resolver.{
  SourceMapping, Resolver, note_unknown, resolve, is_known, note_unknown_rejected,
}
use home_assistant_apps.Syslog.Server.{
  Outcome, done, expected, unexpected, Env, Server, Datagram, warn_throttled, after_write, store,
  route, process_datagram, survive, handle_one, handle_all,
}

-- One physical line.
abbrev pub IsLine : Text → Type 0
IsLine line = (body : Text) × (line ≡ body ++ 10 ∷ []) × ArePlain body

-- The configured labels are plain text.
pub record HasPlainLabels (r : Resolver) : Type 0 where
  pub site_plain : (ip : Text) (m : SourceMapping) → lookup ip r.sources ≡ some m → ArePlain m.site
  pub host_plain : (ip : Text) (m : SourceMapping) → lookup ip r.sources ≡ some m → ArePlain m.host

sources-note_unknown : (r : Resolver) (ip : Text) → (note_unknown r ip).sources ≡ r.sources
unfolding note_unknown
sources-note_unknown r ip = ground arith

note_unknown-HasPlainLabels :
    (r : Resolver) (ip : Text) → HasPlainLabels r → HasPlainLabels (note_unknown r ip)
note_unknown-HasPlainLabels r ip h = record {
  site_plain = λ j m e. h.site_plain j m (rw sources-note_unknown at e);
  host_plain = λ j m e. h.host_plain j m (rw sources-note_unknown at e);
}

resolve-HasPlainLabels :
    (r : Resolver) (ip : Text)
    → HasPlainLabels r
    → ArePlain ip
    → ArePlain (resolve r ip).0.0 × ArePlain (resolve r ip).0.1 × HasPlainLabels (resolve r ip).1
unfolding resolve all_plain
resolve-HasPlainLabels r ip h p = elim (Option-cases (lookup ip r.sources)) [
  | inl e ↦
      rw (e, resolve)
        (IsPlain-of_all_plain (codes "unknown") refl, p, note_unknown-HasPlainLabels r ip h)
  | inr (m, e) ↦ rw (e, resolve) (h.site_plain ip m e, h.host_plain ip m e, h)
]

pub record HasPlainOrigin (d : Datagram) : Type 0 where
  pub ip_plain : ArePlain d.client_ip
  pub time_plain : ArePlain d.recv_ts

module _ {κ} {W : Type 0} (P : W → Type κ) (env : Env W)
    (reject_unknown_sources include_structured_data : Bool)
    (keeps : (line : Text) (w : W) → IsLine line → P w → P (env.write line w).1) where
  -- A state of the server between two steps.
  record IsSound (s : Server W) : Type κ where
    labels : HasPlainLabels s.resolver
    holds : P s.writer

  warn_throttled-IsSound :
      (key : Text) (m : ℕ) (s : Server W) → IsSound s → IsSound (warn_throttled key m s)
  unfolding warn_throttled
  warn_throttled-IsSound key m s h =
      if_rule IsSound _ _ _ (λ _. record { labels = h.labels; holds = h.holds })
        λ _. record { labels = h.labels; holds = h.holds }

  survive-IsSound : (d : Datagram) (r : Bool × Server W) → IsSound r.1 → IsSound (survive d r)
  unfolding survive
  survive-IsSound d (false, s) h = h
  survive-IsSound d (true, s) h =
      warn_throttled-IsSound _ _ _ (record { labels = h.labels; holds = h.holds })

  after_write-IsSound :
      (o : Outcome) (line : Text) (d : Datagram) (s : Server W)
      → IsSound s
      → IsSound (after_write env reject_unknown_sources include_structured_data o line d s).1
  unfolding after_write
  after_write-IsSound done line d s h = record { labels = h.labels; holds = h.holds }
  after_write-IsSound expected line d s h =
      warn_throttled-IsSound _ _ _ (record { labels = h.labels; holds = h.holds })
  after_write-IsSound unexpected line d s h = h

  store-IsSound :
      (d : Datagram) (raw : Text) (s : Server W)
      → HasPlainOrigin d
      → IsSound s
      → IsSound
          (store env reject_unknown_sources include_structured_data
            (parse env.classes raw d.recv_ts)
            d
            s).1
  unfolding store
  store-IsSound d raw s o h =
      let (site, host, labels) =
        resolve-HasPlainLabels s.resolver d.client_ip h.labels o.ip_plain in
      let is_line =
        format_line-parse-ArePlain env.classes raw d.recv_ts _ _ include_structured_data
          o.time_plain site host in
      after_write-IsSound _ _ d _ (record { labels = labels; holds = keeps _ _ is_line h.holds })

  route-IsSound :
      (known : Bool) (d : Datagram) (raw : Text) (s : Server W)
      → HasPlainOrigin d
      → IsSound s
      → IsSound
          (route env reject_unknown_sources include_structured_data known
            (parse env.classes raw d.recv_ts)
            d
            s).1
  unfolding route note_unknown_rejected
  route-IsSound true d raw s o h = store-IsSound d raw s o h
  route-IsSound false d raw s o h =
      if_rule (λ (r : Bool × Server W). IsSound r.1) reject_unknown_sources _ _
        (λ _. record {
          labels = note_unknown-HasPlainLabels s.resolver d.client_ip h.labels;
          holds = h.holds;
        })
        λ _. store-IsSound d raw _ o (record { labels = h.labels; holds = h.holds })

  handle_all-IsSound :
      (ds : List Datagram) (s : Server W)
      → All HasPlainOrigin ds
      → IsSound s
      → IsSound (handle_all env reject_unknown_sources include_structured_data ds s)
  unfolding handle_all handle_one process_datagram
  handle_all-IsSound [] s o h = h
  handle_all-IsSound (d ∷ ds) s o h = handle_all-IsSound ds _ o.1 (
      survive-IsSound d _ (
        route-IsSound (is_known s.resolver d.client_ip) d (env.decode d.bytes) _ o.0
          (record { labels = h.labels; holds = h.holds })))

  -- Any property of the writer that writing a single physical line keeps is kept by all datagrams,
  -- whatever their bytes are: no sender can make the pipeline write anything but single lines, when
  -- the configured labels, the senders' addresses and the receive times are plain text.
  pub handle_all-keeps :
      (ds : List Datagram) (s : Server W)
      → HasPlainLabels s.resolver
      → All HasPlainOrigin ds
      → P s.writer
      → P (handle_all env reject_unknown_sources include_structured_data ds s).writer
  handle_all-keeps ds s labels o h =
      (handle_all-IsSound ds s o (record { labels = labels; holds = h })).holds
