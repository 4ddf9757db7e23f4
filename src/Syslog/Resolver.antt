-- ===== src/Syslog/Resolver.antt =====
-- `Resolver` of py-syslog/pysyslog/resolver.py. The log is the list of the addresses that a
-- WARNING was written for, newest first.
pub mod WarnOnce
use home_assistant_apps.Prelude.{
  Text, codes, List, [], ◌∷◌, Bool, Option, none, some, Dict, lookup, member, if◌then◌else◌,
}

pub record SourceMapping : Type 0 where
  pub ip : Text
  pub site : Text
  pub host : Text

pub record Resolver : Type 0 where
  pub sources : Dict SourceMapping
  pub seen_unknown : List Text
  pub warned : List Text

unfoldable pub new_resolver : Dict SourceMapping → Resolver
new_resolver sources = record { sources = sources; seen_unknown = []; warned = [] }

-- The part that `resolve` and `note_unknown_rejected` share.
unfoldable pub note_unknown : Resolver → Text → Resolver
note_unknown r ip =
    if member ip r.seen_unknown
    then r
    else record r { seen_unknown = ip ∷ r.seen_unknown; warned = ip ∷ r.warned }

unfoldable pub resolve : Resolver → Text → (Text × Text) × Resolver
resolve r ip = elim (lookup ip r.sources) [
  | some mapping ↦ ((mapping.site, mapping.host), r)
  | none ↦ ((codes "unknown", ip), note_unknown r ip)
]

unfoldable pub is_known : Resolver → Text → Bool
is_known r ip = elim (lookup ip r.sources) [ none ↦ Bool.false | some mapping ↦ Bool.true ]

unfoldable pub note_unknown_rejected : Resolver → Text → Resolver
note_unknown_rejected r ip = note_unknown r ip
