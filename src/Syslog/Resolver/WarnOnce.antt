-- ===== src/Syslog/Resolver/WarnOnce.antt =====
-- How often resolver.py warns about an unknown sender.
use home_assistant_apps.Prelude.{
  ◌≡◌, refl, Text, List, [], ◌∷◌, Bool, false, ◌||◌, none, some, Dict, lookup, member, text_eq,
  text_eq_iff, Bool-cases, inl, inr, arith,
}
use home_assistant_apps.Syslog.Resolver.{
  SourceMapping, Resolver, note_unknown, resolve, note_unknown_rejected, new_resolver,
}

-- No text stands in the list twice.
abbrev pub Distinct : List Text → Type 0
Distinct [] = Unit
Distinct (k ∷ s) = (member k s ≡ false) × Distinct s

pub record IsFair (r : Resolver) : Type 0 where
  pub once : Distinct r.warned
  pub recorded : r.seen_unknown ≡ r.warned

pub note_unknown-IsFair : (r : Resolver) (ip : Text) → IsFair r → IsFair (note_unknown r ip)
unfolding note_unknown
note_unknown-IsFair r ip h = elim (Bool-cases (member ip r.seen_unknown)) [
  | inl old ↦ rw old h
  | inr new ↦ rw new (record { once = (rw h.recorded at new, h.once); recorded = ground arith })
]

pub resolve-IsFair : (r : Resolver) (ip : Text) → IsFair r → IsFair (resolve r ip).1
unfolding resolve
resolve-IsFair r ip h = ground (arith, note_unknown-IsFair r ip h)

-- How a sender's datagram reaches the resolver: it is resolved, or it is rejected.
pub data Use : Type 0 where
  resolving rejecting : Text → Use

abbrev pub use_once : Resolver → Use → Resolver
use_once r (resolving ip) = (resolve r ip).1
use_once r (rejecting ip) = note_unknown_rejected r ip

pub run_uses : Resolver → List Use → Resolver
run_uses r [] = r
run_uses r (e ∷ uses) = run_uses (use_once r e) uses

-- The use is one that an address has to be warned about for: it is rejected, or not configured.
abbrev concerns : Dict SourceMapping → Text → Use → Bool
concerns sources ip (resolving j) = elim (lookup j sources) [ none ↦ text_eq j ip | some m ↦ false ]
concerns sources ip (rejecting j) = text_eq j ip

pub concerned : Dict SourceMapping → Text → List Use → Bool
concerned sources ip [] = false
concerned sources ip (e ∷ uses) = concerns sources ip e || concerned sources ip uses

use_once-sources : (r : Resolver) (e : Use) → (use_once r e).sources ≡ r.sources
unfolding resolve note_unknown_rejected note_unknown
use_once-sources r (resolving ip) = ground arith
use_once-sources r (rejecting ip) = ground arith

use_once-IsFair : (r : Resolver) (e : Use) → IsFair r → IsFair (use_once r e)
unfolding note_unknown_rejected
use_once-IsFair r (resolving ip) h = resolve-IsFair r ip h
use_once-IsFair r (rejecting ip) h = note_unknown-IsFair r ip h

member-note_unknown :
    (r : Resolver) (j ip : Text)
    → IsFair r
    → member ip (note_unknown r j).warned ≡ text_eq j ip || member ip r.warned
unfolding note_unknown member
member-note_unknown r j ip h = elim (Bool-cases (member j r.seen_unknown)) [
  | inr new ↦ rw new refl
  | inl old ↦ rw old (elim (Bool-cases (text_eq j ip)) [
    | inr other ↦ rw other refl
    | inl same ↦ rw same (rw (← (text_eq_iff j ip).0 same, ← h.recorded) old)
  ])
]

member-use_once :
    (r : Resolver) (e : Use) (ip : Text)
    → IsFair r
    → member ip (use_once r e).warned ≡ concerns r.sources ip e || member ip r.warned
unfolding resolve note_unknown_rejected
member-use_once r (resolving j) ip h = ground (arith, member-note_unknown r j ip h)
member-use_once r (rejecting j) ip h = member-note_unknown r j ip h

run_uses-IsFair :
    (r : Resolver) (uses : List Use) (ip : Text)
    → IsFair r
    → IsFair (run_uses r uses)
      × (member ip (run_uses r uses).warned ≡ concerned r.sources ip uses || member ip r.warned)
unfolding run_uses concerned
run_uses-IsFair r [] ip h = (h, refl)
run_uses-IsFair r (e ∷ uses) ip h =
    let (fair, seen) = run_uses-IsFair (use_once r e) uses ip (use_once-IsFair r e h) in
    (fair, ground (arith, seen, member-use_once r e ip h, use_once-sources r e))

-- However the datagrams of any senders were resolved or rejected since the start, an address has
-- been warned about if and only if one of them was rejected or not configured, and no address was
-- warned about twice.
pub warned-once :
    (sources : Dict SourceMapping) (uses : List Use) (ip : Text)
    → Distinct (run_uses (new_resolver sources) uses).warned
      × (member ip (run_uses (new_resolver sources) uses).warned ≡ concerned sources ip uses)
unfolding new_resolver member
warned-once sources uses ip =
    let (fair, seen) =
      run_uses-IsFair (new_resolver sources) uses ip (record { once = tt; recorded = refl }) in
    (fair.once, ground (arith, seen))
