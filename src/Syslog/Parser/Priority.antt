-- ===== src/Syslog/Parser/Priority.antt =====
-- The `<facility>.<severity>` text of a parsed record.
use home_assistant_apps.Prelude.{
  ℕ, zero, suc, ◌/◌, ◌%◌, ◌≡◌, refl, Text, codes, [], ◌∷◌, All, All-append, if_rule, arith, Option,
  none, some, List, get_elem?, ltb, Bool, true, ◌&&◌,
}
use home_assistant_apps.Syslog.Parser.Shape.{parse_rule, parse_rfc5424-Is5424, parse-IsWellFormed}
use home_assistant_apps.Syslog.Escape.Cases.{IsPlain, all_plain, IsPlain-of_all_plain}
use home_assistant_apps.Syslog.Matching.{CharClasses, digits_value}
use home_assistant_apps.Syslog.Parser.{
  parse, parse_rfc3164, malformed_record, priority_text, facilities, severities, join_names,
}

abbrev ArePlain : Text → Type 0
ArePlain = All IsPlain

-- What a lookup finds has what every element has.
abbrev Found : Option Text → Type 0
Found none = Unit
Found (some t) = ArePlain t

get_elem?-Found : (table : List Text) (i : ℕ) → All ArePlain table → Found (get_elem? table i)
get_elem?-Found [] i h = tt
get_elem?-Found (t ∷ ts) zero h = h.0
get_elem?-Found (t ∷ ts) (suc i) h = get_elem?-Found ts i h.1

plain : (text : Text) → all_plain text ≡ true → ArePlain text
plain = IsPlain-of_all_plain

table_plain : List Text → Bool
table_plain [] = true
table_plain (t ∷ ts) = all_plain t && table_plain ts

table-ArePlain : (table : List Text) → table_plain table ≡ true → All ArePlain table
unfolding table_plain
table-ArePlain [] h = tt
table-ArePlain (t ∷ ts) h = (plain t (ground arith), table-ArePlain ts (ground arith))

facilities-ArePlain : All ArePlain facilities
unfolding table_plain all_plain
facilities-ArePlain = table-ArePlain facilities refl

severities-ArePlain : All ArePlain severities
unfolding table_plain all_plain
severities-ArePlain = table-ArePlain severities refl

join_names-ArePlain : (f s : Option Text) → Found f → Found s → ArePlain (join_names f s)
unfolding join_names all_plain
join_names-ArePlain none s hf hs = plain (codes "unknown") refl
join_names-ArePlain (some f) none hf hs = plain (codes "unknown") refl
join_names-ArePlain (some f) (some s) hf hs = All-append IsPlain f (b'.' ∷ s) hf (omega arith, hs)

priority_text-ArePlain : (pri : ℕ) → ArePlain (priority_text pri)
unfolding priority_text all_plain
priority_text-ArePlain pri =
    if_rule ArePlain (ltb 191 pri) _ _ (λ _. plain (codes "unknown") refl)
      λ _.
        join_names-ArePlain _ _ (get_elem?-Found facilities (pri / 8) facilities-ArePlain)
          (get_elem?-Found severities (pri % 8) severities-ArePlain)

pub recv_ts-parse : (u : CharClasses) (raw recv_ts : Text) → (parse u raw recv_ts).recv_ts ≡ recv_ts
recv_ts-parse u raw recv_ts = (parse-IsWellFormed u raw recv_ts).recv_ts_kept

pub priority-parse-IsPlain :
    (u : CharClasses) (raw recv_ts : Text) → All IsPlain (parse u raw recv_ts).priority_text
unfolding malformed_record parse_rfc3164 all_plain
priority-parse-IsPlain u raw recv_ts =
    parse_rule (λ r. ArePlain r.priority_text) u raw recv_ts (λ _. plain (codes "unknown") refl)
      (λ digits rest r _ p.
        let k =
          parse_rfc5424-Is5424 u (priority_text (digits_value u 0 digits)) rest raw recv_ts r p in
        rw k.priority (priority_text-ArePlain (digits_value u 0 digits)))
      (λ digits rest _. priority_text-ArePlain (digits_value u 0 digits))
