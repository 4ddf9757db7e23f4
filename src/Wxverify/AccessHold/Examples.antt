-- ===== src/Wxverify/AccessHold/Examples.antt =====
-- The holds of access_hold.py on a concrete history.
use home_assistant_apps.Prelude.{
  ℕ, ◌*◌, zero, suc, ◌≡◌, refl, List, [], ◌∷◌, Option, none, some, Text, lookup,
}
use home_assistant_apps.Wxverify.AccessHold.{
  current_obs, hourly, access_kinds, absent, other, string, integer, Json, Fields, Formats, Verdict,
  refused, granted, read_access_record, access_held, refused_kinds, after_verdicts,
}
use home_assistant_apps.Wxverify.AccessHold.Rows.{IsCodec}
use home_assistant_apps.Wxverify.AccessHold.History.{
  refusals, described, listed, access_held-History,
}

-- A text ends with a zero, and its codes are one more.
put_text : Text → Text → Text
put_text [] rest = 0 ∷ rest
put_text (c ∷ t) rest = suc c ∷ put_text t rest

take_text : Text → Text × Text
take_text [] = ([], [])
take_text (zero ∷ rest) = ([], rest)
take_text (suc c ∷ rest) = let (t, after) = take_text rest in (c ∷ t, after)

take_text-put_text : (t rest : Text) → take_text (put_text t rest) ≡ (t, rest)
unfolding put_text take_text
take_text-put_text [] rest = refl
take_text-put_text (c ∷ t) rest = rw (take_text-put_text t rest) refl

-- A value stands behind its constructor's number.
put_json : Json → Text → Text
unfolding put_text
put_json absent rest = 0 ∷ rest
put_json other rest = 1 ∷ rest
put_json (integer n) rest = 2 ∷ n ∷ rest
put_json (string t) rest = 3 ∷ put_text t rest

take_json : Text → Json × Text
unfolding take_text
take_json (zero ∷ rest) = (absent, rest)
take_json (suc zero ∷ rest) = (other, rest)
take_json (suc (suc zero) ∷ n ∷ rest) = (integer n, rest)
take_json (suc (suc (suc zero)) ∷ rest) = let (t, after) = take_text rest in (string t, after)
take_json _ = (absent, [])

take_json-put_json : (j : Json) (rest : Text) → take_json (put_json j rest) ≡ (j, rest)
unfolding put_json take_json
take_json-put_json absent rest = refl
take_json-put_json other rest = refl
take_json-put_json (integer n) rest = refl
take_json-put_json (string t) rest = rw (take_text-put_text t rest) refl

dumps : Fields → Text
unfolding put_json
dumps fields =
    put_json fields.since
      (put_json fields.until (put_json fields.status (put_json fields.message [])))

loads : Text → Option Fields
unfolding take_json
loads t =
    let (since, t1) = take_json t in
    let (until, t2) = take_json t1 in
    let (status, t3) = take_json t2 in
    some (record { since = since; until = until; status = status; message = (take_json t3).0 })

read_time : Text → Option ℕ
read_time [] = none
read_time (n ∷ t) = some n

abbrev formats : Formats
formats = record {
  parse_utc = read_time;
  isoformat_utc = λ n. n ∷ [];
  json_object = loads;
  dumps = dumps;
  message = λ n. n ∷ [];
}

formats-IsCodec : IsCodec formats
unfolding dumps loads read_time
formats-IsCodec = record {
  loads = λ fields.
      rw (take_json-put_json, take_json-put_json, take_json-put_json, take_json-put_json) refl;
  reads = λ n. refl;
}

abbrev second : ℕ
second = 1000000

-- The latest reply first.
abbrev replies : List Verdict
replies =
    refused hourly 403 (9000 * second)
    ∷ refused current_obs 401 (8000 * second)
    ∷ refused hourly 401 (7000 * second)
    ∷ granted hourly
    ∷ refused hourly 401 (1000 * second)
    ∷ []

access_held-History_example :
    (access_held formats (after_verdicts formats replies []) hourly (9001 * second)
      ≡ some (12600 * second ∷ []))
    × (read_access_record formats (after_verdicts formats replies []) hourly
        ≡ described formats formats-IsCodec hourly
            ((403, 9000 * second) ∷ (401, 7000 * second) ∷ []))
    × (refused_kinds formats (after_verdicts formats replies []) (9001 * second)
        ≡ listed formats formats-IsCodec (9001 * second) replies access_kinds)
unfolding refusals lookup
access_held-History_example =
    access_held-History formats formats-IsCodec replies [] hourly (9001 * second) (λ kind. refl)
