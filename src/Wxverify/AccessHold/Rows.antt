-- ===== src/Wxverify/AccessHold/Rows.antt =====
-- Reading `runtime_state` after a write of access_hold.py.
use home_assistant_apps.Prelude.{
  ℕ, ◌+◌, ◌≡◌, refl, ap, ◌∙◌, [], ◌∷◌, Bool, true, false, Option, none, some, Text, text_eq,
  text_eq_iff, Dict, lookup, lookup-insert, if◌then◌else◌, arith,
}
use home_assistant_apps.Wxverify.AccessHold.{
  AccessKind, current_obs, hourly, five_minute, access_hold_key, Fields, AccessRecord, Formats,
  delete, hold_time, whole_second, since_of, row_record, read_access_record, record_access_refused,
  clear_access_refused,
}

abbrev pub kind_eq : AccessKind → AccessKind → Bool
kind_eq current_obs current_obs = true
kind_eq hourly hourly = true
kind_eq five_minute five_minute = true
kind_eq _ _ = false

-- What is written is read again.
pub record IsCodec (formats : Formats) : Type 0 where
  pub loads : (fields : Fields) → formats.json_object (formats.dumps fields) ≡ some fields
  pub reads : (time : ℕ) → formats.parse_utc (formats.isoformat_utc time) ≡ some time

key_eq : (a b : AccessKind) → text_eq (access_hold_key a) (access_hold_key b) ≡ kind_eq a b
unfolding text_eq access_hold_key
key_eq current_obs current_obs = refl
key_eq current_obs hourly = refl
key_eq current_obs five_minute = refl
key_eq hourly current_obs = refl
key_eq hourly hourly = refl
key_eq hourly five_minute = refl
key_eq five_minute current_obs = refl
key_eq five_minute hourly = refl
key_eq five_minute five_minute = refl

lookup-delete :
    (k j : Text) (rows : Dict Text)
    → lookup j (delete k rows) ≡ (if text_eq k j then none else lookup j rows)
unfolding lookup delete
lookup-delete k j [] = ground arith
lookup-delete k j ((i, w) ∷ rows) =
    ground (arith, text_eq_iff k j, text_eq_iff i k, text_eq_iff i j, lookup-delete k j rows)

module _ (formats : Formats) (codec : IsCodec formats) where
  -- The record of a refusal.
  abbrev pub refused_record : AccessKind → Text → ℕ → ℕ → ℕ → AccessRecord
  refused_record kind since_text since_time status now = record {
    kind = kind;
    since = some (record { text = since_text; time = since_time });
    until =
        some (record { text = formats.isoformat_utc (now + hold_time); time = now + hold_time });
    status = some status;
    message = some (formats.message status);
  }

  row_after :
      (k : AccessKind) (b : Bool) (o new old : Option Text)
      → o ≡ (if b then new else old)
      → row_record formats k o ≡ (if b then row_record formats k new else row_record formats k old)
  row_after k true o new old e = ap (row_record formats k) e
  row_after k false o new old e = ap (row_record formats k) e

  pub read-refused :
      (rows : Dict Text) (kind k : AccessKind) (status clock since_time : ℕ)
      → formats.parse_utc
          (since_of formats (whole_second clock) (read_access_record formats rows kind))
        ≡ some since_time
      → read_access_record formats (record_access_refused formats rows kind status clock).1 k ≡ (
          if kind_eq kind k
          then some (
              refused_record k
                (since_of formats (whole_second clock) (read_access_record formats rows kind))
                since_time
                status
                (whole_second clock))
          else read_access_record formats rows k)
  unfolding read_access_record record_access_refused
  read-refused rows kind k status clock since_time since =
      row_after k (text_eq (access_hold_key kind) (access_hold_key k)) _ _ _
        (lookup-insert (access_hold_key kind) (access_hold_key k) _ rows)
      ∙ rw (key_eq kind k, codec.loads, since, codec.reads) refl

  pub read-cleared :
      (rows : Dict Text) (kind k : AccessKind)
      → read_access_record formats (clear_access_refused formats rows kind) k
        ≡ (if kind_eq kind k then none else read_access_record formats rows k)
  unfolding read_access_record clear_access_refused
  read-cleared rows kind k =
      row_after k (text_eq (access_hold_key kind) (access_hold_key k)) _ _ _
        (lookup-delete (access_hold_key kind) (access_hold_key k) rows)
      ∙ rw (key_eq kind k) refl
