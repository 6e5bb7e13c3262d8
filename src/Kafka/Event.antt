-- ===== src/Kafka/Event.antt =====
-- Event of internal/kafka/model.go: its validation, MarshalSafe and DecodeEvent.
use sql_sentinel.Prelude.{
  String, Bool, true, false, not, ◌||◌, Option, none, some, [], ◌∷◌, ◌≡◌, ◌≢◌, arith, str_eq,
  eq_iff, if◌then◌else◌,
}
use sql_sentinel.Prelude.Int.{ℤ, pos, ltb_ℤ, ◌≤ℤ◌, eqb_ℤ, fits_int64}
use sql_sentinel.Json.{
  Json, num, str, obj, field, end, Stream, Next, value, eof, bad, next, at_end, same_key, read_int,
  read_string, read_struct,
}

pub record Event : Type 0 where
  pub schema_version : ℤ
  pub event_id : String
  pub job_id : String
  pub delivery_id : String
  pub attempt : ℤ

-- Event{}
abbrev pub zero_event : Event
zero_event = record {
  schema_version = pos 0;
  event_id = "";
  job_id = "";
  delivery_id = "";
  attempt = pos 0;
}

-- Validate returns nil.
unfoldable pub is_valid : Event → Bool
is_valid e = not (
    not (eqb_ℤ e.schema_version (pos 1))
    || str_eq e.event_id ""
    || str_eq e.job_id ""
    || str_eq e.delivery_id ""
    || ltb_ℤ e.attempt (pos 1))

-- json.Marshal(e): one object with the fields in the order of the struct.
abbrev pub marshal : Event → Stream
marshal e = record {
  values =
      obj (
        field "schema_version" (num (some e.schema_version)) (
          field "event_id" (str e.event_id) (
            field "job_id" (str e.job_id) (
              field "delivery_id" (str e.delivery_id)
                (field "attempt" (num (some e.attempt)) end)))))
      ∷ [];
  broken = false;
}

-- `none` is the error of Validate.
unfoldable pub marshal_safe : Event → Option Stream
unfolding is_valid
marshal_safe e = if is_valid e then some (marshal e) else none

abbrev set_int : Option ℤ → (ℤ → Event) → Option Event
set_int none f = none
set_int (some n) f = some (f n)

abbrev set_text : Option String → (String → Event) → Option Event
set_text none f = none
set_text (some s) f = some (f s)

pub store_field : String → Json → Event → Option Event
store_field k v e =
    if same_key "schema_version" k
    then set_int (read_int e.schema_version v) (λ n. record e { schema_version = n })
    else if same_key "event_id" k
    then set_text (read_string e.event_id v) (λ s. record e { event_id = s })
    else if same_key "job_id" k
    then set_text (read_string e.job_id v) (λ s. record e { job_id = s })
    else if same_key "delivery_id" k
    then set_text (read_string e.delivery_id v) (λ s. record e { delivery_id = s })
    else if same_key "attempt" k
    then set_int (read_int e.attempt v) (λ n. record e { attempt = n })
    else none

-- `return event, event.Validate()`, after the test for trailing data
checked : Option Event → Bool → Option Event
checked none ended = none
checked (some e) ended = if ended then (if is_valid e then some e else none) else none

decode_next : Next → Option Event
decode_next (value v rest) = checked (read_struct store_field v zero_event) (at_end rest)
decode_next _ = none

-- `none` is any error: a syntax error, an unknown field, a field of another type, data behind the
-- object, an event that does not validate.
unfoldable pub decode_event : Stream → Option Event
unfolding decode_next checked store_field is_valid read_struct read_int read_string same_key
decode_event bytes = decode_next (next bytes)

-- The fields of an event that validates.
pub record IsValid (e : Event) : Type 0 where
  pub version : e.schema_version ≡ pos 1
  pub event : e.event_id ≢ ""
  pub job : e.job_id ≢ ""
  pub delivery : e.delivery_id ≢ ""
  pub attempt : pos 1 ≤ℤ e.attempt

pub is_valid-IsValid : (e : Event) → is_valid e ≡ true → IsValid e
unfolding is_valid
is_valid-IsValid e h =
    ground (arith, eq_iff e.event_id "", eq_iff e.job_id "", eq_iff e.delivery_id "")

pub IsValid-is_valid : (e : Event) → IsValid e → is_valid e ≡ true
unfolding is_valid
IsValid-is_valid e h =
    ground (arith, eq_iff e.event_id "", eq_iff e.job_id "", eq_iff e.delivery_id "")

checked_valid :
    (o : Option Event) (ended : Bool) (e : Event) → checked o ended ≡ some e → is_valid e ≡ true
unfolding checked
checked_valid none ended e h = cc
checked_valid (some d) ended e h = ground arith

decode_next_valid : (n : Next) (e : Event) → decode_next n ≡ some e → is_valid e ≡ true
unfolding decode_next
decode_next_valid (value v rest) e h = checked_valid _ _ e h
decode_next_valid eof e h = cc
decode_next_valid bad e h = cc

decoded_valid : (bytes : Stream) (e : Event) → decode_event bytes ≡ some e → is_valid e ≡ true
unfolding decode_event
decoded_valid bytes e h = decode_next_valid (next bytes) e h

-- What DecodeEvent accepts validates: schema version 1, no empty identifier and an attempt of 1 at
-- least.
pub decode_event-IsValid : (bytes : Stream) (e : Event) → decode_event bytes ≡ some e → IsValid e
decode_event-IsValid bytes e h = is_valid-IsValid e (decoded_valid bytes e h)

-- One JSON value with nothing behind it, which spells an event that validates.
pub record IsEvent (bytes : Stream) (e : Event) : Type 0 where
  pub spelled : Json
  pub one_value : bytes.values ≡ spelled ∷ []
  pub nothing_behind : bytes.broken ≡ false
  pub stored : read_struct store_field spelled zero_event ≡ some e
  pub validates : IsValid e

-- The bytes that MarshalSafe makes of an event are decoded by DecodeEvent to that event, if its
-- attempt fits an int64.
pub decode_event-marshal_safe :
    (e : Event) (bytes : Stream)
    → fits_int64 e.attempt ≡ true
    → marshal_safe e ≡ some bytes
    → decode_event bytes ≡ some e
unfolding marshal_safe decode_event
decode_event-marshal_safe e bytes fits h = ground arith
