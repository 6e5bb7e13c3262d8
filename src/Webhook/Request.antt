-- ===== src/Webhook/Request.antt =====
-- Event, parseSignature and decodeEvent of internal/webhook/webhook.go.
use sql_sentinel.Prelude.{
  ℕ, ◌+◌, ◌*◌, ◌-◌, String, Bool, false, ◌&&◌, ◌||◌, Option, none, some, [], ◌∷◌, ◌==◌, all, leb,
  length, if◌then◌else◌,
}
use sql_sentinel.Prelude.Int.{ℤ, pos}
use sql_sentinel.Prelude.Bytes.{Bytes, bytes, has_prefix, in_range}
use sql_sentinel.Json.{
  Json, Stream, Next, value, eof, bad, next, at_end, read_struct, read_string, read_int, same_key,
}

pub record PrEvent : Type 0 where
  pub delivery_id : String
  pub pr_number : ℤ
  pub diff : String

-- A body as it is read: an error, or its bytes with the values that they spell. The reader stops one
-- byte behind the limit.
pub record Body : Type 0 where
  pub raw : Bytes
  pub json : Stream

-- `none` is a body whose reading fails.
pub record Request : Type 0 where
  pub is_post : Bool
  pub signature : Bytes
  pub body : Option Body

abbrev zero_event : PrEvent
zero_event = record { delivery_id = ""; pr_number = pos 0; diff = "" }

abbrev set_text : Option String → (String → PrEvent) → Option PrEvent
set_text none f = none
set_text (some s) f = some (f s)

abbrev set_int : Option ℤ → (ℤ → PrEvent) → Option PrEvent
set_int none f = none
set_int (some n) f = some (f n)

unfoldable pub store_event : String → Json → PrEvent → Option PrEvent
unfolding read_string read_int same_key
store_event k v e =
    if same_key "delivery_id" k
    then set_text (read_string e.delivery_id v) (λ s. record e { delivery_id = s })
    else if same_key "pr_number" k
    then set_int (read_int e.pr_number v) (λ n. record e { pr_number = n })
    else if same_key "diff" k
    then set_text (read_string e.diff v) (λ s. record e { diff = s })
    else none

abbrev when_ended : Bool → Option PrEvent → Option PrEvent
when_ended ended x = if ended then x else none

abbrev event_of_next : Next → Option PrEvent
event_of_next (value v rest) = when_ended (at_end rest) (read_struct store_event v zero_event)
event_of_next eof = none
event_of_next bad = none

-- decodeEvent; `none` is an error.
unfoldable pub decode_pr_event : Stream → Option PrEvent
unfolding read_struct store_event
decode_pr_event json = event_of_next (next json)

abbrev is_alnum : ℕ → Bool
is_alnum c = in_range b'A' b'Z' c || in_range b'a' b'z' c || in_range b'0' b'9' c

-- ^[A-Za-z0-9][A-Za-z0-9_-]{0,63}$
unfoldable pub is_delivery_id : Bytes → Bool
is_delivery_id [] = false
is_delivery_id (c ∷ s) =
    is_alnum c && all (λ d. is_alnum d || (d == b'_') || (d == b'-')) s && leb (length s) 63

abbrev hex_digit : ℕ → Option ℕ
hex_digit c =
    if in_range b'0' b'9' c
    then some (c - b'0')
    else if in_range b'a' b'f' c
    then some (c - b'a' + 10)
    else if in_range b'A' b'F' c
    then some (c - b'A' + 10)
    else none

abbrev cons_byte : Option ℕ → Option ℕ → Option Bytes → Option Bytes
cons_byte (some h) (some l) (some rest) = some ((h * 16 + l) ∷ rest)
cons_byte _ _ _ = none

-- hex.DecodeString
unfoldable pub decode_hex : Bytes → Option Bytes
decode_hex [] = some []
decode_hex (h ∷ []) = none
decode_hex (h ∷ (l ∷ s)) = cons_byte (hex_digit h) (hex_digit l) (decode_hex s)

abbrev of_size : Option Bytes → Option Bytes
of_size none = none
of_size (some mac) = if length mac == 32 then some mac else none

unfoldable pub drop_prefix : Bytes → Bytes → Bytes
drop_prefix [] s = s
drop_prefix (p ∷ part) [] = []
drop_prefix (p ∷ part) (c ∷ s) = drop_prefix part s

unfoldable pub parse_signature : Bytes → Option Bytes
unfolding has_prefix decode_hex drop_prefix
parse_signature header =
    if has_prefix header (bytes "sha256=")
    then of_size (decode_hex (drop_prefix (bytes "sha256=") header))
    else none
