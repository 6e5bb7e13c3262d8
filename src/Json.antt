-- ===== src/Json.antt =====
-- What the program uses of Go's encoding/json: a decoder with DisallowUnknownFields reads one value
-- after another from a stream. The bytes are taken after their lexing, as the values that they
-- spell, and the encoder's output is the value that it writes.
use Prim.Native.Char.{code}
use sql_sentinel.Prelude.{
  ℕ, ◌-◌, String, Bool, true, false, ◌&&◌, Option, none, some, List, [], ◌∷◌, leb, ◌==◌,
  if◌then◌else◌,
}
use sql_sentinel.Prelude.Int.{ℤ, fits_int64}

-- A number is kept as the integer that it spells; one with a fraction or an exponent spells none.
mutual
  pub data Json : Type 0 where
    null : Json
    bool : Bool → Json
    num : Option ℤ → Json
    str : String → Json
    arr : Items → Json
    obj : Fields → Json

  pub data Items : Type 0 where
    nil : Items
    cons : Json → Items → Items

  pub data Fields : Type 0 where
    end : Fields
    field : String → Json → Fields → Fields

-- The values in the order of the bytes; `broken` says that something that is no value follows them.
pub record Stream : Type 0 where
  pub values : List Json
  pub broken : Bool

-- One call of Decode: the next value and what is left, io.EOF, or a syntax error.
pub data Next : Type 0 where
  value : Json → Stream → Next
  eof : Next
  bad : Next

abbrev pub next : Stream → Next
next s = elim s.values [
  | [] ↦ if s.broken then bad else eof
  | v ∷ vs ↦ value v (record { values = vs; broken = s.broken })
]

-- The second call of Decode, which has to return io.EOF.
abbrev pub at_end : Stream → Bool
at_end s = elim (next s) [ value v r ↦ false | eof ↦ true | bad ↦ false ]

-- The folding of encoding/json: letters without their case, the long s and the Kelvin sign.
unfoldable pub fold_rune : ℕ → ℕ
fold_rune c =
    if leb b'a' c && leb c b'z'
    then c - 32
    else if c == 0x17f
    then b'S'
    else if c == 0x212a
    then b'K'
    else c

abbrev fold_eq : String → String → Bool
fold_eq String.[] String.[] = true
fold_eq String.[] (String.◌∷◌ d t) = false
fold_eq (String.◌∷◌ c s) String.[] = false
fold_eq (String.◌∷◌ c s) (String.◌∷◌ d t) =
    (fold_rune (code c) == fold_rune (code d)) && fold_eq s t

-- A key of an object names a field of the Go struct whose name it folds to.
unfoldable pub same_key : String → String → Bool
unfolding fold_rune
same_key = fold_eq

-- A value stored into an `int` field: null leaves it alone, and a number has to fit int64.
unfoldable pub read_int : ℤ → Json → Option ℤ
read_int old null = some old
read_int old (num (some n)) = if fits_int64 n then some n else none
read_int old _ = none

-- A value stored into a `string` field.
unfoldable pub read_string : String → Json → Option String
read_string old null = some old
read_string old (str s) = some s
read_string old _ = none

-- The fields of an object stored one after another into a struct; `store` fails on an unknown key.
unfoldable pub read_fields {ℓ} :
    {T : Type ℓ} → (String → Json → T → Option T) → Fields → T → Option T
read_fields store end t = some t
read_fields store (field k v fs) t = elim (store k v t) [
  | none ↦ none
  | some t' ↦ read_fields store fs t'
]

-- A struct: null leaves it alone, an object stores its fields, any other value is an error.
unfoldable pub read_struct {ℓ} : {T : Type ℓ} → (String → Json → T → Option T) → Json → T → Option T
unfolding read_fields
read_struct store null t = some t
read_struct store (obj fs) t = read_fields store fs t
read_struct store _ t = none
