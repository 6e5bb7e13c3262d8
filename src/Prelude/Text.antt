-- ===== src/Prelude/Text.antt =====
-- Texts: Go's strings, with the decimal notation that `%d` prints.
use Prim.Native.Nat.{ℕ, zero, suc, ◌+◌, ◌/◌, ◌%◌}
use Prim.Native.Char.{code}
use Prim.Native.String.{String, slice, ◌++◌}
use mathlib.Core.List.{List, [], ◌∷◌}
use mathlib.Core.Path.{◌≡◌, refl}
use sql_sentinel.Prelude.Tests.{ltb, if◌then◌else◌}
use sql_sentinel.Prelude.Int.{ℤ, pos, negsuc}

-- The code points of a text: its bytes, if it is ASCII.
abbrev pub codes : String → List ℕ
codes String.[] = []
codes (String.◌∷◌ first rest) = code first ∷ codes rest

-- The number of bytes of a code point in UTF-8.
abbrev pub rune_bytes : ℕ → ℕ
rune_bytes c = if ltb c 0x80 then 1 else if ltb c 0x800 then 2 else if ltb c 0x10000 then 3 else 4

-- len(s)
abbrev pub byte_length : String → ℕ
byte_length String.[] = 0
byte_length (String.◌∷◌ first rest) = rune_bytes (code first) + byte_length rest

infixr 65 ◌+s+◌
abbrev pub ◌+s+◌ : String → String → String
◌+s+◌ = ◌++◌

-- s[:n] for an ASCII text
unfoldable pub prefix : ℕ → String → String
prefix n s = slice s 0 n

-- The digit of a number below ten.
digit : ℕ → String
digit d = slice "0123456789" d (suc d)

-- One digit for each unit of fuel at most; a number has fewer digits than its successor.
print : ℕ → ℕ → String
print zero n = ""
print (suc fuel) n =
    let front = print fuel (n / 10) in if ltb n 10 then digit n else front +s+ digit (n % 10)

unfoldable pub show_nat : ℕ → String
unfolding digit print
show_nat n = print (suc n) n

unfoldable pub show_int : ℤ → String
show_int (pos n) = show_nat n
show_int (negsuc n) = "-" +s+ show_nat (suc n)

show_nat_runs : show_nat 1205 ≡ "1205"
unfolding show_nat
show_nat_runs = refl
