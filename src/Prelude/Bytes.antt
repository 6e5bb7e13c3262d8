-- ===== src/Prelude/Bytes.antt =====
-- Go's strings where the program reads them byte by byte.
use Prim.Native.Nat.{ℕ, ◌+◌, ◌-◌}
use Prim.Native.String.{String}
use mathlib.Core.Path.{◌≡◌, refl}
use mathlib.Core.Bool.{Bool, true, false, ◌&&◌, ◌||◌}
use mathlib.Core.List.{List, [], ◌∷◌, ◌++◌, map}
use native.Mathlib.Omega.{arith}
use sql_sentinel.Prelude.Tests.{leb, ltb, ◌==◌, if◌then◌else◌}
use sql_sentinel.Prelude.Lists.{all}
use sql_sentinel.Prelude.Text.{codes}

abbrev pub Bytes : Type 0
Bytes = List ℕ

abbrev pub bytes : String → Bytes
bytes = codes

unfoldable pub bytes_eq : Bytes → Bytes → Bool
bytes_eq [] [] = true
bytes_eq [] (d ∷ t) = false
bytes_eq (c ∷ s) [] = false
bytes_eq (c ∷ s) (d ∷ t) = (c == d) && bytes_eq s t

unfoldable pub mem_bytes : Bytes → List Bytes → Bool
unfolding bytes_eq
mem_bytes x [] = false
mem_bytes x (y ∷ ys) = bytes_eq y x || mem_bytes x ys

-- strings.HasPrefix(s, p)
unfoldable pub has_prefix : Bytes → Bytes → Bool
has_prefix s [] = true
has_prefix [] (d ∷ p) = false
has_prefix (c ∷ s) (d ∷ p) = (c == d) && has_prefix s p

abbrev pub in_range : ℕ → ℕ → ℕ → Bool
in_range lo hi c = leb lo c && leb c hi

abbrev pub lower_byte : ℕ → ℕ
lower_byte c = if in_range b'A' b'Z' c then c + 32 else c

abbrev pub upper_byte : ℕ → ℕ
upper_byte c = if in_range b'a' b'z' c then c - 32 else c

abbrev pub is_ascii : Bytes → Bool
is_ascii = all (λ c. ltb c 128)

-- strings.ToUpper(s): on ASCII by bytes, elsewhere by the tables of Unicode, a parameter.
unfoldable pub to_upper : (Bytes → Bytes) → Bytes → Bytes
to_upper unicode s = if is_ascii s then map upper_byte s else unicode s

-- strings.Join(xs, separator)
unfoldable pub join : Bytes → List Bytes → Bytes
join separator [] = []
join separator (x ∷ []) = x
join separator (x ∷ (y ∷ ys)) = x ++ (separator ++ join separator (y ∷ ys))

pub bytes_eq_refl : (s : Bytes) → bytes_eq s s ≡ true
unfolding bytes_eq
bytes_eq_refl [] = refl
bytes_eq_refl (c ∷ s) = ground (arith, bytes_eq_refl s)

pub bytes_eq_sound : (s t : Bytes) → bytes_eq s t ≡ true → s ≡ t
unfolding bytes_eq
bytes_eq_sound [] [] h = refl
bytes_eq_sound [] (d ∷ t) h = absurd (ground arith)
bytes_eq_sound (c ∷ s) [] h = absurd (ground arith)
bytes_eq_sound (c ∷ s) (d ∷ t) h = ground (arith, bytes_eq_sound s t)
