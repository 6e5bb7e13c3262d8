-- ===== src/Prelude/Assoc.antt =====
-- Go's `map[string]V` as an association list with one entry for each key.
use Prim.Native.String.{String}
use mathlib.Core.Logic.{◌⊎◌, inl, inr, ◌≢◌}
use sql_sentinel.Prelude.Tests.{Bool-cases}
use mathlib.Core.Path.{◌≡◌, refl}
use mathlib.Core.Option.{Option, none, some}
use mathlib.Core.List.{List, [], ◌∷◌}
use native.Mathlib.Omega.{arith}
use text.Mathlib.Text.{◌==◌}
use text.Mathlib.TextEquality.{eq_iff}
use sql_sentinel.Prelude.Tests.{if◌then◌else◌}

abbrev pub Assoc {ℓ} : Type ℓ → Type ℓ
Assoc V = List (String × V)

-- v, ok := m[key]
unfoldable pub lookup {ℓ} : {V : Type ℓ} → String → Assoc V → Option V
lookup key [] = none
lookup key (entry ∷ rest) = if entry.0 == key then some (entry.1) else lookup key rest

-- m[key] = value
unfoldable pub insert {ℓ} : {V : Type ℓ} → String → V → Assoc V → Assoc V
insert key value [] = (key, value) ∷ []
insert key value (entry ∷ rest) =
    let kept = insert key value rest in if entry.0 == key then (key, value) ∷ rest else entry ∷ kept

pub lookup-empty {ℓ} : {V : Type ℓ} (key : String) → lookup {V = V} key [] ≡ none
unfolding lookup
lookup-empty key = refl

pub lookup-insert {ℓ} :
    {V : Type ℓ} (key asked : String) (value : V) (rest : Assoc V)
    → lookup asked (insert key value rest)
      ≡ (if key == asked then some value else lookup asked rest)
unfolding insert lookup
lookup-insert key asked value [] = refl
lookup-insert key asked value (entry ∷ rest) = ground (
  lookup-insert key asked value rest,
  eq_iff (entry.0) asked,
  eq_iff (entry.0) key,
  eq_iff key asked,
  arith,
)

-- The entry under a key after an insertion: the new one, or the old one under another key.
pub lookup-insert_cases {ℓ} :
    {V : Type ℓ} (k j : String) (v w : V) (m : Assoc V)
    → lookup j (insert k v m) ≡ some w
    → ((j ≡ k) × (w ≡ v)) ⊎ ((k ≢ j) × (lookup j m ≡ some w))
lookup-insert_cases k j v w m h = elim (Bool-cases (k == j)) [
  | inl hit ↦ inl (ground (arith, eq_iff k j), ground (arith, lookup-insert k j v m))
  | inr miss ↦ inr (ground (arith, eq_iff k j), ground (arith, lookup-insert k j v m))
]

pub lookup-insert_other {ℓ} :
    {V : Type ℓ} (k j : String) (v : V) (m : Assoc V) → k ≢ j → lookup j (insert k v m) ≡ lookup j m
lookup-insert_other k j v m h = ground (arith, eq_iff k j, lookup-insert k j v m)

pub lookup-insert_same {ℓ} :
    {V : Type ℓ} (k : String) (v : V) (m : Assoc V) → lookup k (insert k v m) ≡ some v
lookup-insert_same k v m = ground (arith, eq_iff k k, lookup-insert k k v m)
