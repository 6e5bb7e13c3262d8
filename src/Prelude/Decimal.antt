-- ===== src/Prelude/Decimal.antt =====
-- strconv.AppendUint in base 10, with zeros in front for the fixed widths of time.Format.
use Prim.Native.Nat.{ℕ, zero, suc, ◌+◌, ◌-◌, ◌*◌, ◌/◌, ◌%◌, ◌≤◌}
use mathlib.Core.Path.{◌≡◌, refl, sym, ap, ◌∙◌}
use mathlib.Core.Logic.{◌≢◌, inl, inr}
use mathlib.Core.List.{[], ◌∷◌, ◌++◌}
use native.Mathlib.Omega.{arith}
use sql_sentinel.Prelude.Tests.{ltb, Bool-cases, if◌then◌else◌}
use sql_sentinel.Prelude.Lists.{All, length}
use sql_sentinel.Prelude.Bytes.{Bytes}

-- The digits of n in front of `out`; n rounds are enough.
unfoldable pub digits_from : ℕ → ℕ → Bytes → Bytes
digits_from zero n out = (b'0' + n % 10) ∷ out
digits_from (suc rounds) n out =
    let more = digits_from rounds (n / 10) ((b'0' + n % 10) ∷ out) in
    if ltb n 10 then (b'0' + n % 10) ∷ out else more

unfoldable pub decimal : ℕ → Bytes
unfolding digits_from
decimal n = digits_from n n []

unfoldable pub zeros : ℕ → Bytes → Bytes
zeros zero s = s
zeros (suc n) s = b'0' ∷ zeros n s

-- At least `width` digits.
unfoldable pub padded : ℕ → ℕ → Bytes
unfolding decimal zeros
padded width n = zeros (width - length (decimal n)) (decimal n)

-- The number that digits spell behind n.
abbrev value : ℕ → Bytes → ℕ
value n [] = n
value n (c ∷ s) = value (n * 10 + (c - b'0')) s

value-digits_from :
    (rounds n : ℕ) (out : Bytes) → n ≤ rounds → value 0 (digits_from rounds n out) ≡ value n out
unfolding digits_from
value-digits_from zero n out h = ap (λ (k : ℕ). value k out) (omega arith)
value-digits_from (suc rounds) n out h = elim (Bool-cases (ltb n 10)) [
  | inl small ↦ rw small (ap (λ (k : ℕ). value k out) (ground arith))
  | inr large ↦ rw large (
      value-digits_from rounds (n / 10) ((b'0' + n % 10) ∷ out) (omega arith)
      ∙ ap (λ (k : ℕ). value k out) (omega arith))
]

abbrev pub IsDigit : ℕ → Type 0
IsDigit c = (b'0' ≤ c) × (c ≤ b'9')

digits_from-IsDigit :
    (rounds n : ℕ) (out : Bytes) → All IsDigit out → All IsDigit (digits_from rounds n out)
unfolding digits_from
digits_from-IsDigit zero n out h = (omega arith, h)
digits_from-IsDigit (suc rounds) n out h =
    ground (arith, h, digits_from-IsDigit rounds (n / 10) ((b'0' + n % 10) ∷ out) (omega arith, h))

pub decimal-IsDigit : (n : ℕ) → All IsDigit (decimal n)
unfolding decimal
decimal-IsDigit n = digits_from-IsDigit n n [] tt

zeros-IsDigit : (n : ℕ) (s : Bytes) → All IsDigit s → All IsDigit (zeros n s)
unfolding zeros
zeros-IsDigit zero s h = h
zeros-IsDigit (suc n) s h = (omega arith, zeros-IsDigit n s h)

pub padded-IsDigit : (width n : ℕ) → All IsDigit (padded width n)
unfolding padded
padded-IsDigit width n = zeros-IsDigit _ _ (decimal-IsDigit n)

value-decimal : (n : ℕ) → value 0 (decimal n) ≡ n
unfolding decimal
value-decimal n = value-digits_from n n [] (omega arith)

value-zeros : (n : ℕ) (s : Bytes) → value 0 (zeros n s) ≡ value 0 s
unfolding zeros
value-zeros zero s = refl
value-zeros (suc n) s = value-zeros n s

pub decimal_injective : (m n : ℕ) → decimal m ≡ decimal n → m ≡ n
decimal_injective m n h = sym (value-decimal m) ∙ ap (value 0) h ∙ value-decimal n

value-padded : (width n : ℕ) → value 0 (padded width n) ≡ n
unfolding padded
value-padded width n = value-zeros (width - length (decimal n)) (decimal n) ∙ value-decimal n

pub padded_injective : (width m n : ℕ) → padded width m ≡ padded width n → m ≡ n
padded_injective width m n h = sym (value-padded width m) ∙ ap (value 0) h ∙ value-padded width n

-- A text is split at the first byte that stands in neither front.
pub split_at :
    (sep : ℕ) (a a' b b' : Bytes)
    → All (λ c. c ≢ sep) a
    → All (λ c. c ≢ sep) a'
    → a ++ sep ∷ b ≡ a' ++ sep ∷ b'
    → (a ≡ a') × (b ≡ b')
split_at sep [] [] b b' h k e = (refl, ground (arith, e))
split_at sep [] (c' ∷ a') b b' h k e = absurd (k.0 (ground (arith, e)))
split_at sep (c ∷ a) [] b b' h k e = absurd (h.0 (ground (arith, e)))
split_at sep (c ∷ a) (c' ∷ a') b b' h k e =
    let (fronts, backs) = split_at sep a a' b b' h.1 k.1 (ground (arith, e)) in
    (ground (arith, e, fronts), backs)
