-- ===== src/Measure/Stats.antt =====
-- internal/measure/stats.go and round.go: Median and MAD on durations, and a timed round.
use sql_sentinel.Prelude.{
  ℕ, zero, suc, ◌-◌, ◌/◌, ◌%◌, ◌≡◌, refl, arith, Bool, true, false, List, [], ◌∷◌, inl, inr, map,
  length, Bool-cases, ap, sym, ◌∙◌, ◌==◌, if◌then◌else◌,
}
use mathlib.Core.List.{Permᴰ}
use sql_sentinel.Prelude.Int.{ℤ, pos, ◌+ℤ◌, ◌-ℤ◌, ltb_ℤ, leb_ℤ, wrap64, half, eqb_ℤ_iff}

-- slices.Sort: the values in their order.
unfoldable pub insert_sorted : ℤ → List ℤ → List ℤ
insert_sorted x [] = x ∷ []
insert_sorted x (y ∷ s) = let rest = insert_sorted x s in if leb_ℤ x y then x ∷ y ∷ s else y ∷ rest

unfoldable pub sort : List ℤ → List ℤ
unfolding insert_sorted
sort [] = []
sort (x ∷ xs) = insert_sorted x (sort xs)

-- s[i], where i is a position of s.
abbrev pub at : List ℤ → ℕ → ℤ
at [] i = pos 0
at (x ∷ s) zero = x
at (x ∷ s) (suc i) = at s i

abbrev pub is_empty : List ℤ → Bool
is_empty [] = true
is_empty (x ∷ xs) = false

-- The middle of a sorted list: the sum of the two middle values may wrap around.
unfoldable pub middle : List ℤ → ℤ
middle s =
    let mid = length s / 2 in
    if length s % 2 == 1 then at s mid else half (wrap64 (at s (mid - 1) +ℤ at s mid))

unfoldable pub median : List ℤ → ℤ
unfolding sort middle
median xs = if is_empty xs then pos 0 else middle (sort xs)

-- |x - med| of int64 values.
abbrev pub deviation : ℤ → ℤ → ℤ
deviation med x = let d = wrap64 (x -ℤ med) in if ltb_ℤ d (pos 0) then wrap64 (pos 0 -ℤ d) else d

unfoldable pub mad : List ℤ → ℤ
mad xs = if is_empty xs then pos 0 else median (map (deviation (median xs)) xs)

leb_antisym : (x y : ℤ) → leb_ℤ x y ≡ true → leb_ℤ y x ≡ true → x ≡ y
leb_antisym x y h k = (eqb_ℤ_iff x y).0 (rw (h, k) refl)

leb_trans : (x y z : ℤ) → leb_ℤ x y ≡ true → leb_ℤ y z ≡ true → leb_ℤ x z ≡ true
leb_trans x y z h k = ground arith

leb_total : (x y : ℤ) → leb_ℤ x y ≡ false → leb_ℤ y x ≡ true
leb_total x y h = ground arith

comm_apart :
    (x y : ℤ) (s : List ℤ)
    → leb_ℤ x y ≡ true
    → leb_ℤ y x ≡ false
    → insert_sorted x (insert_sorted y s) ≡ insert_sorted y (insert_sorted x s)
unfolding insert_sorted
comm_apart x y [] h k = rw (h, k) refl
comm_apart x y (z ∷ s) h k = elim (Bool-cases (leb_ℤ y z)) [
  | inl under ↦ rw (under, leb_trans x y z h under) (rw (h, k) (rw under refl))
  | inr over ↦ elim (Bool-cases (leb_ℤ x z)) [
    | inl first ↦ rw (over, first) (rw k (rw over refl))
    | inr last ↦ rw (over, last) (rw over (ap (λ l. z ∷ l) (comm_apart x y s h k)))
  ]
]

insert_sorted_comm :
    (x y : ℤ) (s : List ℤ)
    → leb_ℤ x y ≡ true
    → insert_sorted x (insert_sorted y s) ≡ insert_sorted y (insert_sorted x s)
unfolding insert_sorted
insert_sorted_comm x y s h = elim (Bool-cases (leb_ℤ y x)) [
  | inl back ↦
      ap (λ z. insert_sorted x (insert_sorted z s)) (sym (leb_antisym x y h back))
      ∙ ap (λ z. insert_sorted z (insert_sorted x s)) (leb_antisym x y h back)
  | inr apart ↦ comm_apart x y s h apart
]

insert_sorted_swap :
    (x y : ℤ) (s : List ℤ)
    → insert_sorted x (insert_sorted y s) ≡ insert_sorted y (insert_sorted x s)
insert_sorted_swap x y s = elim (Bool-cases (leb_ℤ x y)) [
  | inl up ↦ insert_sorted_comm x y s up
  | inr down ↦ sym (insert_sorted_comm y x s (leb_total x y down))
]

-- The order of the samples does not matter to the sorted list.
sort-Permᴰ : {xs ys : List ℤ} → Permᴰ xs ys → sort xs ≡ sort ys
unfolding sort
sort-Permᴰ Permᴰ.nil = refl
sort-Permᴰ (Permᴰ.cons {a = a} {b = b} {l₁ = l} e p) =
    ap (λ z. insert_sorted z (sort l)) e ∙ ap (insert_sorted b) (sort-Permᴰ p)
sort-Permᴰ (Permᴰ.swap {a = a} {b = b} {l = l} e f) =
    insert_sorted_swap a b (sort l) ∙ rw (e, f) refl
sort-Permᴰ (Permᴰ.trans p q) = sort-Permᴰ p ∙ sort-Permᴰ q

is_empty-Permᴰ : {xs ys : List ℤ} → Permᴰ xs ys → is_empty xs ≡ is_empty ys
is_empty-Permᴰ Permᴰ.nil = refl
is_empty-Permᴰ (Permᴰ.cons e p) = refl
is_empty-Permᴰ (Permᴰ.swap e f) = refl
is_empty-Permᴰ (Permᴰ.trans p q) = is_empty-Permᴰ p ∙ is_empty-Permᴰ q

median-Permᴰ : {xs ys : List ℤ} → Permᴰ xs ys → median xs ≡ median ys
unfolding median
median-Permᴰ p = rw (is_empty-Permᴰ p, sort-Permᴰ p) refl

map-Permᴰ : (f : ℤ → ℤ) {xs ys : List ℤ} → Permᴰ xs ys → Permᴰ (map f xs) (map f ys)
map-Permᴰ f Permᴰ.nil = Permᴰ.nil
map-Permᴰ f (Permᴰ.cons e p) = Permᴰ.cons (ap f e) (map-Permᴰ f p)
map-Permᴰ f (Permᴰ.swap e g) = Permᴰ.swap (ap f e) (ap f g)
map-Permᴰ f (Permᴰ.trans p q) = Permᴰ.trans (map-Permᴰ f p) (map-Permᴰ f q)

-- Median and MAD do not depend on the order in which the samples were taken.
pub mad-Permᴰ : (xs ys : List ℤ) → Permᴰ xs ys → (median xs ≡ median ys) × (mad xs ≡ mad ys)
unfolding mad
mad-Permᴰ xs ys p = (
  median-Permᴰ p,
  rw (is_empty-Permᴰ p, median-Permᴰ p)
      (ap (λ m. if is_empty ys then pos 0 else m)
        (median-Permᴰ (map-Permᴰ (deviation (median ys)) p))),
)
