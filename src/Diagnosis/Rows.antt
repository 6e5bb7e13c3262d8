-- ===== src/Diagnosis/Rows.antt =====
-- The totals that comparableRows of internal/diagnosis/diagnosis.go compares.
use sql_sentinel.Prelude.{
  ◌≡◌, ◌≢◌, refl, sym, ap, ◌∙◌, subst, arith, Option, some, List, [], ◌∷◌, String, map, str_eq,
  eq_iff, eq_refl, inl, inr, Option-cases, Bool-cases, ◌↔◌,
}
use sql_sentinel.Prelude.Int.{ℤ, pos}
use sql_sentinel.PlanCompare.{TableAccess, Summary}
use sql_sentinel.Diagnosis.{add_int64, sum_rows, comparable_rows}

abbrev names : List TableAccess → List String
names ts = map (λ (t : TableAccess). t.table_name) ts

-- The sum of int64 numbers, one after another
abbrev pub total : ℤ → List ℤ → ℤ
total acc [] = acc
total acc (n ∷ ns) = total (add_int64 acc n) ns

-- Every table has an estimate of its rows, and this is their sum.
pub record IsTotal (acc : ℤ) (ts : List TableAccess) (sum : ℤ) : Type 0 where
  pub rows : List ℤ
  pub estimates : map (λ (t : TableAccess). t.rows_examined_per_scan) ts ≡ map some rows
  pub adds : sum ≡ total acc rows

-- The plans read the same tables in the same order, one at least, and these are their totals.
pub record AreTotals (baseline candidate : Summary) (b c : ℤ) : Type 0 where
  pub some_table : baseline.tables ≢ []
  pub same_tables : names baseline.tables ≡ names candidate.tables
  pub baseline_rows : IsTotal (pos 0) baseline.tables b
  pub candidate_rows : IsTotal (pos 0) candidate.tables c

cons-IsTotal :
    (acc n sum : ℤ) (t : TableAccess) (ts : List TableAccess)
    → t.rows_examined_per_scan ≡ some n
    → IsTotal (add_int64 acc n) ts sum
    → IsTotal acc (t ∷ ts) sum
cons-IsTotal acc n sum t ts e x = record {
  rows = n ∷ x.rows;
  estimates = ground (arith, e, x.estimates);
  adds = x.adds;
}

IsTotal-cons :
    (acc sum : ℤ) (t : TableAccess) (ts : List TableAccess)
    → IsTotal acc (t ∷ ts) sum
    → (n : ℤ) × (t.rows_examined_per_scan ≡ some n) × IsTotal (add_int64 acc n) ts sum
IsTotal-cons acc sum t ts x = go x.rows x.estimates x.adds
  where
    go :
        (rows : List ℤ)
        → map (λ (u : TableAccess). u.rows_examined_per_scan) (t ∷ ts) ≡ map some rows
        → sum ≡ total acc rows
        → (n : ℤ) × (t.rows_examined_per_scan ≡ some n) × IsTotal (add_int64 acc n) ts sum
    go [] e a = absurd (ground (arith, e))
    go (n ∷ rows) e a =
        (n, ground (arith, e), record { rows = rows; estimates = ground (arith, e); adds = a })

sum_rows-IsTotal :
    (b c x y : ℤ) (bs cs : List TableAccess)
    → sum_rows b c bs cs ≡ some (x, y)
    → (names bs ≡ names cs) × IsTotal b bs x × IsTotal c cs y
unfolding sum_rows
sum_rows-IsTotal b c x y [] [] h = (
  refl,
  record { rows = []; estimates = refl; adds = ground (arith, h) },
  record { rows = []; estimates = refl; adds = ground (arith, h) },
)
sum_rows-IsTotal b c x y [] (u ∷ us) h = absurd (ground (arith, h))
sum_rows-IsTotal b c x y (t ∷ ts) [] h = absurd (ground (arith, h))
sum_rows-IsTotal b c x y (t ∷ ts) (u ∷ us) h =
    elim (Bool-cases (str_eq t.table_name u.table_name)) [
      | inr other ↦ absurd (ground (arith, (rw other at h)))
      | inl same ↦ elim (Option-cases t.rows_examined_per_scan) [
        | inl missing ↦ absurd (ground (arith, (rw (same, missing) at h)))
        | inr (m, e) ↦ elim (Option-cases u.rows_examined_per_scan) [
          | inl missing ↦ absurd (ground (arith, (rw (same, e, missing) at h)))
          | inr (n, f) ↦
              let (ns, s, r) =
                sum_rows-IsTotal (add_int64 b m) (add_int64 c n) x y ts us (rw (same, e, f) at h) in
              (
                ground (arith, ns, (eq_iff t.table_name u.table_name).0 same),
                cons-IsTotal b m x t ts e s,
                cons-IsTotal c n y u us f r,
              )
        ]
      ]
    ]

IsTotal-sum_rows :
    (b c x y : ℤ) (bs cs : List TableAccess)
    → names bs ≡ names cs
    → IsTotal b bs x
    → IsTotal c cs y
    → sum_rows b c bs cs ≡ some (x, y)
unfolding sum_rows
IsTotal-sum_rows b c x y [] [] n s r = go s.rows r.rows s.estimates r.estimates s.adds r.adds
  where
    go :
        (ms ns : List ℤ)
        → [] ≡ map some ms
        → [] ≡ map some ns
        → x ≡ total b ms
        → y ≡ total c ns
        → ◌≡◌ {A = Option (ℤ × ℤ)} (some (b, c)) (some (x, y))
    go [] [] e f g h = ground (arith, g, h)
    go (m ∷ ms) ns e f g h = absurd (ground (arith, e))
    go [] (n ∷ ns) e f g h = absurd (ground (arith, f))
IsTotal-sum_rows b c x y [] (u ∷ us) n s r = absurd (ground (arith, n))
IsTotal-sum_rows b c x y (t ∷ ts) [] n s r = absurd (ground (arith, n))
IsTotal-sum_rows b c x y (t ∷ ts) (u ∷ us) n s r =
    let (i, e, s') = IsTotal-cons b x t ts s in
    let (j, f, r') = IsTotal-cons c y u us r in
    let same : t.table_name ≡ u.table_name = ground (arith, n) in
    let later : names ts ≡ names us = ground (arith, n) in
    rw (same, eq_refl u.table_name, e, f)
      (IsTotal-sum_rows (add_int64 b i) (add_int64 c j) x y ts us later s' r')

-- comparableRows answers with exactly the totals.
pub comparable_rows_iff :
    (baseline candidate : Summary) (b c : ℤ)
    → (comparable_rows baseline candidate ≡ some (b, c)) ↔ AreTotals baseline candidate b c
unfolding comparable_rows
comparable_rows_iff baseline candidate b c = go baseline.tables refl
  where
    go :
        (ts : List TableAccess)
        → baseline.tables ≡ ts
        → (comparable_rows baseline candidate ≡ some (b, c)) ↔ AreTotals baseline candidate b c
    go [] e =
        (λ h. absurd (ground (arith, (rw (comparable_rows, e) at h))), λ x. absurd (x.some_table e))
    go (t ∷ ts) e =
        let opened : comparable_rows baseline candidate
            ≡ sum_rows (pos 0) (pos 0) (t ∷ ts) candidate.tables =
          rw (comparable_rows, e) refl in
        (
          λ h.
              let (n, s, r) =
                sum_rows-IsTotal (pos 0) (pos 0) b c (t ∷ ts) candidate.tables (sym opened ∙ h) in
              record {
                some_table = λ none_there. ground (arith, e, none_there);
                same_tables = ap names e ∙ n;
                baseline_rows = subst (λ us. IsTotal (pos 0) us b) (sym e) s;
                candidate_rows = r;
              },
          λ x.
              opened
              ∙ IsTotal-sum_rows (pos 0) (pos 0) b c (t ∷ ts) candidate.tables
                  (ap names (sym e) ∙ x.same_tables)
                  (subst (λ us. IsTotal (pos 0) us b) e x.baseline_rows) x.candidate_rows,
        )
