-- ===== src/PlanCompare.antt =====
-- Diff and uniqueKeys of internal/plancompare/compare.go, on the summaries of two plans.
pub mod Parse
use Prim.Native.Nat.{Ordering}
use Prim.Native.String.{compare}
use sql_sentinel.Prelude.{
  ◌≡◌, refl, arith, String, Bool, true, false, not, ◌&&◌, ◌||◌, Option, List, [], ◌∷◌, ap, ◌∙◌,
  str_eq, eq_iff, if◌then◌else◌,
}
use sql_sentinel.Prelude.Int.{ℤ}

pub record TableAccess : Type 0 where
  pub table_name : String
  pub access_type : String
  pub possible_keys : List String
  pub key : String
  pub rows_examined_per_scan : Option ℤ
  pub using_index : Bool

pub record Summary : Type 0 where
  pub tables : List TableAccess
  pub uses_filesort : Bool

pub record Difference : Type 0 where
  pub baseline_uses_filesort : Bool
  pub candidate_uses_filesort : Bool
  pub filesort_changed : Bool
  pub baseline_keys : List String
  pub candidate_keys : List String
  pub candidate_only_keys : List String

abbrev pub is_listed : String → List String → Bool
is_listed k [] = false
is_listed k (x ∷ xs) = str_eq x k || is_listed k xs

-- The set `seen`: a key is added once.
unfoldable pub seen_keys : List TableAccess → List String
seen_keys [] = []
seen_keys (t ∷ ts) =
    let rest = seen_keys ts in
    if str_eq t.key "" || is_listed t.key rest then rest else t.key ∷ rest

-- sort.Strings
abbrev pub is_before : String → String → Bool
is_before x y = elim (compare x y) [ Ordering.gt ↦ false | _ ↦ true ]

unfoldable pub insert_key : String → List String → List String
insert_key x [] = x ∷ []
insert_key x (y ∷ ys) = let rest = insert_key x ys in if is_before x y then x ∷ y ∷ ys else y ∷ rest

unfoldable pub sort_keys : List String → List String
unfolding insert_key
sort_keys [] = []
sort_keys (x ∷ xs) = insert_key x (sort_keys xs)

unfoldable pub unique_keys : List TableAccess → List String
unfolding seen_keys sort_keys
unique_keys tables = sort_keys (seen_keys tables)

-- The keys that are not in the other list.
unfoldable pub without : List String → List String → List String
without others [] = []
without others (k ∷ ks) =
    let rest = without others ks in if not (is_listed k others) then k ∷ rest else rest

unfoldable pub diff_plans : Summary → Summary → Difference
unfolding unique_keys without
diff_plans baseline candidate = record {
  baseline_uses_filesort = baseline.uses_filesort;
  candidate_uses_filesort = candidate.uses_filesort;
  filesort_changed =
      if baseline.uses_filesort then not candidate.uses_filesort else candidate.uses_filesort;
  baseline_keys = unique_keys baseline.tables;
  candidate_keys = unique_keys candidate.tables;
  candidate_only_keys = without (unique_keys baseline.tables) (unique_keys candidate.tables);
}

-- A plan reads a table through the key.
abbrev pub is_used : String → List TableAccess → Bool
is_used k [] = false
is_used k (t ∷ ts) = (not (str_eq t.key "") && str_eq t.key k) || is_used k ts

is_listed-seen_keys :
    (k : String) (ts : List TableAccess) → is_listed k (seen_keys ts) ≡ is_used k ts
unfolding seen_keys
is_listed-seen_keys k [] = refl
is_listed-seen_keys k (t ∷ ts) =
    ground (arith, is_listed-seen_keys k ts, is_listed-seen_keys t.key ts, eq_iff t.key k)

is_listed-insert_key :
    (k x : String) (ys : List String)
    → is_listed k (insert_key x ys) ≡ (str_eq x k || is_listed k ys)
unfolding insert_key
is_listed-insert_key k x [] = refl
is_listed-insert_key k x (y ∷ ys) = ground (arith, is_listed-insert_key k x ys)

is_listed-sort_keys : (k : String) (xs : List String) → is_listed k (sort_keys xs) ≡ is_listed k xs
unfolding sort_keys
is_listed-sort_keys k [] = refl
is_listed-sort_keys k (x ∷ xs) =
    is_listed-insert_key k x (sort_keys xs) ∙ ap (λ b. str_eq x k || b) (is_listed-sort_keys k xs)

is_listed-unique_keys :
    (k : String) (ts : List TableAccess) → is_listed k (unique_keys ts) ≡ is_used k ts
unfolding unique_keys
is_listed-unique_keys k ts = is_listed-sort_keys k (seen_keys ts) ∙ is_listed-seen_keys k ts

is_listed-without :
    (k : String) (others ks : List String)
    → is_listed k (without others ks) ≡ (is_listed k ks && not (is_listed k others))
unfolding without
is_listed-without k others [] = refl
is_listed-without k others (x ∷ ks) = ground (arith, is_listed-without k others ks, eq_iff x k)

-- The keys that a difference lists as new are exactly those through which the candidate's plan reads
-- a table and the baseline's plan reads none.
pub is_listed-diff_plans :
    (k : String) (baseline candidate : Summary)
    → is_listed k (diff_plans baseline candidate).candidate_only_keys
      ≡ (is_used k candidate.tables && not (is_used k baseline.tables))
unfolding diff_plans
is_listed-diff_plans k baseline candidate =
    is_listed-without k (unique_keys baseline.tables) (unique_keys candidate.tables)
    ∙ rw (is_listed-unique_keys k baseline.tables, is_listed-unique_keys k candidate.tables) refl
