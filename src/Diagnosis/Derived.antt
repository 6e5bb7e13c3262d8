-- ===== src/Diagnosis/Derived.antt =====
-- What the hypotheses of internal/diagnosis/diagnosis.go say of the two plans that were compared.
use sql_sentinel.Prelude.{
  String, Bool, true, false, not, ◌&&◌, ◌||◌, Option, none, some, inl, inr, List, [], ◌∷◌, ◌++◌,
  ◌≡◌, refl, arith, ap, sym, ◌∙◌, subst, eq_refl, Bool-cases, All, ◌↔◌,
}
use sql_sentinel.Prelude.Int.{ℤ, ltb_ℤ, eqb_ℤ, eqb_ℤ_iff, ◌<ℤ◌}
use sql_sentinel.Diagnosis.Rows.{AreTotals, comparable_rows_iff}
use sql_sentinel.PlanCompare.{diff_plans, is_listed, is_used, is_listed-diff_plans}
use sql_sentinel.Diagnosis.{
  Comparison, Hypothesis, filesort_removed, access_path_changed, estimated_scan_reduced, Report,
  derive, analyze, comparable_rows, when, changed, reduced,
}

abbrev pub is_filesort : Hypothesis → Bool
is_filesort filesort_removed = true
is_filesort _ = false

abbrev pub is_path : Hypothesis → Bool
is_path (access_path_changed keys) = true
is_path _ = false

abbrev pub has : (Hypothesis → Bool) → List Hypothesis → Bool
has p [] = false
has p (h ∷ hs) = p h || has p hs

abbrev pub is_scan_of : ℤ → ℤ → Hypothesis → Bool
is_scan_of b d (estimated_scan_reduced x y) = eqb_ℤ x b && eqb_ℤ y d
is_scan_of b d _ = false

-- The keys of a hypothesis are those that only the candidate uses.
abbrev pub NamesKeys : Comparison → Hypothesis → Type 0
NamesKeys c (access_path_changed keys) =
    (k : String)
    → is_listed k keys ≡ (is_used k c.candidate.tables && not (is_used k c.baseline.tables))
NamesKeys c _ = Unit {0}

-- The three conditions, and what the hypotheses say.
pub record IsDerived (c : Comparison) (hs : List Hypothesis) : Type 0 where
  pub filesort : has is_filesort hs ≡ (c.baseline.uses_filesort && not c.candidate.uses_filesort)
  pub path :
      (k : String)
      → (is_used k c.candidate.tables && not (is_used k c.baseline.tables)) ≡ true
      → has is_path hs ≡ true
  pub path_key :
      has is_path hs ≡ true
      → (k : String) × ((is_used k c.candidate.tables && not (is_used k c.baseline.tables)) ≡ true)
  pub keys : All (NamesKeys c) hs
  pub scan :
      (b d : ℤ)
      → (has (is_scan_of b d) hs ≡ true) ↔ (AreTotals c.baseline c.candidate b d × (d <ℤ b))

has-append :
    (p : Hypothesis → Bool) (xs ys : List Hypothesis) → has p (xs ++ ys) ≡ (has p xs || has p ys)
has-append p [] ys = refl
has-append p (x ∷ xs) ys = ground (arith, has-append p xs ys)

scan-reduced :
    (b d : ℤ) (x : Option (ℤ × ℤ))
    → (has (is_scan_of b d) (reduced x) ≡ true) ↔ ((x ≡ some (b, d)) × (d <ℤ b))
scan-reduced b d none = ((λ h. absurd (ground (arith, h))), (λ h. absurd (ground (arith, h))))
scan-reduced b d (some (x, y)) = ground (arith, eqb_ℤ_iff x b, eqb_ℤ_iff y d)

All-append :
    (P : Hypothesis → Type 0) (xs ys : List Hypothesis) → All P xs → All P ys → All P (xs ++ ys)
All-append P [] ys h k = k
All-append P (x ∷ xs) ys (h, hs) k = (h, All-append P xs ys hs k)

derive-has :
    (p : Hypothesis → Bool) (c : Comparison)
    → has p (derive c) ≡ (
        has p (
          when
            (c.difference.baseline_uses_filesort && not c.difference.candidate_uses_filesort)
            filesort_removed)
        || (has p (changed c.difference.candidate_only_keys)
            || has p (reduced (comparable_rows c.baseline c.candidate))))
unfolding derive
derive-has p c =
    has-append p
      (when (c.difference.baseline_uses_filesort && not c.difference.candidate_uses_filesort)
        filesort_removed)
      _
    ∙ ap
        (λ x.
          has p (
            when (c.difference.baseline_uses_filesort && not c.difference.candidate_uses_filesort)
              filesort_removed)
          || x)
        (has-append p (changed c.difference.candidate_only_keys)
          (reduced (comparable_rows c.baseline c.candidate)))

when-has :
    (b : Bool)
    → (has is_filesort (when b filesort_removed) ≡ b)
      × (has is_path (when b filesort_removed) ≡ false)
      × ((x y : ℤ) → has (is_scan_of x y) (when b filesort_removed) ≡ false)
when-has true = (refl, refl, λ x y. refl)
when-has false = (refl, refl, λ x y. refl)

changed-has :
    (ks : List String)
    → (has is_filesort (changed ks) ≡ false)
      × ((x y : ℤ) → has (is_scan_of x y) (changed ks) ≡ false)
changed-has [] = (refl, λ x y. refl)
changed-has (k ∷ ks) = (refl, λ x y. refl)

reduced-has :
    (x : Option (ℤ × ℤ)) → (has is_filesort (reduced x) ≡ false) × (has is_path (reduced x) ≡ false)
reduced-has none = (refl, refl)
reduced-has (some (b, d)) = elim (Bool-cases (ltb_ℤ d b)) [
  | inl less ↦ rw less (refl, refl)
  | inr more ↦ rw more (refl, refl)
]

changed-listed :
    (k : String) (ks : List String) → is_listed k ks ≡ true → has is_path (changed ks) ≡ true
changed-listed k [] h = absurd (ground (arith, h))
changed-listed k (x ∷ ks) h = refl

changed-key :
    (ks : List String) → has is_path (changed ks) ≡ true → (k : String) × (is_listed k ks ≡ true)
changed-key [] h = absurd (ground (arith, h))
changed-key (k ∷ ks) h = (k, rw (eq_refl k) refl)

module _ (c : Comparison) (d : c.difference ≡ diff_plans c.baseline c.candidate) where
  abbrev sorted : Bool
  sorted = c.difference.baseline_uses_filesort && not c.difference.candidate_uses_filesort

  derive-path : has is_path (derive c) ≡ has is_path (changed c.difference.candidate_only_keys)
  derive-path = ground (
    arith,
    derive-has is_path c,
    when-has sorted,
    reduced-has (comparable_rows c.baseline c.candidate),
  )

  derive-filesort : has is_filesort (derive c) ≡ sorted
  derive-filesort = ground (
    arith,
    derive-has is_filesort c,
    when-has sorted,
    changed-has c.difference.candidate_only_keys,
    reduced-has (comparable_rows c.baseline c.candidate),
  )

  listed-used :
      (k : String)
      → is_listed k c.difference.candidate_only_keys
        ≡ (is_used k c.candidate.tables && not (is_used k c.baseline.tables))
  listed-used k = rw d (is_listed-diff_plans k c.baseline c.candidate)

  derive-keys : All (NamesKeys c) (derive c)
  unfolding derive
  derive-keys = All-append (NamesKeys c) (when sorted filesort_removed) _ (when-keys sorted) (
      All-append (NamesKeys c) (changed c.difference.candidate_only_keys) _
        (changed-keys c.difference.candidate_only_keys listed-used)
        (reduced-keys (comparable_rows c.baseline c.candidate)))
    where
      when-keys : (b : Bool) → All (NamesKeys c) (when b filesort_removed)
      when-keys true = (tt, tt)
      when-keys false = tt

      changed-keys :
          (ks : List String)
          → ((k : String)
              → is_listed k ks
                ≡ (is_used k c.candidate.tables && not (is_used k c.baseline.tables)))
          → All (NamesKeys c) (changed ks)
      changed-keys [] h = tt
      changed-keys (k ∷ ks) h = (h, tt)

      reduced-keys : (x : Option (ℤ × ℤ)) → All (NamesKeys c) (reduced x)
      reduced-keys none = tt
      reduced-keys (some (b, e)) = elim (Bool-cases (ltb_ℤ e b)) [
        | inl less ↦ rw less (tt, tt)
        | inr more ↦ rw more tt
      ]

  derive-scan :
      (b e : ℤ)
      → (has (is_scan_of b e) (derive c) ≡ true) ↔ (AreTotals c.baseline c.candidate b e × (e <ℤ b))
  derive-scan b e =
      let found : has (is_scan_of b e) (derive c)
          ≡ has (is_scan_of b e) (reduced (comparable_rows c.baseline c.candidate)) =
        ground (
          arith,
          derive-has (is_scan_of b e) c,
          (when-has sorted).2 b e,
          (changed-has c.difference.candidate_only_keys).1 b e,
        ) in
      let (to, from) = scan-reduced b e (comparable_rows c.baseline c.candidate) in
      let (totals, rows) = comparable_rows_iff c.baseline c.candidate b e in
      (
        λ h. let (x, less) = to (sym found ∙ h) in (totals x, less),
        λ (x, less). found ∙ from (rows x, less),
      )

  derive-IsDerived : IsDerived c (derive c)
  derive-IsDerived = record {
    filesort = derive-filesort ∙ rw d (unfold diff_plans in refl);
    path =
        λ k h. derive-path ∙ changed-listed k c.difference.candidate_only_keys (listed-used k ∙ h);
    path_key = λ h.
        let (k, l) = changed-key c.difference.candidate_only_keys (sym derive-path ∙ h) in
        (k, sym (listed-used k) ∙ l);
    keys = derive-keys;
    scan = derive-scan;
  }

-- A diagnosis of a comparison whose difference is the Diff of its plans is never eligible for a
-- performance claim. It has the filesort hypothesis exactly when the baseline sorts and the candidate
-- does not; the access-path hypothesis exactly when the candidate reads a table through a key that the
-- baseline does not use, and then with exactly these keys; and the scan hypothesis with two totals
-- exactly when the plans read the same tables in the same order, one at least, with an estimate for
-- each, these are their totals (as int64 sums), and the candidate's is less.
pub analyze-IsDerived :
    (c : Comparison) (r : Report)
    → c.difference ≡ diff_plans c.baseline c.candidate
    → analyze c ≡ inr r
    → (c.eligible ≡ false) × (r.eligible ≡ false) × IsDerived c r.hypotheses
unfolding analyze
analyze-IsDerived c r d h = elim (Bool-cases c.eligible) [
  | inl claim ↦ absurd (ground (arith, h, claim))
  | inr free ↦
      (free, ground (arith, h), subst (IsDerived c) (ground (arith, h)) (derive-IsDerived c d))
]
