-- ===== src/EvidenceBind/Exact.antt =====
-- When Bind of internal/evidencebind/bind.go grants a claim.
use sql_sentinel.Prelude.{
  subst, String, Bool, true, false, ◌&&◌, inr, List, [], ◌∷◌, ◌++◌, str_eq, map, if◌then◌else◌, ◌↔◌,
  ◌≡◌, refl, ap, arith, eq_iff, All,
}
use sql_sentinel.Prelude.Bytes.{Bytes, bytes_eq, bytes_eq_refl}
use sql_sentinel.EvidenceBind.{
  Diagnosed, Compared, Measured, Admitted, Reason, Report, base, mismatches, is_nil, identity_tests,
  series_tests, is_eligible, bound_report, bind,
}

bytes_eq-path : (s t : Bytes) → bytes_eq s t ≡ true → s ≡ t
unfolding bytes_eq
bytes_eq-path [] [] h = refl
bytes_eq-path [] (d ∷ t) h = absurd (ground (arith, h))
bytes_eq-path (c ∷ s) [] h = absurd (ground (arith, h))
bytes_eq-path (c ∷ s) (d ∷ t) h = ground (arith, h, bytes_eq-path s t)

mismatches-All :
    (tests : List (Bool × Reason))
    → is_nil (mismatches tests) ≡ true
    → All (λ (t : Bool × Reason). t.0 ≡ true) tests
unfolding mismatches
mismatches-All [] h = tt
mismatches-All ((true, r) ∷ tests) h = (refl, mismatches-All tests h)
mismatches-All ((false, r) ∷ tests) h = absurd (ground (arith, h))

All-mismatches :
    (tests : List (Bool × Reason))
    → All (λ (t : Bool × Reason). t.0 ≡ true) tests
    → mismatches tests ≡ []
unfolding mismatches
All-mismatches [] h = refl
All-mismatches ((true, r) ∷ tests) (h, hs) = All-mismatches tests hs
All-mismatches ((false, r) ∷ tests) (h, hs) = absurd (ground (arith, h))

-- The reports belong together, and the series grants the claim.
pub record IsExact (comparison_sha : String) (path : Bytes) (d : Diagnosed) (c : Compared)
    (m : Measured) (s : Admitted) : Type 0 where
  pub source : d.source.sha ≡ comparison_sha
  pub snapshot : d.source.snapshot ≡ c.snapshot_digest
  pub mysql : d.source.mysql_version ≡ c.mysql_version
  pub measured_snapshot : m.snapshot_digest ≡ c.snapshot_digest
  pub measured_mysql : m.mysql_version ≡ c.mysql_version
  pub measured_sql : m.sql ≡ c.sql
  pub index : m.candidate_index ≡ c.candidate_index
  pub file : base path ≡ base s.measurement_file
  pub series : s.eligible ≡ true
  pub level : s.evidence_level ≡ "L2"

both : (a b : Bool) → a && b ≡ true → (a ≡ true) × (b ≡ true)
both true true h = (refl, refl)
both true false h = absurd (ground (arith, h))
both false b h = absurd (ground (arith, h))

nil-path : (rs : List Reason) → is_nil rs ≡ true → rs ≡ []
nil-path [] h = refl
nil-path (r ∷ rs) h = absurd (ground (arith, h))

append-nil-path : (xs ys : List Reason) → xs ++ ys ≡ [] → (xs ≡ []) × (ys ≡ [])
append-nil-path [] ys h = (refl, h)
append-nil-path (x ∷ xs) ys h = absurd (ground (arith, h))

module _ (digest : Bytes → String) (diagnosis_raw comparison_raw : Bytes) (path : Bytes)
    (d : Diagnosed) (c : Compared) (m : Measured) (s : Admitted) where
  abbrev granted : Bool
  granted = is_eligible digest diagnosis_raw comparison_raw path d c m s

  abbrev Exact : Type 0
  Exact = IsExact (digest comparison_raw) path d c m s

  abbrev tests : List (Bool × Reason)
  tests = identity_tests digest diagnosis_raw comparison_raw path d c m s

  parts :
      granted ≡ true
      → (is_nil (mismatches tests) ≡ true)
        × (s.eligible ≡ true)
        × (str_eq s.evidence_level "L2" ≡ true)
  unfolding is_eligible
  parts h =
      let (front, level) = both _ _ h in
      let (identical, eligible) = both _ _ front in (identical, eligible, level)

  is_eligible-IsExact : granted ≡ true → Exact
  unfolding identity_tests
  is_eligible-IsExact h =
      let (identical, eligible, level) = parts h in
      let (t0, (t1, (t2, (t3, (t4, (t5, (t6, (t7, end)))))))) = mismatches-All tests identical in
      record {
        source = (eq_iff _ _).0 t0;
        snapshot = (eq_iff _ _).0 t1;
        mysql = (eq_iff _ _).0 t2;
        measured_snapshot = (eq_iff _ _).0 t3;
        measured_mysql = (eq_iff _ _).0 t4;
        measured_sql = (eq_iff _ _).0 t5;
        index = (eq_iff _ _).0 t6;
        file = bytes_eq-path _ _ t7;
        series = eligible;
        level = (eq_iff _ _).0 level;
      }

  exact_tests : Exact → All (λ (t : Bool × Reason). t.0 ≡ true) tests
  unfolding identity_tests
  exact_tests e = (
    (eq_iff _ _).1 e.source,
    (
      (eq_iff _ _).1 e.snapshot,
      (
        (eq_iff _ _).1 e.mysql,
        (
          (eq_iff _ _).1 e.measured_snapshot,
          (
            (eq_iff _ _).1 e.measured_mysql,
            (
              (eq_iff _ _).1 e.measured_sql,
              (
                (eq_iff _ _).1 e.index,
                (subst (λ x. bytes_eq (base path) x ≡ true) e.file (bytes_eq_refl (base path)), tt),
              ),
            ),
          ),
        ),
      ),
    ),
  )

  IsExact-is_eligible : Exact → granted ≡ true
  unfolding is_eligible
  IsExact-is_eligible e =
      rw (All-mismatches tests (exact_tests e), e.series, (eq_iff s.evidence_level "L2").1 e.level)
        refl

  -- What Bind says of its hypotheses and of its own evidence.
  pub record IsBound (r : Report) : Type 0 where
    pub granted_for : (r.eligible ≡ true) ↔ IsExact (digest comparison_raw) path d c m s
    pub reasoned : (r.eligible ≡ true) ↔ (r.reasons ≡ [])
    pub levelled : r.evidence_level ≡ (if r.eligible then "L2" else "L1")
    pub hypotheses : r.hypotheses ≡ map (λ code. record { code = code; bound = r.eligible }) d.codes

  granted-reasons :
      granted ≡ true
      → mismatches tests
          ++ mismatches (series_tests digest diagnosis_raw comparison_raw path d c m s)
        ≡ []
  granted-reasons h =
      let (identical, eligible, level) = parts h in
      rw (nil-path (mismatches tests) identical) (
        All-mismatches (series_tests digest diagnosis_raw comparison_raw path d c m s)
          (eligible, (level, tt)))

  reasons-granted :
      mismatches tests ++ mismatches (series_tests digest diagnosis_raw comparison_raw path d c m s)
        ≡ []
      → granted ≡ true
  unfolding is_eligible
  reasons-granted h =
      let (identical, rest) = append-nil-path (mismatches tests) _ h in
      let (eligible, (level, end)) =
        mismatches-All (series_tests digest diagnosis_raw comparison_raw path d c m s)
          (ap is_nil rest) in
      rw (ap is_nil identical, eligible, level) refl

  bound_report-IsBound : IsBound (bound_report digest diagnosis_raw comparison_raw path d c m s)
  unfolding bound_report
  bound_report-IsBound = record {
    granted_for = (is_eligible-IsExact, IsExact-is_eligible);
    reasoned = (granted-reasons, reasons-granted);
    levelled = refl;
    hypotheses = refl;
  }

  -- Of reports that Bind takes, it grants a claim exactly when the diagnosis is of this comparison and
  -- has its snapshot and version, the measurement has the comparison's snapshot, version, statement and
  -- index, the series is about this measurement's file and has granted its claim at L2; its reasons
  -- are empty exactly then, and the level and every hypothesis say the same.
  pub bind-IsBound :
      (r : Report) → bind digest diagnosis_raw comparison_raw path d c m s ≡ inr r → IsBound r
  unfolding bind
  bind-IsBound r h =
      let same : bound_report digest diagnosis_raw comparison_raw path d c m s ≡ r =
        ground (arith, h) in
      subst IsBound same bound_report-IsBound
