-- ===== src/Series/Claim.antt =====
-- Evaluate of internal/series/admission.go: the series that it admits are the admissible ones.
use sql_sentinel.Prelude.{
  ℕ, ◌≡◌, ◌≤◌, refl, arith, String, true, false, ◌||◌, Option, none, some, List, [], ◌∷◌, ◌++◌,
  length, ◌⊎◌, inl, inr, All, Bool-cases, ap, str_eq, eq_iff, ltb, ◌∙◌,
}
use sql_sentinel.Measure.{Float}
use sql_sentinel.Series.{
  Input, Reason, Admission, EvaluateErr, missing_measurement_path, repeated, unverified, is_empty,
  noisy, push_noise, is_noisy, direction_reasons, claim_reasons, concluded, with_noise, or_else,
  based, evaluate,
}
use sql_sentinel.Series.Admissible.{
  IsQuiet, AllSame, IsAdmissible, mismatched-IsSame, repeated-Distinct,
}

append-empty : {A : Type 0} (xs ys : List A) → xs ++ ys ≡ [] → (xs ≡ []) × (ys ≡ [])
append-empty [] ys h = (refl, h)
append-empty (x ∷ xs) ys h = absurd (ground arith)

is_empty-nil : {A : Type 0} (xs : List A) → is_empty xs ≡ true → xs ≡ []
is_empty-nil [] h = refl
is_empty-nil (x ∷ xs) h = absurd (ground arith)

ltb-le : (n : ℕ) → ltb n 2 ≡ false → 2 ≤ n
ltb-le n h = ground arith

module _ (float : Float) where
  open float use {F, gt, noise_ratio_limit}

  unverified-empty :
      (is : List (Input float))
      → unverified float is ≡ []
      → All (λ (i : Input float). i.report.snapshot_match ≡ true) is
  unverified-empty [] h = tt
  unverified-empty (i ∷ is) h = elim (Bool-cases (i.report.snapshot_match)) [
    | inl ok ↦ (ok, unverified-empty is ((rw ok at h)))
    | inr bad ↦ absurd (ground arith)
  ]

  push_noise-empty :
      (i : Input float) (r : EvaluateErr ⊎ List Reason)
      → push_noise float i r ≡ inr []
      → (is_noisy float i.report ≡ false) × (r ≡ inr [])
  push_noise-empty i (inl e) h = absurd (ground arith)
  push_noise-empty i (inr rs) h = elim (Bool-cases (is_noisy float i.report)) [
    | inl loud ↦ absurd (ground arith)
    | inr calm ↦ (calm, (rw calm at h))
  ]

  noisy-empty : (is : List (Input float)) → noisy float is ≡ inr [] → All (IsQuiet float) is
  unfolding noisy
  noisy-empty [] h = tt
  noisy-empty (i ∷ is) h = elim (Bool-cases (i.report.measured || i.report.decided)) [
    | inl bad ↦ absurd (ground arith)
    | inr only ↦
        let p = push_noise-empty i (noisy float is) ((rw only at h)) in
        let calm = p.0 in
        (
          record {
            no_measurement = ground (arith, only);
            no_verdict = ground (arith, only);
            baseline_quiet = ground (arith, calm);
            candidate_quiet = ground (arith, calm);
          },
          noisy-empty is p.1,
        )
  ]

  record IsFaster (m : Input float) : Type 0 where
    has_measurement : m.report.measured ≡ true
    has_verdict : m.report.decided ≡ true
    faster : m.report.direction_verdict ≡ some "Better"

  direction_reasons-empty :
      (m : Input float) (d : Option String)
      → m.report.direction_verdict ≡ d
      → direction_reasons float m d ≡ []
      → IsFaster m
  direction_reasons-empty m none e h = absurd (ground arith)
  direction_reasons-empty m (some v) e h = record {
    has_measurement = ground arith;
    has_verdict = ground arith;
    faster = e ∙ ap some (ground (arith, eq_iff v "Better"));
  }

  claim_reasons-empty : (m : Input float) → claim_reasons float m ≡ [] → m.report.eligible ≡ true
  claim_reasons-empty m h = ground arith

  or_else-ok :
      (o : Option EvaluateErr) (r : EvaluateErr ⊎ Admission) (a : Admission)
      → or_else float o r ≡ inr a
      → (o ≡ none) × (r ≡ inr a)
  or_else-ok none r a h = (refl, h)
  or_else-ok (some e) r a h = absurd (ground arith)

  based-same : (cs is : List (Input float)) → based float cs is ≡ none → AllSame float cs is
  based-same [] is h = absurd (ground arith)
  based-same (first ∷ rest) is h = mismatched-IsSame float first.report is h

  record Passed (cs : List (Input float)) (m : Input float) (noise : List Reason) (a : Admission)
      : Type 0 where
    noise_of : noisy float cs ≡ inr noise
    is :
        a
        ≡ concluded float cs m (
            unverified float (cs ++ m ∷ [])
            ++ (noise
                ++ (direction_reasons float m m.report.direction_verdict ++ claim_reasons float m)))

  with_noise-ok :
      (cs : List (Input float)) (m : Input float) (n : EvaluateErr ⊎ List Reason) (a : Admission)
      → noisy float cs ≡ n
      → with_noise float cs m n ≡ inr a
      → (noise : List Reason) × Passed cs m noise a
  with_noise-ok cs m (inl e) a p h = absurd (ground arith)
  with_noise-ok cs m (inr noise) a p h = (noise, record { noise_of = p; is = ground (arith, h) })

  -- What an answer without an error has passed.
  record Checked (cs : List (Input float)) (m : Input float) (a : Admission) : Type 0 where
    enough : 2 ≤ length cs
    apart : repeated float [] cs ≡ none
    alike : based float cs (cs ++ m ∷ []) ≡ none
    counted : with_noise float cs m (noisy float cs) ≡ inr a

  evaluate-Checked :
      (cs : List (Input float)) (m : Input float) (a : Admission)
      → evaluate float cs m ≡ inr a
      → Checked cs m a
  unfolding evaluate
  evaluate-Checked cs m a h = elim (Bool-cases (ltb (length cs) 2)) [
    | inl few ↦ absurd (ground arith)
    | inr more ↦ elim (Bool-cases (str_eq m.source "")) [
      | inl empty ↦ absurd (
          ground (
            arith,
            or_else-ok (repeated float [] cs) (inl missing_measurement_path) a
                ((rw (more, empty) at h)),
          ))
      | inr named ↦
          let p = or_else-ok (repeated float [] cs) _ a ((rw (more, named) at h)) in
          let q = or_else-ok (based float cs (cs ++ m ∷ [])) _ a p.1 in
          record { enough = ltb-le (length cs) more; apart = p.0; alike = q.0; counted = q.1 }
    ]
  ]

  pub evaluate_sound :
      (cs : List (Input float)) (m : Input float) (a : Admission)
      → evaluate float cs m ≡ inr a
      → a.eligible_for_performance_claim ≡ true
      → IsAdmissible float cs m
  evaluate_sound cs m a h e =
      let c = evaluate-Checked cs m a h in
      let (noise, p) = with_noise-ok cs m (noisy float cs) a refl c.counted in
      let none_left = is_empty-nil _ ((rw (p.is) at e)) in
      let u = append-empty (unverified float (cs ++ m ∷ [])) _ none_left in
      let n = append-empty noise _ u.1 in
      let d =
        append-empty (direction_reasons float m m.report.direction_verdict) (claim_reasons float m)
          n.1 in
      let f = direction_reasons-empty m m.report.direction_verdict refl d.0 in
      record {
        enough = c.enough;
        distinct = repeated-Distinct float [] cs c.apart;
        same = based-same cs (cs ++ m ∷ []) c.alike;
        verified = unverified-empty (cs ++ m ∷ []) u.0;
        quiet = noisy-empty cs (p.noise_of ∙ ap inr n.0);
        has_measurement = f.has_measurement;
        has_verdict = f.has_verdict;
        faster = f.faster;
        claimed = claim_reasons-empty m d.1;
      }
