-- ===== src/Measure/Gates.antt =====
-- internal/measure/gate.go: the checks before a measurement. A probe is asked about one side after the
-- other; its state is passed on.
use sql_sentinel.Prelude.{
  ◌∙◌, ap, ◌≡◌, refl, ◌↔◌, arith, String, Bool, true, false, not, ◌⊎◌, inl, inr, str_eq, eq_iff,
  if◌then◌else◌,
}
use sql_sentinel.Prelude.Int.{ℤ, eqb_ℤ, eqb_ℤ_iff}

pub record SideSnapshot : Type 0 where
  pub name : String
  pub digest : String
  pub rows : ℤ

pub record SnapshotGate : Type 0 where
  pub baseline : SideSnapshot
  pub candidate : SideSnapshot

-- E is what a probe fails with.
pub data GateErr (E : Type 0) : Type 0 where
  probe_failed : String → E → GateErr E
  snapshot_mismatch candidate_index_missing server_version_mismatch : GateErr E

-- An answer of a probe about a side.
abbrev pub Probe : Type 0 → Type 0 → Type 0 → Type 0
Probe E S A = String → S → (E ⊎ A) × S

module _ {E S A B : Type 0} (probe : Probe E S A) where
  -- Both answers: the candidate is asked only after an answer about the baseline.
  abbrev pub second_answer : A → (E ⊎ A) × S → (A → A → GateErr E ⊎ B) → (GateErr E ⊎ B) × S
  second_answer b (inl e, s) f = (inl (probe_failed "candidate" e), s)
  second_answer b (inr c, s) f = (f b c, s)

  abbrev pub first_answer : (E ⊎ A) × S → (A → A → GateErr E ⊎ B) → (GateErr E ⊎ B) × S
  first_answer (inl e, s) f = (inl (probe_failed "baseline" e), s)
  first_answer (inr b, s) f = second_answer b (probe "candidate" s) f

  abbrev pub ask_both : S → (A → A → GateErr E ⊎ B) → (GateErr E ⊎ B) × S
  ask_both s f = first_answer (probe "baseline" s) f

module _ {E : Type 0} where
  abbrev pub compare_snapshots : SideSnapshot → SideSnapshot → GateErr E ⊎ SnapshotGate
  compare_snapshots b c =
      if not (eqb_ℤ b.rows c.rows)
      then inl snapshot_mismatch
      else if not (str_eq b.digest c.digest)
      then inl snapshot_mismatch
      else inr (record { baseline = b; candidate = c })

  compare_snapshots-agree :
      (b c : SideSnapshot) (g : SnapshotGate)
      → compare_snapshots b c ≡ inr g
      → (b.rows ≡ c.rows) × (b.digest ≡ c.digest) × (g ≡ record { baseline = b; candidate = c })
  compare_snapshots-agree b c g h =
      ground (arith, eq_iff b.digest c.digest, eqb_ℤ_iff b.rows c.rows)

  compare_snapshots-passes :
      (b c : SideSnapshot)
      → b.rows ≡ c.rows
      → b.digest ≡ c.digest
      → compare_snapshots b c ≡ inr (record { baseline = b; candidate = c })
  compare_snapshots-passes b c h k =
      ground (arith, eq_iff b.digest c.digest, eqb_ℤ_iff b.rows c.rows)

module _ {E S : Type 0} where
  unfoldable pub require_same_server_version : Probe E S String → S → (GateErr E ⊎ String) × S
  require_same_server_version probe s =
      ask_both probe s (λ b c. if not (str_eq b c) then inl server_version_mismatch else inr b)

  unfoldable pub require_identical_snapshots :
      Probe E S SideSnapshot → S → (GateErr E ⊎ SnapshotGate) × S
  require_identical_snapshots probe s = ask_both probe s compare_snapshots

  abbrev pub index_answer : (E ⊎ Bool) × S → (GateErr E ⊎ Unit {0}) × S
  index_answer (inl e, s) = (inl (probe_failed "index" e), s)
  index_answer (inr true, s) = (inr tt, s)
  index_answer (inr false, s) = (inl candidate_index_missing, s)

  unfoldable pub require_candidate_index : (S → (E ⊎ Bool) × S) → S → (GateErr E ⊎ Unit {0}) × S
  require_candidate_index probe s = index_answer (probe s)

module _ {E S A B : Type 0} (probe : Probe E S A) (s : S) (f : A → A → GateErr E ⊎ B)
    (out : B) where
  -- The two answers that a check has met, and what it made of them.
  pub record Asked : Type 0 where
    pub baseline : A
    pub candidate : A
    pub baseline_answer : (probe "baseline" s).0 ≡ inr baseline
    pub candidate_answer : (probe "candidate" (probe "baseline" s).1).0 ≡ inr candidate
    pub made : f baseline candidate ≡ inr out

  second-Asked :
      (b : A) (t : S) (q : (E ⊎ A) × S)
      → probe "baseline" s ≡ (inr b, t)
      → probe "candidate" t ≡ q
      → (second_answer {B = B} probe b q f).0 ≡ inr out
      → Asked
  second-Asked b t (inl e, u) p k h = absurd (ground arith)
  second-Asked b t (inr c, u) p k h = record {
    baseline = b;
    candidate = c;
    baseline_answer = ap (λ x. x.0) p;
    candidate_answer = rw (p, k) refl;
    made = h;
  }

  first-Asked :
      (q : (E ⊎ A) × S) → probe "baseline" s ≡ q → (first_answer probe q f).0 ≡ inr out → Asked
  first-Asked (inl e, t) p h = absurd (ground arith)
  first-Asked (inr b, t) p h = second-Asked b t (probe "candidate" t) p refl h

  ask_both-Asked : (ask_both probe s f).0 ≡ inr out → Asked
  ask_both-Asked h = first-Asked (probe "baseline" s) refl h

module _ {E S A B : Type 0} (probe : Probe E S A) (f : A → A → GateErr E ⊎ B) (b c : A) where
  second_answer-found :
      (q : (E ⊎ A) × S) → q.0 ≡ inr c → (second_answer {B = B} probe b q f).0 ≡ f b c
  second_answer-found (inl e, t) k = absurd (ground arith)
  second_answer-found (inr d, t) k = ap (f b) (ground (arith, k))

  first_answer-found :
      (q : (E ⊎ A) × S)
      → q.0 ≡ inr b
      → (probe "candidate" q.1).0 ≡ inr c
      → (first_answer probe q f).0 ≡ f b c
  first_answer-found (inl e, t) h k = absurd (ground arith)
  first_answer-found (inr d, t) h k =
      let same : d ≡ b = ground (arith, h) in rw same (second_answer-found (probe "candidate" t) k)

module _ {E S : Type 0} (probe : Probe E S SideSnapshot) (s : S) where
  ask_both-answers :
      (b c : SideSnapshot)
      → (probe "baseline" s).0 ≡ inr b
      → (probe "candidate" (probe "baseline" s).1).0 ≡ inr c
      → (ask_both probe s compare_snapshots).0 ≡ compare_snapshots b c
  ask_both-answers b c h k = first_answer-found probe compare_snapshots b c (probe "baseline" s) h k

  -- The gate passes two snapshots exactly when both are what the probe answers now, the baseline's
  -- first, and they have the same number of rows and the same digest.
  pub require_identical_snapshots-agree :
      (b c : SideSnapshot)
      → ((require_identical_snapshots probe s).0 ≡ inr (record { baseline = b; candidate = c })) ↔ (
          ((probe "baseline" s).0 ≡ inr b)
          × ((probe "candidate" (probe "baseline" s).1).0 ≡ inr c)
          × (b.rows ≡ c.rows)
          × (b.digest ≡ c.digest))
  unfolding require_identical_snapshots
  require_identical_snapshots-agree b c = (
    λ h.
        let a =
          ask_both-Asked probe s compare_snapshots (record { baseline = b; candidate = c }) h in
        let g = compare_snapshots-agree a.baseline a.candidate _ a.made in
        let b_is : b ≡ a.baseline = ap (λ (x : SnapshotGate). x.baseline) g.2 in
        let c_is : c ≡ a.candidate = ap (λ (x : SnapshotGate). x.candidate) g.2 in
        rw (b_is, c_is) (a.baseline_answer, a.candidate_answer, g.0, g.1),
    λ h. ask_both-answers b c h.0 h.1 ∙ compare_snapshots-passes b c h.2 h.3,
  )
