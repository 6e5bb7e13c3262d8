-- ===== src/Measure/Claims.antt =====
-- Admit of internal/measure/admission.go: which measurements may support a claim.
use sql_sentinel.Prelude.{
  ◌∙◌, ap, ltb, ◌^◌, ◌<◌, ◌≡◌, refl, ◌↔◌, arith, Bool, true, false, ◌||◌, ◌&&◌, ◌==◌, Option, none,
  some, List, [], ◌∷◌, inl, inr, Bool-cases, if◌then◌else◌,
}
use sql_sentinel.Prelude.Int.{negative-difference, wrap64-difference, ltb_ℤ, pos, leb_ℤ}
use sql_sentinel.Measure.{
  wrap64, ◌-ℤ◌, ℤ, ℕ, noise_hits, reason_order, direction_hits, Hits, reason_code, Float, Verdict,
  better, worse, not_significant, l2, RejectionReason, collect_reasons,
  baseline_noise_exceeds_limit, candidate_noise_exceeds_limit, direction_not_significant,
  direction_worse, no_measurement, SideStats, Decision, is_negative, magnitude, relative_delta_of,
  verdict_of, decide, admit,
}

-- Whether a reason is given.
abbrev pub is_reason : RejectionReason → List RejectionReason → Bool
is_reason r [] = false
is_reason r (q ∷ qs) = (reason_code r == reason_code q) || is_reason r qs

code_injective : (r q : RejectionReason) → (reason_code r == reason_code q) ≡ true → r ≡ q
code_injective r q h = ground arith

is_reason-collect_reasons :
    (hit : Hits) (r : RejectionReason) (rs : List RejectionReason)
    → is_reason r (collect_reasons hit rs) ≡ (hit r && is_reason r rs)
unfolding collect_reasons
is_reason-collect_reasons hit r [] = ground arith
is_reason-collect_reasons hit r (q ∷ qs) = elim (Bool-cases (reason_code r == reason_code q)) [
  | inl same ↦ ground (arith, is_reason-collect_reasons hit r qs, code_injective r q same)
  | inr other ↦ ground (arith, is_reason-collect_reasons hit r qs)
]

is_reason-reason_order : (r : RejectionReason) → is_reason r reason_order ≡ true
is_reason-reason_order baseline_noise_exceeds_limit = refl
is_reason-reason_order candidate_noise_exceeds_limit = refl
is_reason-reason_order direction_not_significant = refl
is_reason-reason_order direction_worse = refl
is_reason-reason_order no_measurement = refl

module _ (float : Float) where
  open float use {F, of_int, mul, div, neg, gt, le, significance_multiplier, noise_ratio_limit}

  -- The calibration of a side is quiet enough.
  abbrev pub IsQuiet : SideStats float → Type 0
  IsQuiet side = gt side.noise_ratio noise_ratio_limit ≡ false

  -- A measurement was made and found the candidate faster.
  abbrev pub IsFaster : Option (Decision float) → Type 0
  IsFaster none = ⊥
  IsFaster (some d) = d.verdict ≡ better

  admit-claimed :
      (base cand : SideStats float) (d : Option (Decision float))
      → (admit float base cand d).eligible_for_performance_claim ≡ true
      → IsQuiet base × IsQuiet cand × IsFaster d
  unfolding admit
  admit-claimed base cand none h = absurd (ground arith)
  admit-claimed base cand (some d) h = ground arith

  claimed-admit :
      (base cand : SideStats float) (d : Option (Decision float))
      → IsQuiet base × IsQuiet cand × IsFaster d
      → ((admit float base cand d).eligible_for_performance_claim ≡ true)
        × ((admit float base cand d).evidence_level ≡ l2)
  unfolding admit
  claimed-admit base cand none h = absurd (h.2)
  claimed-admit base cand (some d) h = ground arith

  abbrev is_verdict : Verdict → Option (Decision float) → Bool
  is_verdict v none = false
  is_verdict not_significant (some d) = elim (d.verdict) [
    | not_significant ↦ true
    | better ↦ false
    | worse ↦ false
  ]
  is_verdict worse (some d) = elim (d.verdict) [
    | not_significant ↦ false
    | better ↦ false
    | worse ↦ true
  ]
  is_verdict better (some d) = elim (d.verdict) [
    | not_significant ↦ false
    | better ↦ true
    | worse ↦ false
  ]

  abbrev is_none : Option (Decision float) → Bool
  is_none none = true
  is_none (some d) = false

  -- The cause of each reason.
  abbrev pub applies :
      SideStats float → SideStats float → Option (Decision float) → RejectionReason → Bool
  applies base cand d baseline_noise_exceeds_limit = gt base.noise_ratio noise_ratio_limit
  applies base cand d candidate_noise_exceeds_limit = gt cand.noise_ratio noise_ratio_limit
  applies base cand d direction_not_significant = is_verdict not_significant d
  applies base cand d direction_worse = is_verdict worse d
  applies base cand d no_measurement = is_none d

  hits-applies :
      (base cand : SideStats float) (d : Option (Decision float)) (r : RejectionReason)
      → (direction_hits float d (noise_hits float base cand) r && true) ≡ applies base cand d r
  hits-applies base cand d baseline_noise_exceeds_limit = ground arith
  hits-applies base cand d candidate_noise_exceeds_limit = ground arith
  hits-applies base cand d direction_not_significant = ground arith
  hits-applies base cand d direction_worse = ground arith
  hits-applies base cand d no_measurement = ground arith

  -- An admission gives exactly the reasons whose cause is there: the noise of either side over its
  -- limit, no measurement, or a verdict that is not significant or worse.
  pub admit-reasons :
      (base cand : SideStats float) (d : Option (Decision float)) (r : RejectionReason)
      → is_reason r (admit float base cand d).rejection_reasons ≡ applies base cand d r
  unfolding admit
  admit-reasons base cand d r =
      rw
        (
          is_reason-collect_reasons (direction_hits float d (noise_hits float base cand)) r
              reason_order,
          is_reason-reason_order r,
        )
        (hits-applies base cand d r)

  verdict_of-better :
      (delta threshold : F)
      → (verdict_of float delta threshold ≡ better)
        ↔ ((le (magnitude float delta) threshold ≡ false) × (is_negative float delta ≡ true))
  unfolding verdict_of
  verdict_of-better delta threshold = ground arith

  -- The quotient of an int64 by a positive one is negative exactly when the dividend is.
  abbrev pub DividesSigned : Type 0
  DividesSigned =
      (d : ℤ) (m : ℕ)
      → 0 < m
      → is_negative float (div (of_int d) (of_int (pos m))) ≡ ltb_ℤ d (pos 0)

  -- The medians of two sides, which fit an int64.
  module _ (b c : SideStats float) (m n : ℕ) (b_median : b.median ≡ pos m)
      (c_median : c.median ≡ pos n) (b_fits : m < 2 ^ 63) (c_fits : n < 2 ^ 63) where
    -- (candidate - baseline) / baseline
    abbrev pub delta : F
    delta = div (of_int (pos n -ℤ pos m)) (of_int (pos m))

    relative_delta_of-delta : relative_delta_of float b c ≡ delta
    unfolding relative_delta_of
    relative_delta_of-delta =
        let difference : wrap64 (c.median -ℤ b.median) ≡ pos n -ℤ pos m =
          ap (λ x. wrap64 (x -ℤ b.median)) c_median
          ∙ ap (λ y. wrap64 (pos n -ℤ y)) b_median
          ∙ wrap64-difference n m c_fits b_fits in
        ap (λ x. div (of_int x) (of_int b.median)) difference
        ∙ ap (λ y. div (of_int (pos n -ℤ pos m)) (of_int y)) b_median

    -- The same, by the code's own difference.
    admit-decided :
        (base cand : SideStats float)
        → let a = admit float base cand (some (decide float b c)) in
          let d = relative_delta_of float b c in
          let noise = if gt c.noise_ratio b.noise_ratio then c.noise_ratio else b.noise_ratio in
          ((a.eligible_for_performance_claim ≡ true) × (a.evidence_level ≡ l2)) ↔ (
            IsQuiet base
            × IsQuiet cand
            × (leb_ℤ b.median (pos 0) ≡ false)
            × (le (magnitude float d) (mul significance_multiplier noise) ≡ false)
            × (is_negative float d ≡ true))
    unfolding decide
    admit-decided base cand =
        let d = decide float b c in
        (
          λ h. ground (arith, admit-claimed base cand (some d) h.0),
          λ h. claimed-admit base cand (some d) (h.0, h.1, ground arith),
        )

    faster-than :
        (median : ℤ) (d threshold : F)
        → median ≡ pos m
        → d ≡ delta
        → DividesSigned
        → ((leb_ℤ median (pos 0) ≡ false)
            × (le (magnitude float d) threshold ≡ false)
            × (is_negative float d ≡ true))
          ↔ ((0 < m) × (n < m) × (le (neg delta) threshold ≡ false))
    faster-than median d threshold e same signed =
        let turned : (0 < m) → is_negative float delta ≡ ltb n m =
          λ p. signed (pos n -ℤ pos m) m p ∙ negative-difference n m in
        rw (e, same) ((λ h. ground (arith, h, turned)), (λ h. ground (arith, h, turned)))

    -- A claim for two sides that were decided, whose medians m and n fit an int64, is admitted, with the
    -- level L2, exactly when both calibrations are quiet, the baseline's median is positive, the
    -- candidate's is smaller, and the difference, divided by the baseline's median, is more than the
    -- multiple of the larger noise ratio. The division of float64 keeps the sign.
    pub admit-decide :
        (base cand : SideStats float)
        → DividesSigned
        → let a = admit float base cand (some (decide float b c)) in
          let noise = if gt c.noise_ratio b.noise_ratio then c.noise_ratio else b.noise_ratio in
          ((a.eligible_for_performance_claim ≡ true) × (a.evidence_level ≡ l2)) ↔ (
            IsQuiet base
            × IsQuiet cand
            × (0 < m)
            × (n < m)
            × (le (neg delta) (mul significance_multiplier noise) ≡ false))
    admit-decide base cand signed =
        let noise = if gt c.noise_ratio b.noise_ratio then c.noise_ratio else b.noise_ratio in
        let (to, from) = admit-decided base cand in
        let (faster, slower) =
          faster-than b.median (relative_delta_of float b c) (mul significance_multiplier noise)
            b_median relative_delta_of-delta signed in
        (
          (λ h. let (q, r, p, l, s) = to h in let x = faster (p, l, s) in (q, r, x.0, x.1, x.2)),
          (λ (q, r, p, l, s). let x = slower (p, l, s) in from (q, r, x.0, x.1, x.2)),
        )
