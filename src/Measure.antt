-- ===== src/Measure.antt =====
-- internal/measure/verdict.go, admission.go and gate.go: the verdict of an A/B measurement, whether
-- it may be claimed, and the checks that come before it.
pub mod Claims
pub mod Gates
pub mod Stats
pub mod Round
use sql_sentinel.Prelude.{
  ◌&&◌, ℕ, ◌≡◌, String, Bool, true, false, ◌||◌, Option, none, some, List, [], ◌∷◌, ◌⊎◌, inl, inr,
  if◌then◌else◌, ◌==◌, str_eq,
}
use sql_sentinel.Prelude.Int.{ℤ, pos, ◌-ℤ◌, leb_ℤ, eqb_ℤ, wrap64}

-- What the program does with float64: conversion from an integer, arithmetic and comparisons, with
-- the constants 0, 2.0 and 0.10.
pub record Float : Type 1 where
  pub F : Type 0
  pub of_int : ℤ → F
  pub mul : F → F → F
  pub div : F → F → F
  pub neg : F → F
  pub gt : F → F → Bool
  pub le : F → F → Bool
  pub zero_f : F
  pub significance_multiplier : F
  pub noise_ratio_limit : F

pub data Verdict : Type 0 where
  better worse not_significant : Verdict

pub data EvidenceLevel : Type 0 where
  l1 l2 : EvidenceLevel

pub data RejectionReason : Type 0 where
  baseline_noise_exceeds_limit candidate_noise_exceeds_limit : RejectionReason
  direction_not_significant direction_worse no_measurement : RejectionReason

abbrev pub reason_order : List RejectionReason
reason_order =
    no_measurement ∷ baseline_noise_exceeds_limit ∷ candidate_noise_exceeds_limit
    ∷ direction_not_significant ∷ direction_worse ∷ []

abbrev pub reason_code : RejectionReason → ℕ
reason_code baseline_noise_exceeds_limit = 0
reason_code candidate_noise_exceeds_limit = 1
reason_code direction_not_significant = 2
reason_code direction_worse = 3
reason_code no_measurement = 4

-- The map `hit`.
abbrev pub Hits : Type 0
Hits = RejectionReason → Bool

abbrev pub no_hits : Hits
no_hits r = false

-- `if test { hit[r] = true }`
abbrev pub set_if : Bool → RejectionReason → Hits → Hits
set_if test r hit q = (test && (reason_code r == reason_code q)) || hit q

-- The reasons that were hit, in the fixed order.
unfoldable pub collect_reasons : Hits → List RejectionReason → List RejectionReason
collect_reasons hit [] = []
collect_reasons hit (r ∷ rs) = let rest = collect_reasons hit rs in if hit r then r ∷ rest else rest

abbrev is_empty {ℓ} : {A : Type ℓ} → List A → Bool
is_empty [] = true
is_empty (x ∷ xs) = false

module _ (float : Float) where
  open float use {
    F, of_int, mul, div, neg, gt, le, zero_f, significance_multiplier, noise_ratio_limit,
  }

  pub record SideStats : Type 0 where
    pub name : String
    pub samples : ℕ
    pub median : ℤ
    pub scaled_mad : ℤ
    pub noise_ratio : F

  pub record Decision : Type 0 where
    pub baseline : SideStats
    pub candidate : SideStats
    pub max_noise_ratio : F
    pub threshold_ratio : F
    pub threshold_from : String
    pub relative_delta : F
    pub verdict : Verdict

  -- x < 0 is read as 0 > x.
  abbrev pub is_negative : F → Bool
  is_negative x = gt zero_f x

  abbrev pub magnitude : F → F
  magnitude x = if is_negative x then neg x else x

  unfoldable pub relative_delta_of : SideStats → SideStats → F
  relative_delta_of baseline candidate =
      div (of_int (wrap64 (candidate.median -ℤ baseline.median))) (of_int baseline.median)

  unfoldable pub verdict_of : F → F → Verdict
  verdict_of delta threshold =
      if le (magnitude delta) threshold
      then not_significant
      else if is_negative delta
      then better
      else worse

  unfoldable pub decide : SideStats → SideStats → Decision
  unfolding relative_delta_of verdict_of
  decide baseline candidate =
      let higher = gt candidate.noise_ratio baseline.noise_ratio in
      let max_noise = if higher then candidate.noise_ratio else baseline.noise_ratio in
      let threshold = mul significance_multiplier max_noise in
      let measured = leb_ℤ baseline.median (pos 0) in
      let delta = relative_delta_of baseline candidate in
      record {
        baseline = baseline;
        candidate = candidate;
        max_noise_ratio = max_noise;
        threshold_ratio = threshold;
        threshold_from = if higher then candidate.name else baseline.name;
        relative_delta = if measured then zero_f else delta;
        verdict = if measured then not_significant else verdict_of delta threshold;
      }

  -- `none` is nil.
  pub record Admission : Type 0 where
    pub direction_verdict : Option Verdict
    pub eligible_for_performance_claim : Bool
    pub evidence_level : EvidenceLevel
    pub rejection_reasons : List RejectionReason

  abbrev pub noise_hits : SideStats → SideStats → Hits
  noise_hits baseline_cal candidate_cal =
      set_if (gt candidate_cal.noise_ratio noise_ratio_limit) candidate_noise_exceeds_limit (
        set_if (gt baseline_cal.noise_ratio noise_ratio_limit) baseline_noise_exceeds_limit no_hits)

  abbrev pub direction_hits : Option Decision → Hits → Hits
  direction_hits none hit q = set_if true no_measurement hit q
  direction_hits (some d) hit q = elim (d.verdict) [
    | not_significant ↦ set_if true direction_not_significant hit q
    | worse ↦ set_if true direction_worse hit q
    | better ↦ hit q
  ]

  abbrev pub direction_of : Option Decision → Option Verdict
  direction_of none = none
  direction_of (some d) = some d.verdict

  unfoldable pub admit : SideStats → SideStats → Option Decision → Admission
  unfolding collect_reasons
  admit baseline_cal candidate_cal decision =
      let reasons =
        collect_reasons (direction_hits decision (noise_hits baseline_cal candidate_cal))
          reason_order in
      record {
        direction_verdict = direction_of decision;
        eligible_for_performance_claim = is_empty reasons;
        evidence_level = if is_empty reasons then l2 else l1;
        rejection_reasons = reasons;
      }
