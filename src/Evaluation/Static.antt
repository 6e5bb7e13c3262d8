-- ===== src/Evaluation/Static.antt =====
-- What evaluateStatic of internal/evaluation/evaluation.go counts.
use sql_sentinel.Prelude.{if◌then◌else◌}
use sql_sentinel.Prelude.{
  subst, ℕ, ◌+◌, ◌≤◌, ◌≡◌, refl, ◌≢◌, Bool, true, false, Option, none, some, ◌⊎◌, inl, inr, List,
  [], ◌∷◌, ◌++◌, arith, length, length-append, sym, ◌∙◌, ap, Option-cases,
}
use sql_sentinel.Prelude.Bytes.{Bytes, bytes_eq, bytes_eq_sound}
use sql_sentinel.SqlAdmit.{Scan, ScanErr, scan}
use sql_sentinel.SqlAdmit.Decision.{
  admit_scan, unless, inspected, Signal, AdmitResult, admit, admit_scanned, ReasonCode, refuse,
}
use sql_sentinel.Evaluation.{
  with_total, not_readonly_select, scan_failed, multiple_statements, signal_text, empty_sql,
  inspect_failed, Case, CaseResult, Manifest, StaticRules, EvalErr, case_result, add_case,
  evaluate_cases, evaluate_static, code_text, found_signal, rejection_text, count, fresh_rules,
}

-- The number of results that count as detected.
unfoldable pub detections : List CaseResult → ℕ
detections [] = 0
detections (r ∷ rs) = count r.detected (detections rs)

-- The result as it grows: `detected` counts the results.
pub record Counts (s : StaticRules) (n : ℕ) : Type 0 where
  pub detected : s.detected ≡ detections s.cases
  pub total : length s.cases ≡ n

detections-append :
    (rs : List CaseResult) (r : CaseResult)
    → detections (rs ++ r ∷ []) ≡ count r.detected (detections rs)
unfolding detections
detections-append [] r = refl
detections-append (q ∷ rs) r = ground (arith, detections-append rs r)

detections-le : (rs : List CaseResult) → detections rs ≤ length rs
unfolding detections
detections-le [] = ground arith
detections-le (r ∷ rs) = ground (arith, detections-le rs)

add_case-Counts :
    (r : CaseResult) (s : StaticRules) (n : ℕ) → Counts s n → Counts (add_case r s) (n + 1)
unfolding add_case
add_case-Counts r s n c = record {
  detected = ground (arith, detections-append s.cases r, c.detected);
  total = ground (arith, length-append s.cases (r ∷ []), c.total);
}

-- An admission that refuses gives a code and no signals.
Refusal : AdmitResult → Type 0
Refusal a = (code : ReasonCode) × (a ≡ refuse code)

abbrev Admission : AdmitResult → Type 0
Admission a = ((a.accepted ≡ true) × (a.reason_code ≡ none)) ⊎ Refusal a

unless-Admission :
    (code : Option ReasonCode) (r : AdmitResult) → Admission r → Admission (unless code r)
unless-Admission none r h = h
unless-Admission (some code) r h = unfold Refusal in inr (code, refl)

inspected-Admission : (e : Option Bytes) (tokens : List Bytes) → Admission (inspected e tokens)
inspected-Admission none tokens = inl (refl, refl)
inspected-Admission (some e) tokens = unfold Refusal in inr (inspect_failed e, refl)

branch-Admission :
    (b : Bool) (x y : AdmitResult) → Admission x → Admission y → Admission (if b then x else y)
branch-Admission true x y h k = h
branch-Admission false x y h k = k

refuse-Admission : (code : ReasonCode) → Admission (refuse code)
refuse-Admission code = unfold Refusal in inr (code, refl)

tokens-Admission :
    (st : Scan) (e : Option Bytes) (tokens : List Bytes)
    → st.tokens ≡ tokens
    → Admission (admit_scanned st e)
unfolding admit_scanned
tokens-Admission st e [] h = rw (admit_scanned, h) (refuse-Admission empty_sql)
tokens-Admission st e (first ∷ others) h =
    rw (admit_scanned, h)
      (branch-Admission _ _ _ (refuse-Admission multiple_statements) (
        branch-Admission _ _ _ (refuse-Admission not_readonly_select)
          (unless-Admission _ _ (inspected-Admission e (first ∷ others)))))

scan-Admission : (r : ScanErr ⊎ Scan) (e : Option Bytes) → Admission (admit_scan r e)
scan-Admission (inl error) e = refuse-Admission (scan_failed error)
scan-Admission (inr st) e = tokens-Admission st e st.tokens refl

admit-Admission :
    (unicode : Bytes → Bytes) (inspect : Bytes → Option Bytes) (sql : Bytes)
    → Admission (admit unicode inspect sql)
unfolding admit
admit-Admission unicode inspect sql = scan-Admission (scan unicode sql) (inspect sql)

total-Counts :
    (m : Manifest) (r : StaticRules) (x : EvalErr ⊎ StaticRules)
    → ((s : StaticRules) → x ≡ inr s → Counts s (0 + length m.cases))
    → with_total x ≡ inr r
    → (r.total ≡ length m.cases)
      × (length r.cases ≡ r.total)
      × (r.detected ≡ detections r.cases)
      × (r.detected ≤ r.total)
total-Counts m r (inl e) c h = absurd (ground arith)
total-Counts m r (inr s) c h =
    let done = c s refl in
    let p : length s.cases ≡ length m.cases = ground (arith, done.total) in
    let q : s.detected ≡ detections s.cases = done.detected in
    let b : detections s.cases ≤ length s.cases = detections-le s.cases in
    let same : record s { total = length s.cases } ≡ r = ground (arith, h) in
    subst
      (λ (x : StaticRules).
        (x.total ≡ length m.cases)
        × (length x.cases ≡ x.total)
        × (x.detected ≡ detections x.cases)
        × (x.detected ≤ x.total))
      same (p, refl, q, ground (arith, b, q))

module _ (unicode : Bytes → Bytes) (inspect : Bytes → Option Bytes)
    (files : Bytes → Option Bytes) where
  evaluate_cases-Counts :
      (seen : List Bytes) (cases : List Case) (s t : StaticRules) (n : ℕ)
      → Counts s n
      → evaluate_cases unicode inspect files seen cases s ≡ inr t
      → Counts t (n + length cases)
  unfolding evaluate_cases
  evaluate_cases-Counts seen [] s t n c h =
      let same : s ≡ t = ground (arith, h) in
      subst (λ x. Counts x (n + 0)) same
        (record { detected = c.detected; total = ground (arith, c.total) })
  evaluate_cases-Counts seen (k ∷ cases) s t n c h = elim (Option-cases (files k.sql_file)) [
    | inl gone ↦ absurd (ground (arith, h, gone))
    | inr (sql, at) ↦
        let s' = add_case (case_result k (admit unicode inspect sql)) s in
        let more : evaluate_cases unicode inspect files (k.id ∷ seen) cases s' ≡ inr t =
          ground (arith, h, at) in
        let done =
          evaluate_cases-Counts (k.id ∷ seen) cases s' t (n + 1)
            (add_case-Counts (case_result k (admit unicode inspect sql)) s n c) more in
        record { detected = done.detected; total = ground (arith, done.total) }
  ]

  -- evaluateStatic gives a result for each case of the manifest, and Detected is the number of those
  -- that count as detected; so it is at most Total, and Recall at most one.
  pub evaluate_static-Counts :
      (m : Manifest) (sha : Bytes) (r : StaticRules)
      → evaluate_static unicode inspect files m sha ≡ inr r
      → (r.total ≡ length m.cases)
        × (length r.cases ≡ r.total)
        × (r.detected ≡ detections r.cases)
        × (r.detected ≤ r.total)
  unfolding evaluate_static
  evaluate_static-Counts m sha r h =
      total-Counts m r (evaluate_cases unicode inspect files [] m.cases (fresh_rules m sha))
        (λ s e.
          evaluate_cases-Counts [] m.cases (fresh_rules m sha) s 0
            (record { detected = unfold detections in refl; total = refl }) e)
        (ground (arith, h))

found_signal-nil : (signals : List Signal) → found_signal [] signals ≡ []
unfolding found_signal signal_text
found_signal-nil [] = refl
found_signal-nil (s ∷ signals) = ground (arith, found_signal-nil signals)

bytes_eq-nil : (s : Bytes) → bytes_eq s [] ≡ true → s ≡ []
bytes_eq-nil s h = bytes_eq_sound s [] h

refused-detected :
    (c : Case) (code : ReasonCode)
    → c.expect_rejection ≡ []
    → code_text code ≢ []
    → (case_result c (refuse code)).detected ≡ false
unfolding case_result found_signal
refused-detected c code h n = ground (arith, h, n, bytes_eq-nil (code_text code))

accepted-detected :
    (c : Case) (a : AdmitResult)
    → c.expect_rejection ≡ []
    → a.reason_code ≡ none
    → (case_result c a).detected ≡ true
unfolding case_result bytes_eq
accepted-detected c a h n = ground (arith, h, n)

rejection-detected :
    (c : Case) (a : AdmitResult)
    → c.expect_signal ≡ []
    → (case_result c a).detected ≡ bytes_eq (rejection_text a.reason_code) c.expect_rejection
unfolding case_result
rejection-detected c a h = rw (h, found_signal-nil a.signals) refl

-- When a case of the manifest counts as detected. One that expects a rejection: exactly when the
-- statement is refused with that code, or accepted if it names none. One that expects a signal:
-- exactly when the statement is accepted, whatever signals it raises, if a refusal never has an
-- empty code.
pub case_result-detected :
    (unicode : Bytes → Bytes) (inspect : Bytes → Option Bytes) (c : Case) (sql : Bytes)
    → let a = admit unicode inspect sql in
      ((code : ReasonCode) → a.reason_code ≡ some code → code_text code ≢ [])
      → (c.expect_signal ≡ []
          → (case_result c a).detected ≡ bytes_eq (rejection_text a.reason_code) c.expect_rejection)
        × (c.expect_rejection ≡ [] → (case_result c a).detected ≡ a.accepted)
unfolding Refusal
case_result-detected unicode inspect c sql n =
    let a = admit unicode inspect sql in
    (
      rejection-detected c a,
      λ h. elim (admit-Admission unicode inspect sql) [
        | inl (taken, none_given) ↦ accepted-detected c a h none_given ∙ sym taken
        | inr (code, same) ↦
            ap (λ x. (case_result c x).detected) same
            ∙ refused-detected c code h (n code (ap (λ (x : AdmitResult). x.reason_code) same))
            ∙ sym (ap (λ (x : AdmitResult). x.accepted) same)
      ],
    )
