-- ===== src/Series/Complete.antt =====
-- Evaluate of internal/series/admission.go admits every admissible series, and no other.
use sql_sentinel.Prelude.{
  ◌≡◌, ◌≢◌, ◌↔◌, refl, arith, String, true, false, none, List, [], ◌∷◌, ◌++◌, length, inl, inr, All,
  Bool-cases, str_eq, eq_iff, eq_refl, sym, le→ltb,
}
use sql_sentinel.Prelude.Int.{eqb_ℤ_iff}
use sql_sentinel.Measure.{Float}
use sql_sentinel.Series.{
  Report, Input, Admission, strings_eq, diff, has_source, repeated, mismatched, unverified, noisy,
  concluded, based, evaluate,
}
use sql_sentinel.Series.Admissible.{IsSame, Distinct, IsQuiet, AllSame, IsAdmissible}
use sql_sentinel.Series.Claim.{evaluate_sound}

strings_eq_refl : (xs : List String) → strings_eq xs xs ≡ true
strings_eq_refl [] = refl
strings_eq_refl (x ∷ xs) = ground (arith, eq_refl x, strings_eq_refl xs)

same-strings_eq : (xs ys : List String) → xs ≡ ys → strings_eq xs ys ≡ true
same-strings_eq xs ys e = rw e (strings_eq_refl ys)

same-str_eq : (x y : String) → x ≡ y → str_eq x y ≡ true
same-str_eq x y e = (eq_iff x y).1 e

differs : (x y : String) → x ≢ y → str_eq x y ≡ false
differs x y n = elim (Bool-cases (str_eq x y)) [
  | inl hit ↦ absurd (n ((eq_iff x y).0 hit))
  | inr miss ↦ miss
]

module _ (float : Float) where
  IsSame-diff : (a b : Report float) → IsSame float a b → diff float a b ≡ none
  unfolding diff
  IsSame-diff a b s =
      rw
        (
          same-str_eq _ _ s.dataset,
          same-str_eq _ _ s.digest,
          same-str_eq _ _ s.mysql,
          same-str_eq _ _ s.name,
          same-str_eq _ _ s.sql,
          same-strings_eq _ _ s.args,
          same-str_eq _ _ s.index,
          (eqb_ℤ_iff a.executions_per_round b.executions_per_round).1 s.executions,
        )
        refl

  IsSame-mismatched :
      (base : Report float) (is : List (Input float))
      → All (λ (i : Input float). (i.source ≢ "") × IsSame float base i.report) is
      → mismatched float base is ≡ none
  unfolding mismatched
  IsSame-mismatched base [] h = refl
  IsSame-mismatched base (i ∷ is) h =
      let named : str_eq i.source "" ≡ false = differs i.source "" (h.0.0) in
      rw (named, IsSame-diff base i.report (h.0.1)) (IsSame-mismatched base is h.1)

  AllSame-based : (cs is : List (Input float)) → AllSame float cs is → based float cs is ≡ none
  AllSame-based [] is h = absurd h
  AllSame-based (first ∷ rest) is h = IsSame-mismatched first.report is h

  unseen_behind :
      (x : String) (seen : List String) (is : List (Input float))
      → All (λ (j : Input float). j.source ≢ x) is
      → All (λ (j : Input float). has_source j.source seen ≡ false) is
      → All (λ (j : Input float). has_source j.source (x ∷ seen) ≡ false) is
  unseen_behind x seen [] d u = tt
  unseen_behind x seen (i ∷ is) d u =
      (rw (differs x i.source (λ e. d.0 (sym e))) (u.0), unseen_behind x seen is d.1 u.1)

  Distinct-repeated :
      (seen : List String) (is : List (Input float))
      → Distinct float is
      → All (λ (j : Input float). has_source j.source seen ≡ false) is
      → repeated float seen is ≡ none
  unfolding repeated
  Distinct-repeated seen [] d u = refl
  Distinct-repeated seen (i ∷ is) d u =
      rw (u.0) (Distinct-repeated (i.source ∷ seen) is d.1 (unseen_behind i.source seen is d.0 u.1))

  unseen_first :
      (is : List (Input float)) → All (λ (j : Input float). has_source j.source [] ≡ false) is
  unseen_first [] = tt
  unseen_first (i ∷ is) = (refl, unseen_first is)

  verified-unverified :
      (is : List (Input float))
      → All (λ (i : Input float). i.report.snapshot_match ≡ true) is
      → unverified float is ≡ []
  verified-unverified [] h = refl
  verified-unverified (i ∷ is) h = rw (h.0) (verified-unverified is h.1)

  IsQuiet-noisy : (is : List (Input float)) → All (IsQuiet float) is → noisy float is ≡ inr []
  unfolding noisy
  IsQuiet-noisy [] h = refl
  IsQuiet-noisy (i ∷ is) h =
      let q = h.0 in
      rw (q.no_measurement, q.no_verdict, IsQuiet-noisy is h.1, q.baseline_quiet, q.candidate_quiet)
        refl

  IsAdmissible-evaluate :
      (cs : List (Input float)) (m : Input float)
      → IsAdmissible float cs m
      → m.source ≢ ""
      → evaluate float cs m ≡ inr (concluded float cs m [])
  unfolding evaluate
  IsAdmissible-evaluate cs m a named =
      rw
        (
          le→ltb 2 (length cs) a.enough,
          Distinct-repeated [] cs a.distinct (unseen_first cs),
          differs m.source "" named,
          AllSame-based cs (cs ++ m ∷ []) a.same,
          IsQuiet-noisy cs a.quiet,
          verified-unverified (cs ++ m ∷ []) a.verified,
          a.faster,
          a.has_measurement,
          a.has_verdict,
          a.claimed,
        )
        refl

  All-last :
      (P : Input float → Type 0) (is : List (Input float)) (m : Input float)
      → All P (is ++ m ∷ [])
      → P m
  All-last P [] m h = h.0
  All-last P (i ∷ is) m h = All-last P is m h.1

  AllSame-named :
      (cs is : List (Input float)) (m : Input float)
      → AllSame float cs (is ++ m ∷ [])
      → m.source ≢ ""
  AllSame-named [] is m h = absurd h
  AllSame-named (first ∷ rest) is m h = (All-last _ is m h).0

  -- Evaluate returns an admission that supports a performance claim exactly for an admissible series:
  -- two or more calibrations with different sources and no measurement of their own, each quiet on
  -- both sides; a measurement with a verdict, faster and itself eligible; every report named, with a
  -- verified snapshot, and of the same data, environment, query, index and protocol.
  pub evaluate-IsAdmissible :
      (cs : List (Input float)) (m : Input float)
      → ((a : Admission) × (evaluate float cs m ≡ inr a)
          × (a.eligible_for_performance_claim ≡ true))
        ↔ IsAdmissible float cs m
  evaluate-IsAdmissible cs m = (
    λ h. evaluate_sound float cs m h.0 h.1 h.2,
    λ a. (
      concluded float cs m [],
      IsAdmissible-evaluate cs m a (AllSame-named cs cs m a.same),
      refl,
    ),
  )
