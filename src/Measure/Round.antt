-- ===== src/Measure/Round.antt =====
-- executeRound of internal/measure/round.go: N executions in one timed window. S is the state of the
-- clock, the context and the database.
use sql_sentinel.Prelude.{
  subst, ℕ, zero, suc, ◌+◌, ◌/◌, ◌≡◌, refl, arith, Option, none, some, ◌⊎◌, inl, inr, ap, sym, ◌∙◌,
}
use sql_sentinel.Prelude.Int.{ℤ, pos, negsuc, ◌-ℤ◌, sub_ℕ}

pub data RoundErr (E : Type 0) : Type 0 where
  bad_count : ℤ → RoundErr E
  cancelled failed : ℕ → E → RoundErr E

-- a / n of Go, which truncates towards zero.
abbrev pub quotient : ℤ → ℕ → ℤ
quotient (pos a) n = pos (a / n)
quotient (negsuc a) n = sub_ℕ 0 (suc a / n)

-- `now`, `ctx.Err` and `execute`.
pub record Env (S E : Type 0) : Type 0 where
  pub now : S → ℤ × S
  pub ctx_err : S → Option E
  pub execute : S → Option E × S

module _ {S E : Type 0} (env : Env S E) where
  abbrev pub answered : ℕ → Option E × S → Option (RoundErr E) × S → Option (RoundErr E) × S
  answered i (some e, s) rest = (some (failed i e), s)
  answered i (none, s) rest = rest

  abbrev pub live : ℕ → Option E → S → Option (RoundErr E) × S → Option (RoundErr E) × S
  live i (some e) s rest = (some (cancelled i e), s)
  live i none s rest = rest

  -- The loop: n executions are left, and the next one has number i + 1.
  unfoldable pub execute_all : ℕ → ℕ → S → Option (RoundErr E) × S
  execute_all zero i s = (none, s)
  execute_all (suc n) i s =
      let answer = env.execute s in
      let rest = execute_all n (i + 1) (answer.1) in
      live (i + 1) (env.ctx_err s) s (answered (i + 1) answer rest)

  abbrev pub timed : ℤ → ℕ → Option (RoundErr E) × S → (RoundErr E ⊎ ℤ) × S
  timed start n (some e, s) = (inl e, s)
  timed start n (none, s) = (let (end, s') = env.now s in (inr (quotient (end -ℤ start) n), s'))

  -- The sample of a round; a count of zero or less is an error.
  unfoldable pub execute_round : ℤ → S → (RoundErr E ⊎ ℤ) × S
  unfolding execute_all
  execute_round (negsuc k) s = (inl (bad_count (negsuc k)), s)
  execute_round (pos zero) s = (inl (bad_count (pos zero)), s)
  execute_round (pos (suc k)) s =
      let (start, s') = env.now s in timed start (suc k) (execute_all (suc k) 0 s')

  -- n executions that all succeed under a context that is not cancelled.
  pub data Runs : ℕ → S → S → Type 0 where
    done : {s : S} → Runs 0 s s
    next :
        {n : ℕ} {s t : S}
        → env.ctx_err s ≡ none
        → (env.execute s).0 ≡ none
        → Runs n (env.execute s).1 t
        → Runs (suc n) s t

  answered-none :
      (i : ℕ) (a : Option E × S) (rest : Option (RoundErr E) × S)
      → (answered i a rest).0 ≡ none
      → (a.0 ≡ none) × (answered i a rest ≡ rest)
  answered-none i (some e, s) rest h = absurd (ground arith)
  answered-none i (none, s) rest h = (refl, refl)

  live-none :
      (i : ℕ) (o : Option E) (s : S) (rest : Option (RoundErr E) × S)
      → (live i o s rest).0 ≡ none
      → (o ≡ none) × (live i o s rest ≡ rest)
  live-none i (some e) s rest h = absurd (ground arith)
  live-none i none s rest h = (refl, refl)

  execute_all-Runs :
      (n i : ℕ) (s : S) → (execute_all n i s).0 ≡ none → Runs n s (execute_all n i s).1
  unfolding execute_all
  execute_all-Runs zero i s h = done
  execute_all-Runs (suc n) i s h =
      let a = env.execute s in
      let rest = execute_all n (i + 1) (a.1) in
      let l = live-none (i + 1) (env.ctx_err s) s (answered (i + 1) a rest) h in
      let q = answered-none (i + 1) a rest (ap (λ x. x.0) (sym (l.1)) ∙ h) in
      let same = l.1 ∙ q.1 in
      subst (λ x. Runs (suc n) s (x.1)) (sym same)
        (next (l.0) (q.0) (execute_all-Runs n (i + 1) (a.1) (ap (λ x. x.0) (sym same) ∙ h)))

  timed-ok :
      (start d : ℤ) (n : ℕ) (r : Option (RoundErr E) × S)
      → (timed start n r).0 ≡ inr d
      → (r.0 ≡ none) × (d ≡ quotient ((env.now r.1).0 -ℤ start) n)
  timed-ok start d n (some e, s) h = absurd (ground arith)
  timed-ok start d n (none, s) h = (refl, ground (arith, h))

  -- A sample stands for the whole round: n executions succeeded one after the other between the two
  -- readings of the clock, under a context that was not cancelled, and the sample is the time between
  -- the readings divided by n. No part of a round is taken for a sample.
  pub execute_round-Runs :
      (n : ℕ) (s : S) (d : ℤ)
      → (execute_round (pos n) s).0 ≡ inr d
      → (t : S) × Runs n (env.now s).1 t × (d ≡ quotient ((env.now t).0 -ℤ (env.now s).0) n)
  unfolding execute_round
  execute_round-Runs zero s d h = absurd (ground arith)
  execute_round-Runs (suc k) s d h =
      let r = execute_all (suc k) 0 (env.now s).1 in
      let t = timed-ok (env.now s).0 d (suc k) r h in
      (r.1, execute_all-Runs (suc k) 0 (env.now s).1 (t.0), t.1)
