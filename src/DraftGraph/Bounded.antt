-- ===== src/DraftGraph/Bounded.antt =====
-- DraftBounded of internal/agentgraph/bounded.go ends within its steps, and what it then returns.
use sql_sentinel.Prelude.{
  ℕ, zero, suc, ◌+◌, ◌≤◌, ◌<◌, ◌≡◌, refl, ◌≢◌, Bool, true, false, not, ◌&&◌, none, ◌⊎◌, inl, inr,
  [], ltb, length, arith, Bool-cases, subst,
}
use sql_sentinel.Prelude.Int.{pos}
use sql_sentinel.Prelude.Bytes.{Bytes}
use sql_sentinel.DraftGraph.{
  World, DraftResult, DraftErr, too_many_steps, cancelled, drafting, decision, evidence, run_graph,
  run_node, next_node, out_of_bounds, branch, take_decision, validate_text, draft_once,
  check_evidence, draft_bounded, draft_of, no_reason,
}

-- What a caller may rely on: the attempts are bounded, the prompt is not returned, an accepted text
-- is short and passed the validation, and a text that is not accepted is not returned.
pub record IsSettled (w : World) (limit : ℕ) (r : DraftResult) : Type 0 where
  pub tried : 1 ≤ r.attempts
  pub bounded : r.attempts ≤ limit
  pub prompt : r.prompt ≡ []
  pub accepted :
      r.accepted ≡ true → (length r.text ≤ 65536) × (w.validate r.text ≡ true) × (r.reason ≡ none)
  pub refused : r.accepted ≡ false → (r.text ≡ []) × (r.reason ≢ none)

abbrev Settles : World → ℕ → DraftErr ⊎ DraftResult → Type 0
Settles w limit x =
    (x ≢ inl too_many_steps)
    × ((r : DraftResult) → x ≡ inr r → IsSettled w limit r)
    × (((n : ℕ) → w.cancelled_at n ≡ false) → (r : DraftResult) × (x ≡ inr r))

-- The steps of `m` more rounds behind the next, with some to spare.
abbrev rounds : ℕ → ℕ → ℕ
rounds zero extra = suc (suc (suc extra))
rounds (suc m) extra = suc (suc (rounds m extra))

rounds-suc : (m extra : ℕ) → (k : ℕ) × (rounds m extra ≡ suc k)
rounds-suc zero extra = (suc (suc extra), refl)
rounds-suc (suc m) extra = (suc (rounds m extra), refl)

module _ (w : World) (limit : ℕ) where
  cancelled-Settles : (n : ℕ) → w.cancelled_at n ≡ true → Settles w limit (inl cancelled)
  cancelled-Settles n h = (
    ground arith,
    λ r e. absurd (ground (arith, e)),
    λ alive. absurd (ground (arith, h, alive n)),
  )

  take_decision-IsSettled :
      (t : DraftResult)
      → 1 ≤ t.attempts
      → t.attempts ≤ limit
      → IsSettled w limit (take_decision (validate_text w t))
  unfolding take_decision validate_text
  take_decision-IsSettled t h b = record {
    tried = ground (arith, h);
    bounded = ground (arith, b);
    prompt = ground arith;
    accepted = λ a. ground arith;
    refused = λ a. ground arith;
  }

  -- The decision node, with a step left.
  decision-Settles :
      (steps n : ℕ) (t : DraftResult)
      → 1 ≤ t.attempts
      → t.attempts ≤ limit
      → Settles w limit (run_graph w (pos limit) (suc steps) n decision (validate_text w t))
  unfolding run_graph run_node
  decision-Settles steps n t h b = (
    ground arith,
    λ r e. subst (IsSettled w limit) (ground (arith, e)) (take_decision-IsSettled t h b),
    λ alive. (take_decision (validate_text w t), refl),
  )

  draft_once-attempts : (s : DraftResult) → (draft_once w s).attempts ≡ s.attempts + 1
  unfolding draft_once
  draft_once-attempts s = ground arith

  abbrev again : DraftResult → Bool
  again v = not v.accepted && no_reason v.reason && ltb v.attempts limit

  branch-again : (v : DraftResult) → again v ≡ true → branch (pos limit) v ≡ drafting
  unfolding branch
  branch-again v h = ground (arith, h)

  branch-done : (v : DraftResult) → again v ≡ false → branch (pos limit) v ≡ decision
  unfolding branch
  branch-done v h = ground (arith, h)

  -- One round: draft, validate, and what the branch says.
  round :
      (steps n : ℕ) (s : DraftResult)
      → let v = validate_text w (draft_once w s) in
        let run = run_graph w (pos limit) (suc (suc steps)) n drafting s in
        ((k : ℕ) × (w.cancelled_at k ≡ true) × (run ≡ inl cancelled))
        ⊎ ((again v ≡ true) × (run ≡ run_graph w (pos limit) steps (n + 1 + 1) drafting v))
        ⊎ ((again v ≡ false) × (run ≡ run_graph w (pos limit) steps (n + 1 + 1) decision v))
  unfolding run_graph run_node next_node branch
  round steps n s = elim (Bool-cases (w.cancelled_at n)) [
    | inl gone ↦ inl (n, gone, rw (run_graph, gone) refl)
    | inr on ↦ elim (Bool-cases (w.cancelled_at (n + 1))) [
      | inl gone ↦ inl (n + 1, gone, rw (run_graph, on, run_graph, gone) refl)
      | inr still ↦ elim (Bool-cases (again (validate_text w (draft_once w s)))) [
        | inl more ↦ inr (
            inl (
              more,
              rw
                  (
                    run_graph,
                    on,
                    run_graph,
                    still,
                    branch-again (validate_text w (draft_once w s)) more,
                  )
                  refl,
            ))
        | inr done ↦ inr (
            inr (
              done,
              rw
                  (
                    run_graph,
                    on,
                    run_graph,
                    still,
                    branch-done (validate_text w (draft_once w s)) done,
                  )
                  refl,
            ))
      ]
    ]
  ]

  validate_text-attempts :
      (s : DraftResult) → (validate_text w (draft_once w s)).attempts ≡ s.attempts + 1
  unfolding validate_text
  validate_text-attempts s = draft_once-attempts s

  again-lt : (v : DraftResult) → again v ≡ true → (v.attempts < limit) × (v.reason ≡ none)
  again-lt v h = (ground (arith, h), ground (arith, h))

  drafting-Settles :
      (m extra n : ℕ) (s : DraftResult)
      → s.attempts + suc m ≡ limit
      → Settles w limit (run_graph w (pos limit) (rounds m extra) n drafting s)
  drafting-Settles zero extra n s h = elim (round (suc extra) n s) [
    | inl (k, gone, e) ↦ rw e (cancelled-Settles k gone)
    | inr (inl (more, e)) ↦ absurd (ground (arith, again-lt _ more, validate_text-attempts s, h))
    | inr (inr (done, e)) ↦ rw e (
        decision-Settles extra (n + 1 + 1) (draft_once w s) (ground (arith, draft_once-attempts s))
          (ground (arith, draft_once-attempts s, h)))
  ]
  drafting-Settles (suc m) extra n s h = elim (round (rounds m extra) n s) [
    | inl (k, gone, e) ↦ rw e (cancelled-Settles k gone)
    | inr (inl (more, e)) ↦ rw e (
        drafting-Settles m extra (n + 1 + 1) (validate_text w (draft_once w s))
          (ground (arith, validate_text-attempts s, h)))
    | inr (inr (done, e)) ↦
        let (k, p) = rounds-suc m extra in
        rw (e, p)
          (decision-Settles k (n + 1 + 1) (draft_once w s) (ground (arith, draft_once-attempts s))
            (ground (arith, draft_once-attempts s, h)))
  ]

  evidence-Settles :
      (m extra : ℕ) (prompt : Bytes)
      → suc m ≡ limit
      → out_of_bounds prompt ≡ false
      → Settles w limit
          (run_graph w (pos limit) (suc (rounds m extra)) 0 evidence (draft_of prompt))
  unfolding run_graph run_node check_evidence
  evidence-Settles m extra prompt h ok = elim (Bool-cases (w.cancelled_at 0)) [
    | inl gone ↦ rw (run_graph, gone) (cancelled-Settles 0 gone)
    | inr on ↦
        rw (run_graph, on, check_evidence, ok)
          (drafting-Settles m extra 1 (draft_of prompt) (ground (arith, h)))
  ]

-- DraftBounded with a limit of one to three attempts and a prompt within bounds always ends within
-- the twelve steps of the graph, with a result if the context is never cancelled. A result comes
-- after one attempt at least and `limit` at most, without the prompt; it holds a text only if the
-- validation accepted it, within 65536 bytes and without a failure of the model.
pub draft_bounded-IsSettled :
    (w : World) (limit : ℕ) (prompt : Bytes)
    → 1 ≤ limit
    → limit ≤ 3
    → out_of_bounds prompt ≡ false
    → (draft_bounded w (pos limit) prompt ≢ inl too_many_steps)
      × ((r : DraftResult) → draft_bounded w (pos limit) prompt ≡ inr r → IsSettled w limit r)
      × (((n : ℕ) → w.cancelled_at n ≡ false)
          → (r : DraftResult) × (draft_bounded w (pos limit) prompt ≡ inr r))
unfolding draft_bounded
draft_bounded-IsSettled w zero prompt low high ok = absurd (ground (arith, low))
draft_bounded-IsSettled w (suc zero) prompt low high ok = evidence-Settles w 1 0 8 prompt refl ok
draft_bounded-IsSettled w (suc (suc zero)) prompt low high ok =
    evidence-Settles w 2 1 6 prompt refl ok
draft_bounded-IsSettled w (suc (suc (suc zero))) prompt low high ok =
    evidence-Settles w 3 2 4 prompt refl ok
draft_bounded-IsSettled w (suc (suc (suc (suc n)))) prompt low high ok =
    absurd (ground (arith, high))
