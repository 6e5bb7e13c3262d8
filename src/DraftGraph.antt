-- ===== src/DraftGraph.antt =====
-- internal/agentgraph/bounded.go: DraftBounded, a graph of four nodes (evidence, draft, validate,
-- decision) that a branch leads back to `draft`. The graph engine is a third-party library: of it
-- the model takes that a node runs, its error ends the run, and an edge or the branch names the next
-- node, for at most 12 steps (WithMaxRunSteps).
pub mod Bounded
use sql_sentinel.Prelude.{
  ℕ, zero, suc, ◌+◌, ◌≤◌, ◌≡◌, refl, Bool, true, false, not, ◌&&◌, ◌||◌, Option, none, some, ◌⊎◌,
  inl, inr, List, [], ◌∷◌, ◌++◌, leb, ltb, length, if◌then◌else◌, all,
}
use sql_sentinel.Prelude.Int.{ℤ, pos, ltb_ℤ}
use sql_sentinel.Prelude.Bytes.{Bytes, bytes}
use sql_sentinel.Evaluation.{is_space}

pub data Reason : Type 0 where
  model_node_failed attempts_exhausted : Reason

-- `none` is the empty reason.
pub record DraftResult : Type 0 where
  pub prompt : Bytes
  pub text : Bytes
  pub attempts : ℕ
  pub accepted : Bool
  pub reason : Option Reason

pub data DraftErr : Type 0 where
  invalid_draft_graph evidence_out_of_bounds too_many_steps : DraftErr
  cancelled : DraftErr

-- What the nodes meet: the model's answer to each attempt and prompt (`none` is an error), the
-- validation, and whether the context is cancelled when the node of a step begins.
pub record World : Type 0 where
  pub draft : ℕ → Bytes → Option Bytes
  pub validate : Bytes → Bool
  pub cancelled_at : ℕ → Bool

pub data Node : Type 0 where
  evidence drafting validation decision : Node

unfoldable pub out_of_bounds : Bytes → Bool
out_of_bounds prompt = ltb 16384 (length prompt) || all is_space prompt

unfoldable pub check_evidence : DraftResult → DraftErr ⊎ DraftResult
unfolding out_of_bounds
check_evidence s = if out_of_bounds s.prompt then inl evidence_out_of_bounds else inr s

abbrev drafted : DraftResult → Option Bytes → DraftResult
drafted s none = record s { attempts = s.attempts + 1; reason = some model_node_failed; text = [] }
drafted s (some text) = record s { attempts = s.attempts + 1; text = text }

unfoldable pub draft_once : World → DraftResult → DraftResult
draft_once w s = drafted s (w.draft (s.attempts + 1) s.prompt)

abbrev pub correction : Bytes
correction =
    b'\n'
    ∷ bytes
        "Previous proposal failed deterministic admission. Return only the constrained CandidateSpec JSON using the supplied schema."

abbrev pub no_reason : Option Reason → Bool
no_reason none = true
no_reason (some r) = false

unfoldable pub validate_text : World → DraftResult → DraftResult
validate_text w s =
    let accepted = no_reason s.reason && leb (length s.text) 65536 && w.validate s.text in
    record s {
      accepted = accepted;
      prompt = if not accepted && no_reason s.reason then s.prompt ++ correction else s.prompt;
    }

abbrev or_exhausted : Option Reason → Option Reason
or_exhausted none = some attempts_exhausted
or_exhausted (some r) = some r

unfoldable pub take_decision : DraftResult → DraftResult
take_decision s =
    if s.accepted
    then record s { prompt = [] }
    else record s { prompt = []; text = []; reason = or_exhausted s.reason }

-- A node, at a step that begins with the context alive or cancelled; `decision` does not look.
unfoldable pub run_node : World → Bool → Node → DraftResult → DraftErr ⊎ DraftResult
unfolding check_evidence draft_once validate_text take_decision
run_node w gone evidence s = if gone then inl cancelled else check_evidence s
run_node w gone drafting s = if gone then inl cancelled else inr (draft_once w s)
run_node w gone validation s = if gone then inl cancelled else inr (validate_text w s)
run_node w gone decision s = inr (take_decision s)

-- The branch behind `validate`
unfoldable pub branch : ℤ → DraftResult → Node
branch limit s =
    if not s.accepted && no_reason s.reason && ltb_ℤ (pos s.attempts) limit
    then drafting
    else decision

-- The node that follows; `none` is the end.
unfoldable pub next_node : ℤ → Node → DraftResult → Option Node
unfolding branch
next_node limit evidence s = some drafting
next_node limit drafting s = some validation
next_node limit validation s = some (branch limit s)
next_node limit decision s = none

-- The run of the graph: `steps` are the steps that are left, `n` the number of this one.
unfoldable pub run_graph : World → ℤ → ℕ → ℕ → Node → DraftResult → DraftErr ⊎ DraftResult
unfolding run_node next_node
run_graph w limit zero n node s = inl too_many_steps
run_graph w limit (suc steps) n node s = elim (run_node w (w.cancelled_at n) node s) [
  | inl e ↦ inl e
  | inr t ↦ elim (next_node limit node t) [
    | none ↦ inr t
    | some next ↦ run_graph w limit steps (n + 1) next t
  ]
]

abbrev pub draft_of : Bytes → DraftResult
draft_of prompt = record {
  prompt = prompt;
  text = [];
  attempts = 0;
  accepted = false;
  reason = none;
}

-- The model and the validation are there (not nil).
unfoldable pub draft_bounded : World → ℤ → Bytes → DraftErr ⊎ DraftResult
unfolding run_graph
draft_bounded w limit prompt =
    if ltb_ℤ limit (pos 1) || ltb_ℤ (pos 3) limit
    then inl invalid_draft_graph
    else run_graph w limit 12 0 evidence (draft_of prompt)
