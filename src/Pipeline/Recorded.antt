-- ===== src/Pipeline/Recorded.antt =====
-- internal/pipeline/pipeline.go: the evidence that a step of Run adds.
use sql_sentinel.Prelude.{
  Bool, true, false, Option, none, some, List, [], ◌∷◌, ◌++◌, ◌≡◌, refl, ap, sym, ◌∙◌, map, arith,
  if◌then◌else◌,
}
use mathlib.Core.List.{map-append}
use sql_sentinel.Prelude.Bytes.{Bytes}
use sql_sentinel.Pipeline.{
  unwritten, rejected, diagnosis, plan_compare, candidate_explain, sql_admit, World, State, Step,
  Outcome, Err, Reason, Artifact, stage, stop, finish, failed, written_stage,
}

abbrev pub all_steps : List Step
all_steps = sql_admit ∷ (candidate_explain ∷ (plan_compare ∷ (diagnosis ∷ [])))

abbrev pub artifact_of : World → Step × Bytes → Artifact
artifact_of w (step, raw) = record { step = step; sha = w.digest raw }

-- The summary is on the disk, and its own digest covers it with that digest left blank.
pub record IsSummed (w : World) (o : Outcome) : Type 0 where
  pub written : o.summary ≡ some (w.encode.of_summary o.state.report)
  pub covered :
      o.state.report.summary_sha
      ≡ some (w.digest (w.encode.of_summary (record o.state.report { summary_sha = none })))

-- No claim is granted; the completed steps are those of the files and come in their order; each file
-- has its artifact; and without an error all four steps are there, `accepted` holds and the summary
-- is there.
pub record IsEvidence (w : World) (accepted : Bool) (o : Outcome) : Type 0 where
  pub unclaimed : o.state.report.eligible ≡ false
  pub steps : map (λ f. f.0) o.state.files ≡ o.state.report.completed_steps
  pub artifacts : o.state.report.artifacts ≡ map (artifact_of w) o.state.files
  pub in_order : (rest : List Step) × (o.state.report.completed_steps ++ rest ≡ all_steps)
  pub complete :
      o.error ≡ none
      → (o.state.report.completed_steps ≡ all_steps) × (accepted ≡ true) × IsSummed w o

pub record IsRecorded (w : World) (done : List Step) (s : State) : Type 0 where
  pub unclaimed : s.report.eligible ≡ false
  pub completed : s.report.completed_steps ≡ done
  pub steps : map (λ f. f.0) s.files ≡ done
  pub artifacts : s.report.artifacts ≡ map (artifact_of w) s.files
  pub unsummed : s.report.summary_sha ≡ none

-- An outcome by a test.
pub by_test : (P : Outcome → Type 0) (b : Bool) {x y : Outcome} → P x → P y → P (if b then x else y)
by_test P true p q = p
by_test P false p q = q

module _ (w : World) (accepted : Bool) (done rest : List Step) (s : State) where
  pub failed-IsEvidence :
      (e : Err)
      → IsRecorded w done s
      → done ++ rest ≡ all_steps
      → IsEvidence w accepted (failed e s)
  failed-IsEvidence e r h = record {
    unclaimed = r.unclaimed;
    steps = r.steps ∙ sym r.completed;
    artifacts = r.artifacts;
    in_order = (rest, ap (λ x. x ++ rest) r.completed ∙ h);
    complete = λ none_here. absurd (ground (arith, none_here));
  }

  pub finish-IsEvidence :
      (cause : Option Err)
      → IsRecorded w done s
      → done ++ rest ≡ all_steps
      → (cause ≡ none → (done ≡ all_steps) × (accepted ≡ true))
      → IsEvidence w accepted (finish w cause s)
  unfolding finish
  finish-IsEvidence cause r h all_done =
      by_test (IsEvidence w accepted) w.summary_works
        (record {
          unclaimed = r.unclaimed;
          steps = r.steps ∙ sym r.completed;
          artifacts = r.artifacts;
          in_order = (rest, ap (λ x. x ++ rest) r.completed ∙ h);
          complete = λ fine.
              let (all_there, ok) = all_done fine in
              (
                r.completed ∙ all_there,
                ok,
                record {
                  written = refl;
                  covered =
                      ap
                        (λ m.
                          some
                            (w.digest (w.encode.of_summary (record s.report { summary_sha = m }))))
                        r.unsummed;
                },
              );
        })
        (record {
          unclaimed = r.unclaimed;
          steps = r.steps ∙ sym r.completed;
          artifacts = r.artifacts;
          in_order = (rest, ap (λ x. x ++ rest) r.completed ∙ h);
          complete = λ fine. absurd (ground (arith, fine));
        })

module _ (w : World) (accepted : Bool) (done rest : List Step) where
  pub stop-IsEvidence :
      (step : Step) (reason : Reason) (s : State)
      → IsRecorded w done s
      → done ++ rest ≡ all_steps
      → IsEvidence w accepted (stop w step reason s)
  unfolding stop
  stop-IsEvidence step reason s r h =
      finish-IsEvidence w accepted done rest _ (some (rejected step))
        (record {
          unclaimed = r.unclaimed;
          completed = r.completed;
          steps = r.steps;
          artifacts = r.artifacts;
          unsummed = r.unsummed;
        })
        h (λ wrong. absurd (ground (arith, wrong)))

  pub stage-IsEvidence :
      (step : Step) (raw : Bytes) (f : State → Outcome) (s : State)
      → IsRecorded w done s
      → done ++ rest ≡ all_steps
      → ((t : State) → IsRecorded w (done ++ step ∷ []) t → IsEvidence w accepted (f t))
      → IsEvidence w accepted (stage w step raw f s)
  unfolding stage written_stage
  stage-IsEvidence step raw f s r h next =
      by_test (IsEvidence w accepted) (w.write_works step)
        (next (written_stage w step raw s) (record {
          unclaimed = r.unclaimed;
          completed = ap (λ x. x ++ step ∷ []) r.completed;
          steps =
              map-append (λ (f : Step × Bytes). f.0) s.files ((step, raw) ∷ [])
              ∙ ap (λ x. x ++ step ∷ []) r.steps;
          artifacts =
              ap (λ x. x ++ artifact_of w (step, raw) ∷ []) r.artifacts
              ∙ sym (map-append (artifact_of w) s.files ((step, raw) ∷ []));
          unsummed = r.unsummed;
        }))
        (failed-IsEvidence w accepted done rest s (unwritten step) r h)
