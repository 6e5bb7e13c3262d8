-- ===== src/ShadowGate/Index.antt =====
-- ensureCandidateIndex of internal/shadowgate/gate.go on a database that keeps what it is told.
use sql_sentinel.Prelude.{
  ◌≡◌, refl, arith, Bool, true, false, Option, none, some, List, [], ◌∷◌, ◌⊎◌, inl, inr, Bool-cases,
  ap, sym, ◌∙◌,
}
use sql_sentinel.Prelude.Bytes.{Bytes, bytes_eq_refl}
use sql_sentinel.Candidate.{Column}
use sql_sentinel.ShadowGate.{
  Prepared, IndexColumn, expected_index, same_index, IndexErr, Database, executed, with_actual,
  ensure_candidate_index,
}

same_index_refl : (xs : List IndexColumn) → same_index xs xs ≡ true
unfolding same_index
same_index_refl [] = refl
same_index_refl (x ∷ xs) = rw (bytes_eq_refl x.column, bytes_eq_refl x.order) (same_index_refl xs)

module _ {S E : Type 0} (db : Database S E) (unicode : Bytes → Bytes) (p : Prepared)
    (creates : (s : S)
      → (db.exec p.ddl s).0 ≡ none
      → db.existing_index p.spec.table p.spec.index_name (db.exec p.ddl s).1
        ≡ inr (expected_index unicode p.spec.columns)) where
  abbrev ensure : S → (IndexErr E ⊎ Bool) × S
  ensure s = ensure_candidate_index db unicode p s

  expected_again :
      (s : S) (c : Column) (cs : List Column)
      → p.spec.columns ≡ c ∷ cs
      → db.existing_index p.spec.table p.spec.index_name s
        ≡ inr (expected_index unicode p.spec.columns)
      → ensure s ≡ (inr false, s)
  unfolding ensure_candidate_index
  expected_again s c cs e h =
      rw (h, e, same_index_refl (expected_index unicode (c ∷ cs)), ensure_candidate_index) refl

  again_executed :
      (s : S) (c : Column) (cs : List Column) (r : Option E × S) (b : Bool)
      → db.exec p.ddl s ≡ r
      → p.spec.columns ≡ c ∷ cs
      → (executed db unicode r).0 ≡ inr b
      → let s' = (executed db unicode r).1 in ensure s' ≡ (inr false, s')
  again_executed s c cs (some e, s') b q k h = absurd (ground arith)
  again_executed s c cs (none, s') b q k h = expected_again s' c cs k (
      ap (λ x. db.existing_index p.spec.table p.spec.index_name (x.1)) (sym q)
      ∙ creates s (ap (λ x. x.0) q))

  again :
      (s : S) (c : Column) (cs : List Column) (actual : E ⊎ List IndexColumn) (b : Bool)
      → db.existing_index p.spec.table p.spec.index_name s ≡ actual
      → p.spec.columns ≡ c ∷ cs
      → (with_actual db unicode p actual s).0 ≡ inr b
      → let s' = (with_actual db unicode p actual s).1 in ensure s' ≡ (inr false, s')
  unfolding ensure_candidate_index
  again s c cs (inl e) b at k h = absurd (ground arith)
  again s c cs (inr []) b at k h = again_executed s c cs (db.exec p.ddl s) b refl k h
  again s c cs (inr (a ∷ actual)) b at k h =
      elim (Bool-cases (same_index (a ∷ actual) (expected_index unicode p.spec.columns))) [
        | inl same ↦ rw (at, same, ensure_candidate_index) refl
        | inr other ↦ absurd (ground (arith, (rw other at h)))
      ]

  -- When the index of a specification is there, or was created, ensuring it again finds it, creates
  -- nothing and leaves the database as it is. The index has a column, and the database shows the
  -- expected index when its statement was executed without an error.
  pub ensure_candidate_index_again :
      (s : S) (c : Column) (cs : List Column) (b : Bool)
      → p.spec.columns ≡ c ∷ cs
      → (ensure_candidate_index db unicode p s).0 ≡ inr b
      → let s' = (ensure_candidate_index db unicode p s).1 in
        ensure_candidate_index db unicode p s' ≡ (inr false, s')
  unfolding ensure_candidate_index
  ensure_candidate_index_again s c cs b k h =
      again s c cs (db.existing_index p.spec.table p.spec.index_name s) b refl k h
