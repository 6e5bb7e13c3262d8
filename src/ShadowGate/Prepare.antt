-- ===== src/ShadowGate/Prepare.antt =====
-- What Prepare of internal/shadowgate/gate.go lets through to the databases.
use sql_sentinel.Prelude.{◌≡◌, refl, arith, Bool, true, false, List, ◌⊎◌, inl, inr, any, Bool-cases}
use sql_sentinel.Prelude.Bytes.{Bytes}
use sql_sentinel.Candidate.{Spec, Refusal, create_index, compile_create_index}
use sql_sentinel.Candidate.Sound.{IsSafe}
use sql_sentinel.Candidate.Quoting.{compile_create_index-create_index}
use sql_sentinel.SqlAdmit.{Scan, scan}
use sql_sentinel.SqlAdmit.Decision.{Signal, admit}
use sql_sentinel.SqlAdmit.Accepted.{IsReadOnly, admit-IsReadOnly}
use sql_sentinel.ShadowGate.{
  Prepared, has_bind_placeholder, objection, with_ddl, with_tables, prepare,
}

module _ (unicode : Bytes → Bytes) (inspect : Bytes → Bytes ⊎ List Bytes)
    (equal_fold : Bytes → Bytes → Bool) where
  -- What was checked of a statement and a specification, and what is handed on.
  pub record IsChecked (sql : Bytes) (spec : Spec) (p : Prepared) : Type 0 where
    pub same_sql : p.sql ≡ sql
    pub same_spec : p.spec ≡ spec
    pub scanned : Scan
    pub scans : scan unicode sql ≡ inr scanned
    pub read_only : IsReadOnly scanned
    pub no_placeholder : has_bind_placeholder sql ≡ false
    pub tables : List Bytes
    pub inspected : inspect sql ≡ inr tables
    pub referenced : any (λ t. equal_fold t spec.table) tables ≡ true
    pub safe : IsSafe unicode spec
    pub compiled : p.ddl ≡ create_index unicode spec

  record HasTables (sql : Bytes) (spec : Spec) (p : Prepared) (found : Bytes ⊎ List Bytes)
      : Type 0 where
    same_sql : p.sql ≡ sql
    same_spec : p.spec ≡ spec
    tables : List Bytes
    inspected : found ≡ inr tables
    referenced : any (λ t. equal_fold t spec.table) tables ≡ true
    ddl_of : compile_create_index unicode spec ≡ inr p.ddl

  with_ddl-ok :
      (sql : Bytes) (signals : List Signal) (spec : Spec) (r : Refusal ⊎ Bytes) (p : Prepared)
      → with_ddl unicode inspect equal_fold sql signals spec r ≡ inr p
      → (p.sql ≡ sql) × (p.spec ≡ spec) × (r ≡ inr p.ddl)
  with_ddl-ok sql signals spec (inl e) p h = absurd (ground arith)
  with_ddl-ok sql signals spec (inr ddl) p h =
      (ground (arith, h), ground (arith, h), ground (arith, h))

  with_tables-HasTables :
      (sql : Bytes) (signals : List Signal) (spec : Spec) (found : Bytes ⊎ List Bytes)
      (p : Prepared)
      → with_tables unicode inspect equal_fold sql signals spec found ≡ inr p
      → HasTables sql spec p found
  with_tables-HasTables sql signals spec (inl e) p h = absurd (ground arith)
  with_tables-HasTables sql signals spec (inr tables) p h =
      elim (Bool-cases (any (λ t. equal_fold t spec.table) tables)) [
        | inr fails ↦ absurd (ground (arith, (rw fails at h)))
        | inl passes ↦
            let d =
              with_ddl-ok sql signals spec (compile_create_index unicode spec) p
                ((rw passes at h)) in
            record {
              same_sql = d.0;
              same_spec = d.1;
              tables = tables;
              inspected = refl;
              referenced = passes;
              ddl_of = d.2;
            }
      ]

  -- What Prepare lets through has passed both admissions: the statement is read only and without a
  -- bind placeholder in its code, the table of the index is one that the statement reads, and the
  -- statement that creates the index is the one compiled from a safe specification.
  pub prepare-IsChecked :
      (sql : Bytes) (spec : Spec) (p : Prepared)
      → prepare unicode inspect equal_fold sql spec ≡ inr p
      → IsChecked sql spec p
  unfolding prepare
  prepare-IsChecked sql spec p h =
      let a = admit unicode (λ s. objection unicode inspect equal_fold (inspect s)) sql in
      elim (Bool-cases (a.accepted)) [
        | inr fails ↦ absurd (ground (arith, (rw fails at h)))
        | inl passes ↦ elim (Bool-cases (has_bind_placeholder sql)) [
          | inl marked ↦ absurd (ground (arith, (rw (passes, marked) at h)))
          | inr free ↦
              let t =
                with_tables-HasTables sql a.signals spec (inspect sql) p
                  ((rw (passes, free) at h)) in
              let (scanned, scans, read_only, _) =
                admit-IsReadOnly unicode (λ s. objection unicode inspect equal_fold (inspect s)) sql
                  passes in
              let c = compile_create_index-create_index unicode spec p.ddl t.ddl_of in
              record {
                same_sql = t.same_sql;
                same_spec = t.same_spec;
                scanned = scanned;
                scans = scans;
                read_only = read_only;
                no_placeholder = free;
                tables = t.tables;
                inspected = t.inspected;
                referenced = t.referenced;
                safe = c.0;
                compiled = c.1;
              }
        ]
      ]
