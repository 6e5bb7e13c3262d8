-- ===== src/ShadowGate/Run.antt =====
-- Gate.Run of internal/shadowgate/gate.go: the order of its checks, and what it changes. A question to
-- a database leaves it as it is; S is the state of both.
use sql_sentinel.Prelude.{
  ◌≡◌, refl, Bool, true, not, ◌||◌, Option, none, some, List, [], ◌∷◌, ◌⊎◌, inl, inr, all,
  Bool-cases, if◌then◌else◌,
}
use sql_sentinel.Prelude.Int.{ℤ, pos, eqb_ℤ}
use sql_sentinel.Prelude.Bytes.{Bytes, bytes_eq}
use sql_sentinel.Candidate.{Column, Spec}
use sql_sentinel.SqlAdmit.Decision.{Signal}
use sql_sentinel.ShadowGate.{Prepared, IndexErr, Database, ensure_candidate_index}

pub data Side : Type 0 where
  baseline candidate : Side

pub record Digest : Type 0 where
  pub digest : Bytes
  pub rows : ℤ

-- The databases: shadowdata.Compute is `snapshot`, and `index_db` is the candidate's.
pub record Shadow (S E : Type 0) : Type 0 where
  pub version : Side → S → E ⊎ Bytes
  pub snapshot : Side → List Bytes → S → E ⊎ Digest
  pub table_count : Bytes → S → E ⊎ ℤ
  pub column_count : Bytes → Bytes → S → E ⊎ ℤ
  pub index_db : Database S E
  pub analyze : Bytes → S → Option E × S
  pub explain : Bytes → S → E ⊎ Bytes

pub data RunErr (E : Type 0) : Type 0 where
  database_failed : E → RunErr E
  version_mismatch snapshot_mismatch unsupported_table table_missing column_missing : RunErr E
  index_failed : IndexErr E → RunErr E
  inspect_failed : Bytes → RunErr E
  invalid_explain : RunErr E

-- The report; its evidence level is L1, and it is never eligible for a performance claim.
pub record Report : Type 0 where
  pub mysql_version : Bytes
  pub snapshot_digest : Bytes
  pub snapshot_rows : ℤ
  pub sql : Bytes
  pub signals : List Signal
  pub table : Bytes
  pub index_name : Bytes
  pub ddl : Bytes
  pub created : Bool
  pub explain_json : Bytes

module _ {S E : Type 0} (db : Shadow S E) where
  abbrev pub same_answer : E ⊎ Bytes → E ⊎ Bytes → RunErr E ⊎ Bytes
  same_answer (inl e) c = inl (database_failed e)
  same_answer (inr b) (inl e) = inl (database_failed e)
  same_answer (inr b) (inr c) = if not (bytes_eq b c) then inl version_mismatch else inr b

  unfoldable pub same_server_version : S → RunErr E ⊎ Bytes
  same_server_version s = same_answer (db.version baseline s) (db.version candidate s)

  abbrev pub same_digest : E ⊎ Digest → E ⊎ Digest → RunErr E ⊎ Digest
  same_digest (inl e) c = inl (database_failed e)
  same_digest (inr b) (inl e) = inl (database_failed e)
  same_digest (inr b) (inr c) =
      if not (eqb_ℤ b.rows c.rows) || not (bytes_eq b.digest c.digest)
      then inl snapshot_mismatch
      else inr b

  unfoldable pub identical_snapshots : List Bytes → S → RunErr E ⊎ Digest
  identical_snapshots tables s =
      same_digest (db.snapshot baseline tables s) (db.snapshot candidate tables s)

  -- A count that has to be 1.
  abbrev pub counted : RunErr E → E ⊎ ℤ → Option (RunErr E) → Option (RunErr E)
  counted e (inl f) rest = some (database_failed f)
  counted e (inr n) rest = if not (eqb_ℤ n (pos 1)) then some e else rest

  abbrev pub require_columns : Bytes → List Column → S → Option (RunErr E)
  require_columns table [] s = none
  require_columns table (col ∷ cols) s =
      counted column_missing (db.column_count table col.name s) (require_columns table cols s)

  unfoldable pub require_schema : Spec → S → Option (RunErr E)
  require_schema spec s =
      counted table_missing (db.table_count spec.table s)
        (require_columns spec.table spec.columns s)

  module _ (unicode : Bytes → Bytes) (inspect : Bytes → Bytes ⊎ List Bytes) (allowed : Bytes → Bool)
      (is_json : Bytes → Bool) (p : Prepared) where
    abbrev pub explained : Bytes → Digest → Bool → E ⊎ Bytes → S → (RunErr E ⊎ Report) × S
    explained version gate created (inl e) s = (inl (database_failed e), s)
    explained version gate created (inr text) s = (
      if not (is_json text)
          then inl invalid_explain
          else inr (record {
            mysql_version = version;
            snapshot_digest = gate.digest;
            snapshot_rows = gate.rows;
            sql = p.sql;
            signals = p.sql_signals;
            table = p.spec.table;
            index_name = p.spec.index_name;
            ddl = p.ddl;
            created = created;
            explain_json = text;
          }),
      s,
    )

    abbrev pub analyzed : Bytes → Digest → Bool → Option E × S → (RunErr E ⊎ Report) × S
    analyzed version gate created (some e, s) = (inl (database_failed e), s)
    analyzed version gate created (none, s) = explained version gate created (db.explain p.sql s) s

    abbrev pub ensured : Bytes → Digest → (IndexErr E ⊎ Bool) × S → (RunErr E ⊎ Report) × S
    ensured version gate (inl e, s) = (inl (index_failed e), s)
    ensured version gate (inr created, s) =
        analyzed version gate created (db.analyze p.spec.table s)

    -- From the index on, behind the checks of the schema.
    abbrev pub with_schema : Bytes → Digest → Option (RunErr E) → S → (RunErr E ⊎ Report) × S
    with_schema version gate (some e) s = (inl e, s)
    with_schema version gate none s =
        ensured version gate (ensure_candidate_index db.index_db unicode p s)

    abbrev pub with_gate : Bytes → RunErr E ⊎ Digest → S → (RunErr E ⊎ Report) × S
    with_gate version (inl e) s = (inl e, s)
    with_gate version (inr gate) s = with_schema version gate (require_schema p.spec s) s

    abbrev pub with_scope : Bytes → Bytes ⊎ List Bytes → S → (RunErr E ⊎ Report) × S
    with_scope version (inl e) s = (inl (inspect_failed e), s)
    with_scope version (inr tables) s =
        if not (all allowed tables)
        then (inl unsupported_table, s)
        else with_gate version (identical_snapshots tables s) s

    abbrev pub with_version : RunErr E ⊎ Bytes → S → (RunErr E ⊎ Report) × S
    with_version (inl e) s = (inl e, s)
    with_version (inr version) s = with_scope version (inspect p.sql) s

    unfoldable pub run : S → (RunErr E ⊎ Report) × S
    unfolding same_server_version identical_snapshots require_schema ensure_candidate_index
    run s = with_version (same_server_version s) s

    -- Everything that has to hold before the candidate is changed.
    pub record IsCleared (s : S) : Type 0 where
      pub version : Bytes
      pub same_version : same_server_version s ≡ inr version
      pub tables : List Bytes
      pub inspected : inspect p.sql ≡ inr tables
      pub in_scope : all allowed tables ≡ true
      pub gate : Digest
      pub same_data : identical_snapshots tables s ≡ inr gate
      pub schema : require_schema p.spec s ≡ none

    -- A call that failed and changed nothing.
    abbrev pub IsRefused : S → (RunErr E ⊎ Report) × S → Type 0
    IsRefused s r = ((e : RunErr E) × (r.0 ≡ inl e)) × (r.1 ≡ s)

    with_schema-IsCleared :
        (s : S) (version : Bytes) (tables : List Bytes) (gate : Digest) (o : Option (RunErr E))
        → same_server_version s ≡ inr version
        → inspect p.sql ≡ inr tables
        → all allowed tables ≡ true
        → identical_snapshots tables s ≡ inr gate
        → require_schema p.spec s ≡ o
        → IsRefused s (with_schema version gate o s) ⊎ IsCleared s
    with_schema-IsCleared s version tables gate (some e) v i a d o = inl ((e, refl), refl)
    with_schema-IsCleared s version tables gate none v i a d o = inr (record {
      version = version;
      same_version = v;
      tables = tables;
      inspected = i;
      in_scope = a;
      gate = gate;
      same_data = d;
      schema = o;
    })

    with_gate-IsCleared :
        (s : S) (version : Bytes) (tables : List Bytes) (g : RunErr E ⊎ Digest)
        → same_server_version s ≡ inr version
        → inspect p.sql ≡ inr tables
        → all allowed tables ≡ true
        → identical_snapshots tables s ≡ g
        → IsRefused s (with_gate version g s) ⊎ IsCleared s
    with_gate-IsCleared s version tables (inl e) v i a d = inl ((e, refl), refl)
    with_gate-IsCleared s version tables (inr gate) v i a d =
        with_schema-IsCleared s version tables gate (require_schema p.spec s) v i a d refl

    with_scope-IsCleared :
        (s : S) (version : Bytes) (t : Bytes ⊎ List Bytes)
        → same_server_version s ≡ inr version
        → inspect p.sql ≡ t
        → IsRefused s (with_scope version t s) ⊎ IsCleared s
    with_scope-IsCleared s version (inl e) v i = inl ((inspect_failed e, refl), refl)
    with_scope-IsCleared s version (inr tables) v i = elim (Bool-cases (all allowed tables)) [
      | inl scope ↦
          rw scope
            (with_gate-IsCleared s version tables (identical_snapshots tables s) v i scope refl)
      | inr outside ↦ rw outside (inl ((unsupported_table, refl), refl))
    ]

    with_version-IsCleared :
        (s : S) (v : RunErr E ⊎ Bytes)
        → same_server_version s ≡ v
        → IsRefused s (with_version v s) ⊎ IsCleared s
    with_version-IsCleared s (inl e) q = inl ((e, refl), refl)
    with_version-IsCleared s (inr version) q = with_scope-IsCleared s version (inspect p.sql) q refl

    -- Run fails and leaves the databases as they are, unless every check has passed before: both
    -- sides have the same version, the statement reads only allowed tables, their data are the same
    -- on both sides, and the candidate has the table and the columns of the index.
    pub run-IsCleared : (s : S) → IsRefused s (run s) ⊎ IsCleared s
    unfolding run
    run-IsCleared s = with_version-IsCleared s (same_server_version s) refl
