-- ===== src/Service/RunRewrite.antt =====
-- runRewrite of internal/service/rewrite.go, on the lock of Shadow. A question to a database reads the
-- world W, and others may change the world behind it.
use sql_sentinel.Prelude.{
  ℕ, ◌*◌, ◌^◌, String, Bool, true, false, not, ◌&&◌, Option, none, some, List, [], ◌∷◌, ltb, str_eq,
  if◌then◌else◌,
}
use sql_sentinel.Kafka.Model.{Err, invalid, input_rejected, lease_lost, Result, ok, err}
use sql_sentinel.Kafka.Mysql.Db.{Db, Sql, ◌>>=◌, ◌>>◌, return, raise, exec}
use sql_sentinel.ShadowGate.Run.{Side, baseline, candidate}
use sql_sentinel.Service.Shadow.{ShadowTables, with_lock}
use sql_sentinel.Prelude.Bytes.{Bytes}

-- The databases: shadowdata.Compute, resultset.Read, EXPLAIN, benchmark.RunQueries and the report's
-- INSERT, which counts its rows. `pass` is what others do behind a question.
pub record Engine (W P : Type 0) : Type 0 where
  pub version : Side → W → Result String
  pub compute : Side → List String → W → Result String
  pub read : Side → String → Bool → W → Result String
  pub explain : Side → String → W → Result String
  pub measure : String → String → String → W → Result P × W
  pub insert : Bytes → W → Result ℕ × W
  pub pass : W → W

pub record Evidence : Type 0 where
  pub equivalent : Bool
  pub snapshot : String
  pub ordered : Bool
  pub baseline_plan : String
  pub candidate_plan : String

-- What runRewrite knows of its job: the statement, the rewritten one, and the tables.
pub record Task : Type 0 where
  pub sql : String
  pub rewritten : String
  pub tables : List String
  pub is_ordered : Bool
  pub is_measured : Bool

-- The loop over the digests: the first that is not empty is the reference.
unfoldable pub all_agree : String → List String → Bool
all_agree reference [] = true
all_agree reference (d ∷ digests) =
    let first = all_agree d digests in
    let later = all_agree reference digests in
    if str_eq reference "" then first else str_eq d reference && later

abbrev pub report_limit : ℕ
report_limit = 2 * 2 ^ 20

abbrev pub versions_differ : Err
versions_differ = invalid "shadow_versions_differ"

abbrev pub snapshots_differ : Err
snapshots_differ = invalid "shadow_snapshots_differ"

abbrev pub explain_failed : Err
explain_failed = invalid "rewrite_explain_failed"

module _ {W P : Type 0} (db : Engine W P) where
  abbrev pub asked : {A : Type 0} → (W → Result A) → ShadowTables W → Result A × ShadowTables W
  asked read t = (read t.others, record t { others = db.pass t.others })

  unfoldable pub ask : {A : Type 0} → (W → Result A) → Sql (ShadowTables W) A
  ask read = exec (asked read)

  abbrev pub in_world : {A : Type 0} → ShadowTables W → Result A × W → Result A × ShadowTables W
  in_world t (r, w) = (r, record t { others = w })

  unfoldable pub alter : {A : Type 0} → (W → Result A × W) → Sql (ShadowTables W) A
  alter f = exec (λ t. in_world t (f t.others))

  abbrev pub renamed :
      {A : Type 0} → Err → Result A × Db (ShadowTables W) → Result A × Db (ShadowTables W)
  renamed e (ok a, t) = (ok a, t)
  renamed e (err f, t) = (err e, t)

  -- A call whose error is replaced.
  unfoldable pub instead : {A : Type 0} → Err → Sql (ShadowTables W) A → Sql (ShadowTables W) A
  instead e m t = renamed e (m t)

  unfoldable pub demand : Bool → Err → Sql (ShadowTables W) (Unit {0})
  demand test e = if test then return tt else raise e

  module _ (is_json : String → Bool) (marshal : Evidence → Option P → Option Bytes)
      (size : Bytes → ℕ) (task : Task) where
    abbrev pub with_performance : Bool → String → Sql (ShadowTables W) (Option P)
    with_performance true snapshot = do
      p ← alter (db.measure task.sql task.rewritten snapshot)
      return (some p)
    with_performance false snapshot = return none

    abbrev pub persist_report : Option Bytes → Sql (ShadowTables W) (Unit {0})
    persist_report none = raise (invalid "rewrite_report_limit")
    persist_report (some raw) = do
      demand (not (ltb report_limit (size raw))) (invalid "rewrite_report_limit")
      n ← alter (db.insert raw)
      demand (ltb 0 n) lease_lost

    -- From the snapshots that are compared again on.
    unfoldable pub conclude_rewrite : Evidence → Option P → Sql (ShadowTables W) (Unit {0})
    unfolding ◌>>=◌ ◌>>◌ ask alter demand
    conclude_rewrite e p = do
      after ← ask (db.compute baseline task.tables)
      candidate_after ← ask (db.compute candidate task.tables)
      demand (str_eq e.snapshot after && str_eq e.snapshot candidate_after)
          (invalid "rewrite_snapshot_changed")
      persist_report (marshal e p)
      demand e.equivalent input_rejected

    unfoldable pub compare_results : String → Sql (ShadowTables W) (Unit {0})
    unfolding ◌>>=◌ ◌>>◌ ask alter demand instead all_agree conclude_rewrite
    compare_results snapshot = do
      a ← ask (db.read baseline task.sql task.is_ordered)
      b ← ask (db.read baseline task.rewritten task.is_ordered)
      c ← ask (db.read candidate task.sql task.is_ordered)
      d ← ask (db.read candidate task.rewritten task.is_ordered)
      let equivalent = all_agree "" (a ∷ (b ∷ (c ∷ (d ∷ []))))
      bp ← instead explain_failed (ask (db.explain baseline task.sql))
      cp ← instead explain_failed (ask (db.explain candidate task.rewritten))
      demand (is_json bp && is_json cp) input_rejected
      p ← with_performance (equivalent && task.is_measured) snapshot
      conclude_rewrite
          (record {
            equivalent = equivalent;
            snapshot = snapshot;
            ordered = task.is_ordered;
            baseline_plan = bp;
            candidate_plan = cp;
          })
          p

    -- What runs under the lock, behind the first clean-up.
    unfoldable pub check_rewrite : Sql (ShadowTables W) (Unit {0})
    unfolding ◌>>=◌ ◌>>◌ ask demand instead compare_results
    check_rewrite = do
      bv ← instead versions_differ (ask (db.version baseline))
      cv ← instead versions_differ (ask (db.version candidate))
      demand (str_eq bv cv) versions_differ
      before ← ask (db.compute baseline task.tables)
      candidate_before ← instead snapshots_differ (ask (db.compute candidate task.tables))
      demand (str_eq before candidate_before) snapshots_differ
      compare_results before

    -- runRewrite, for a specification that Decode accepted.
    unfoldable pub run_rewrite : (Bytes → Bool) → Sql (ShadowTables W) (Unit {0})
    unfolding with_lock check_rewrite
    run_rewrite like = with_lock like (some (invalid "shadow_unlock_failed")) check_rewrite
