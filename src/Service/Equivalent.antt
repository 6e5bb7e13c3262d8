-- ===== src/Service/Equivalent.antt =====
-- What runRewrite of internal/service/rewrite.go has seen when it accepts.
use sql_sentinel.Prelude.{
  ◌≡◌, sym, ap, ◌∙◌, arith, Bool, true, false, String, eq_iff, eq_refl, [], ◌∷◌, refl, ℕ, str_eq,
  ◌&&◌, Option, some,
}
use sql_sentinel.Prelude.Bytes.{Bytes}
use sql_sentinel.ShadowGate.Run.{Side, baseline, candidate}
use sql_sentinel.Kafka.Model.{invalid, input_rejected, ok}
use sql_sentinel.Kafka.Mysql.Db.{Db, Sql, ◌>>=◌, ◌>>◌}
use sql_sentinel.Service.Shadow.{ShadowTables}
use sql_sentinel.Service.RunRewrite.{
  explain_failed, versions_differ, snapshots_differ, Engine, ask, instead, demand, Evidence, Task,
  compare_results, check_rewrite, run_rewrite, all_agree, with_performance, conclude_rewrite,
}
use sql_sentinel.Service.Drops.{bind-ok}
use sql_sentinel.Service.Answered.{ask-Answered, instead-Answered, demand-then}
use sql_sentinel.Service.Entered.{with_lock-Accepts}
use sql_sentinel.Service.Concluded.{IsSnapshot, IsConcluded, conclude_rewrite-IsConcluded}

all_agree-same :
    (a b c d : String)
    → str_eq a "" ≡ false
    → all_agree "" (a ∷ (b ∷ (c ∷ (d ∷ [])))) ≡ true
    → (b ≡ a) × (c ≡ a) × (d ≡ a)
unfolding all_agree
all_agree-same a b c d full h =
    let same : (str_eq b a ≡ true) × ((str_eq c a ≡ true) × (str_eq d a ≡ true)) =
      ground (arith, h, full, eq_refl "") in
    ((eq_iff b a).0 same.0, (eq_iff c a).0 same.1.0, (eq_iff d a).0 same.1.1)

module _ {W P : Type 0} (db : Engine W P) where
  module _ (marshal : Evidence → Option P → Option Bytes) (size : Bytes → ℕ) where
    -- The four results, read one after the other.
    abbrev pub IsRead : Task → String → W → Type 0
    IsRead task result w =
        (db.read baseline task.sql task.is_ordered w ≡ ok result)
        × (db.read baseline task.rewritten task.is_ordered (db.pass w) ≡ ok result)
        × (db.read candidate task.sql task.is_ordered (db.pass (db.pass w)) ≡ ok result)
        × (db.read candidate task.rewritten task.is_ordered (db.pass (db.pass (db.pass w)))
            ≡ ok result)

    -- What was seen from the first reading on.
    abbrev pub IsCompared : Task → String → W → Type 0
    IsCompared task snapshot w =
        ((result : String) × IsRead task result w)
        × ((e : Evidence) × (p : Option P) × (later : W) × (e.snapshot ≡ snapshot)
            × IsConcluded db marshal size task.tables e p later)

    -- What is left to do once the results are compared.
    abbrev explain_and_conclude :
        (String → Bool) → Task → String → Bool → Sql (ShadowTables W) (Unit {0})
    explain_and_conclude is_json task snapshot equivalent =
        instead db explain_failed (ask db (db.explain baseline task.sql)) >>= λ bp.
        instead db explain_failed (ask db (db.explain candidate task.rewritten)) >>= λ cp.
        demand db (is_json bp && is_json cp) input_rejected
        >> (with_performance db is_json marshal size task (equivalent && task.is_measured) snapshot
            >>= λ p.
                conclude_rewrite db is_json marshal size task
                  (record {
                    equivalent = equivalent;
                    snapshot = snapshot;
                    ordered = task.is_ordered;
                    baseline_plan = bp;
                    candidate_plan = cp;
                  })
                  p)

    explain_and_conclude-IsConcluded :
        (is_json : String → Bool) (task : Task) (snapshot : String) (equivalent : Bool)
        (t : Db (ShadowTables W))
        → (explain_and_conclude is_json task snapshot equivalent t).0 ≡ ok tt
        → (equivalent ≡ true)
          × ((e : Evidence) × (p : Option P) × (later : W) × (e.snapshot ≡ snapshot)
              × IsConcluded db marshal size task.tables e p later)
    unfolding ◌>>=◌
    explain_and_conclude-IsConcluded is_json task snapshot equivalent t h =
        let first = instead db explain_failed (ask db (db.explain baseline task.sql)) in
        let second = instead db explain_failed (ask db (db.explain candidate task.rewritten)) in
        let evidence : String → String → Evidence = λ bp cp. record {
          equivalent = equivalent;
          snapshot = snapshot;
          ordered = task.is_ordered;
          baseline_plan = bp;
          candidate_plan = cp;
        } in
        let conclude : String → String → Option P → Sql (ShadowTables W) (Unit {0}) =
          λ bp cp p. conclude_rewrite db is_json marshal size task (evidence bp cp) p in
        let measure =
          with_performance db is_json marshal size task (equivalent && task.is_measured) snapshot in
        let third : String → String → Sql (ShadowTables W) (Unit {0}) = λ bp cp.
          demand db (is_json bp && is_json cp) input_rejected >> (measure >>= conclude bp cp) in
        let (bp, there, same) = bind-ok (first t) (λ bp. second >>= third bp) tt h in
        let h1 = ap (λ y. y.0) (sym same) ∙ h in
        let (cp, there', same') = bind-ok (second (first t).1) (third bp) tt h1 in
        let h2 = ap (λ y. y.0) (sym same') ∙ h1 in
        let u = (second (first t).1).1 in
        let (valid, h3) =
          demand-then db (is_json bp && is_json cp) input_rejected (measure >>= conclude bp cp) u tt
            h2 in
        let (p, there'', same'') = bind-ok (measure u) (conclude bp cp) tt h3 in
        let v = (measure u).1 in
        let done =
          conclude_rewrite-IsConcluded db marshal size is_json task (evidence bp cp) p v
            v.tables.others refl (ap (λ y. y.0) (sym same'') ∙ h3) in
        (done.1, (evidence bp cp, p, v.tables.others, refl, done))

    -- What was seen from the versions on: one version, the same data, the same results, the same data
    -- later, and a report.
    abbrev pub IsEquivalent : Task → W → Type 0
    IsEquivalent task w =
        let behind = db.pass (db.pass w) in
        ((v : String) × (db.version baseline w ≡ ok v) × (db.version candidate (db.pass w) ≡ ok v))
        × ((snapshot : String) × IsSnapshot db task.tables snapshot behind
            × IsCompared task snapshot (db.pass (db.pass behind)))

    module _ (is_json : String → Bool) (task : Task)
        (nonempty : (s : Side) (q : String) (o : Bool) (w : W) (r : String)
          → db.read s q o w ≡ ok r
          → str_eq r "" ≡ false) where
      compare_results-IsCompared :
          (snapshot : String) (t : Db (ShadowTables W)) (w : W)
          → (t.tables.others ≡ w)
          → (compare_results db is_json marshal size task snapshot t).0 ≡ ok tt
          → IsCompared task snapshot w
      unfolding compare_results
      compare_results-IsCompared snapshot t w here h =
          let o = task.is_ordered in
          let finish : String → String → String → String → Sql (ShadowTables W) (Unit {0}) =
            λ a b c d.
              explain_and_conclude is_json task snapshot
                (all_agree "" (a ∷ (b ∷ (c ∷ (d ∷ []))))) in
          let fourth : String → String → String → Sql (ShadowTables W) (Unit {0}) =
            λ a b c. ask db (db.read candidate task.rewritten o) >>= finish a b c in
          let third : String → String → Sql (ShadowTables W) (Unit {0}) =
            λ a b. ask db (db.read candidate task.sql o) >>= fourth a b in
          let second : String → Sql (ShadowTables W) (Unit {0}) =
            λ a. ask db (db.read baseline task.rewritten o) >>= third a in
          let (a, read_a, (t1, at1, h1)) =
            ask-Answered db second tt t w here (db.read baseline task.sql o) h in
          let w1 = db.pass w in
          let (b, read_b, (t2, at2, h2)) =
            ask-Answered db (third a) tt t1 w1 at1 (db.read baseline task.rewritten o) h1 in
          let w2 = db.pass w1 in
          let (c, read_c, (t3, at3, h3)) =
            ask-Answered db (fourth a b) tt t2 w2 at2 (db.read candidate task.sql o) h2 in
          let w3 = db.pass w2 in
          let (d, read_d, (t4, at4, h4)) =
            ask-Answered db (finish a b c) tt t3 w3 at3 (db.read candidate task.rewritten o) h3 in
          let (equal, rest) =
            explain_and_conclude-IsConcluded is_json task snapshot
              (all_agree "" (a ∷ (b ∷ (c ∷ (d ∷ []))))) t4 h4 in
          let (ab, ac, ad) =
            all_agree-same a b c d (nonempty baseline task.sql o w a read_a) equal in
          ((a, (read_a, read_b ∙ ap ok ab, read_c ∙ ap ok ac, read_d ∙ ap ok ad)), rest)

      -- What check_rewrite does once the versions agree
      abbrev compare_databases : Sql (ShadowTables W) (Unit {0})
      compare_databases = ask db (db.compute baseline task.tables) >>= λ c.
          instead db snapshots_differ (ask db (db.compute candidate task.tables)) >>= λ d.
          demand db (str_eq c d) snapshots_differ >> compare_results db is_json marshal size task c

      compare_databases-IsCompared :
          (t : Db (ShadowTables W)) (w : W)
          → (t.tables.others ≡ w)
          → (compare_databases t).0 ≡ ok tt
          → (snapshot : String) × IsSnapshot db task.tables snapshot w
            × IsCompared task snapshot (db.pass (db.pass w))
      compare_databases-IsCompared t w here h =
          let compare = compare_results db is_json marshal size task in
          let second : String → String → Sql (ShadowTables W) (Unit {0}) =
            λ c d. demand db (str_eq c d) snapshots_differ >> compare c in
          let first : String → Sql (ShadowTables W) (Unit {0}) = λ c.
            instead db snapshots_differ (ask db (db.compute candidate task.tables)) >>= second c in
          let (c, data_c, (t1, at1, h1)) =
            ask-Answered db first tt t w here (db.compute baseline task.tables) h in
          let (d, data_d, (t2, at2, h2)) =
            instead-Answered db (second c) tt t1 (db.pass w) at1 snapshots_differ
              (db.compute candidate task.tables) h1 in
          let (cd, h3) = demand-then db (str_eq c d) snapshots_differ (compare c) t2 tt h2 in
          (
            c,
            (data_c, data_d ∙ ap ok (sym ((eq_iff c d).0 cd))),
            compare_results-IsCompared c t2 (db.pass (db.pass w)) at2 h3,
          )

      check_rewrite-IsEquivalent :
          (t : Db (ShadowTables W)) (w : W)
          → (t.tables.others ≡ w)
          → (check_rewrite db is_json marshal size task t).0 ≡ ok tt
          → IsEquivalent task w
      unfolding check_rewrite
      check_rewrite-IsEquivalent t w here h =
          let second : String → String → Sql (ShadowTables W) (Unit {0}) =
            λ a b. demand db (str_eq a b) versions_differ >> compare_databases in
          let first : String → Sql (ShadowTables W) (Unit {0}) =
            λ a. instead db versions_differ (ask db (db.version candidate)) >>= second a in
          let (a, version_a, (t1, at1, h1)) =
            instead-Answered db first tt t w here versions_differ (db.version baseline) h in
          let (b, version_b, (t2, at2, h2)) =
            instead-Answered db (second a) tt t1 (db.pass w) at1 versions_differ
              (db.version candidate) h1 in
          let (ab, h3) = demand-then db (str_eq a b) versions_differ compare_databases t2 tt h2 in
          (
            (a, version_a, version_b ∙ ap ok (sym ((eq_iff a b).0 ab))),
            compare_databases-IsCompared t2 (db.pass (db.pass w)) at2 h3,
          )

      -- No result of a query has the empty digest. When run_rewrite accepts, whatever calls failed and
      -- whatever happened to the databases between two questions: their versions agree; they held the
      -- same data before; the statement and its rewritten form, each on either database, had one result;
      -- the databases held that same data afterwards; and a report of at most the limit, which says that
      -- the results agree, was stored in a row.
      pub run_rewrite-IsEquivalent :
          (like : Bytes → Bool) (t : Db (ShadowTables W))
          → (run_rewrite db is_json marshal size task like t).0 ≡ ok tt
          → IsEquivalent task t.tables.others
      unfolding run_rewrite
      run_rewrite-IsEquivalent like t h =
          let (u, here, accepted) =
            with_lock-Accepts like (some (invalid "shadow_unlock_failed")) tt
              (check_rewrite db is_json marshal size task) t h in
          check_rewrite-IsEquivalent u t.tables.others here accepted
