-- ===== src/Service/Concluded.antt =====
-- The end of runRewrite in internal/service/rewrite.go: the second look at the data, and the report.
use sql_sentinel.Prelude.{
  ◌≡◌, sym, ap, ◌∙◌, arith, Bool, true, false, not, String, eq_iff, refl, ltb, ℕ, str_eq, ◌&&◌,
  List, Option, none, some,
}
use sql_sentinel.Prelude.Bytes.{Bytes}
use sql_sentinel.ShadowGate.Run.{baseline, candidate}
use sql_sentinel.Kafka.Model.{invalid, lease_lost, input_rejected, Result, ok}
use sql_sentinel.Kafka.Mysql.Db.{Db, Sql, ◌>>=◌, ◌>>◌, exec}
use sql_sentinel.Service.Shadow.{ShadowTables}
use sql_sentinel.Service.RunRewrite.{
  Engine, ask, demand, alter, in_world, Evidence, Task, persist_report, conclude_rewrite,
  report_limit,
}
use sql_sentinel.Service.Drops.{exec-ok, bind-ok}
use sql_sentinel.Service.Answered.{ask-Answered, demand-then, demand-ok}
use sql_sentinel.Service.Entered.{both-ok}

both_true : (a b : Bool) → (a && b) ≡ true → (a ≡ true) × (b ≡ true)
both_true a b h = ground (arith, h)

module _ {W P : Type 0} (db : Engine W P) where
  -- Both databases hold the same data, the second looked at after the first.
  abbrev pub IsSnapshot : List String → String → W → Type 0
  IsSnapshot tables digest w =
      (db.compute baseline tables w ≡ ok digest)
      × (db.compute candidate tables (db.pass w) ≡ ok digest)

  -- A row took the report.
  abbrev pub IsStored : Bytes → W → Type 0
  IsStored raw w = (n : ℕ) × ((db.insert raw w).0 ≡ ok n) × (ltb 0 n ≡ true)

  module _ (marshal : Evidence → Option P → Option Bytes) (size : Bytes → ℕ) where
    persist_report-IsStored :
        (is_json : String → Bool) (task : Task) (report : Option Bytes) (t : Db (ShadowTables W))
        (w : W)
        → (t.tables.others ≡ w)
        → (persist_report db is_json marshal size task report t).0 ≡ ok tt
        → (raw : Bytes) × (report ≡ some raw)
          × (ltb report_limit (size raw) ≡ false)
          × IsStored raw w
    unfolding alter ◌>>=◌
    persist_report-IsStored is_json task none t w here h = absurd (ground (arith, h))
    persist_report-IsStored is_json task (some raw) t w here h =
        let count : ShadowTables W → Result ℕ × ShadowTables W =
          λ s. in_world db s (db.insert raw s.others) in
        let judge : ℕ → Sql (ShadowTables W) (Unit {0}) = λ n. demand db (ltb 0 n) lease_lost in
        let (small, rest) =
          demand-then db (not (ltb report_limit (size raw))) (invalid "rewrite_report_limit")
            (exec count >>= judge) t tt h in
        let (n, there, same) = bind-ok (exec count t) judge tt rest in
        let (found, moved) = exec-ok count t n there in
        (
          raw,
          refl,
          ground (arith, small),
          (
            n,
            ap (λ v. (db.insert raw v).0) (sym here) ∙ found,
            demand-ok db (ltb 0 n) lease_lost (exec count t).1 tt (ap (λ y. y.0) (sym same) ∙ rest),
          ),
        )

    -- What was seen from the second look at the data on.
    abbrev pub IsConcluded : List String → Evidence → Option P → W → Type 0
    IsConcluded tables e p w =
        IsSnapshot tables e.snapshot w
        × (e.equivalent ≡ true)
        × ((raw : Bytes) × (marshal e p ≡ some raw)
            × (ltb report_limit (size raw) ≡ false)
            × IsStored raw (db.pass (db.pass w)))

    pub conclude_rewrite-IsConcluded :
        (is_json : String → Bool) (task : Task) (e : Evidence) (p : Option P)
        (t : Db (ShadowTables W)) (w : W)
        → (t.tables.others ≡ w)
        → (conclude_rewrite db is_json marshal size task e p t).0 ≡ ok tt
        → IsConcluded task.tables e p w
    unfolding conclude_rewrite
    conclude_rewrite-IsConcluded is_json task e p t w here h =
        let store = persist_report db is_json marshal size task (marshal e p) in
        let last = demand db e.equivalent input_rejected in
        let agree : String → String → Bool = λ a c. str_eq e.snapshot a && str_eq e.snapshot c in
        let third : String → String → Sql (ShadowTables W) (Unit {0}) =
          λ a c. demand db (agree a c) (invalid "rewrite_snapshot_changed") >> (store >> last) in
        let second : String → Sql (ShadowTables W) (Unit {0}) =
          λ a. ask db (db.compute candidate task.tables) >>= third a in
        let (a, seen, (u, at_u, after)) =
          ask-Answered db second tt t w here (db.compute baseline task.tables) h in
        let (c, seen', (v, at_v, after')) =
          ask-Answered db (third a) tt u (db.pass w) at_u (db.compute candidate task.tables)
            after in
        let (same, rest) =
          demand-then db (agree a c) (invalid "rewrite_snapshot_changed") (store >> last) v tt
            after' in
        let (storing, ending) = both-ok store last v tt rest in
        let (first, other) = both_true (str_eq e.snapshot a) (str_eq e.snapshot c) same in
        (
          (
            seen ∙ ap ok (sym ((eq_iff e.snapshot a).0 first)),
            seen' ∙ ap ok (sym ((eq_iff e.snapshot c).0 other)),
          ),
          demand-ok db e.equivalent input_rejected (store v).1 tt ending,
          persist_report-IsStored is_json task (marshal e p) v (db.pass (db.pass w)) at_v storing,
        )
