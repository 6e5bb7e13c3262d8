-- ===== src/Samples/Locks.antt =====
-- The lock of internal/service around an index that is created and not dropped, with a call that fails.
use sql_sentinel.Prelude.{◌≡◌, refl, Bool, false, Option, none, some, ◌⊎◌, List, [], ◌∷◌}
use sql_sentinel.Prelude.Bytes.{Bytes, bytes, has_prefix}
use sql_sentinel.Kafka.Model.{Result, ok, lease_lost}
use sql_sentinel.Kafka.Mysql.Db.{Db, Fault, fails, lost, Sql, exec}
use sql_sentinel.Service.Shadow.{Index, ShadowTables, prefix, with_lock}
use sql_sentinel.Service.Clean.{IsClean, IsRefused, with_lock-IsClean}

abbrev orders : Bytes → Index
orders name = record { table = bytes "orders"; name = name }

abbrev Tables : Type 0
Tables = ShadowTables (Unit {0})

abbrev create : Tables → Result (Unit {0}) × Tables
create t = (ok tt, record t { indexes = orders (bytes "idx_cand_b") ∷ t.indexes })

abbrev stale : List (Option Fault) → Db Tables
stale faults = record {
  tables = record {
    indexes = orders (bytes "PRIMARY") ∷ (orders (bytes "idx_cand_a") ∷ []);
    is_locked = false;
    is_busy = false;
    others = tt;
  };
  id_sequence = 0;
  faults = faults;
}

abbrev like : Bytes → Bool
like name = has_prefix name prefix

abbrev late_fault : List (Option Fault)
late_fault =
    none ∷ (none ∷ (none ∷ (none ∷ (none ∷ (none ∷ (none ∷ (some (lost lease_lost) ∷ [])))))))

with_lock-IsClean_example :
    IsRefused like
      (λ name h. h)
      none
      (stale late_fault)
      (with_lock like none (exec create) (stale late_fault))
    ⊎ IsClean like (λ name h. h) none (with_lock like none (exec create) (stale late_fault))
with_lock-IsClean_example =
    with_lock-IsClean like (λ name h. h) none (exec create) (stale late_fault)

left_clean :
    (with_lock like none (exec create) (stale late_fault)).1.tables.indexes
    ≡ orders (bytes "PRIMARY") ∷ []
unfolding with_lock sql_sentinel.Kafka.Mysql.Db.exec has_prefix
left_clean = refl
