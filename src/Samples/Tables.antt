-- ===== src/Samples/Tables.antt =====
-- MySQLStore on concrete tables: one queued job, calls with and without faults.
use sql_sentinel.Prelude.{
  str_eq, Bool-cases, String, none, some, List, [], ◌∷◌, ◌≡◌, refl, ◌⊎◌, inl, inr, arith, eq_iff,
  ◌^◌, ◌*◌, ◌+◌,
}
use sql_sentinel.Prelude.Int.{pos}
use sql_sentinel.Prelude.Assoc.{insert, lookup}
use sql_sentinel.Kafka.Model.{invalid, running, queued, completed, second}
use sql_sentinel.Kafka.Memory.{claimed_job, MemoryStore, new_memory_store}
use sql_sentinel.Kafka.Mysql.Db.{Db, fails}
use sql_sentinel.Kafka.Mysql.Rows.{Tables, JobRow, empty_tables, scan_job}
use sql_sentinel.Kafka.Mysql.Atomic.{calm}
use sql_sentinel.Kafka.Mysql.Lease
use sql_sentinel.Kafka.Mysql.Receive
use sql_sentinel.Kafka.Mysql.Recover.{recover_expired}
use sql_sentinel.Kafka.Mysql.Receive.{traced}
use sql_sentinel.Kafka.Mysql.Atomic.Events.{AllRecovered}
use sql_sentinel.Kafka.Mysql.Atomic.Stored.{IsStored}
use sql_sentinel.Kafka.Mysql.Atomic.Jobs.{recover_expired-Atomic, receive-Atomic}
use sql_sentinel.Kafka.Mysql.Refines.{seen, Represents, IsSane}
use sql_sentinel.Kafka.Mysql.Refines.Calls.{Call, claim_call, complete_call, granted}
use sql_sentinel.Kafka.Mysql.Refines.Runs.{mysql_run, memory_run, mysql_run-Represents, MovesAll}
use sql_sentinel.Samples.Jobs.{hash, input, job}

-- The job of Samples/Jobs, as a row.
abbrev pub row : JobRow
row = record {
  job_id = "j1";
  delivery_id = "d1";
  pr_number = pos 7;
  sql_text = "SELECT id FROM orders";
  candidate_spec = "{}";
  sql_sha256 = "SELECT id FROM orders";
  candidate_spec_sha256 = "{}";
  status = queued;
  attempts = 0;
  next_attempt_at = 100;
  lease_owner = "";
  lease_until = none;
  last_error = "";
  created_at = 100;
  updated_at = 100;
  completed_at = none;
}

abbrev tables : Tables
tables = record empty_tables { jobs = ("j1", row) ∷ []; job_options = ("j1", job.options) ∷ [] }

abbrev store : MemoryStore
store = record new_memory_store { jobs = ("j1", job) ∷ [] }

abbrev db : Db Tables
db = record { tables = tables; id_sequence = 0; faults = [] }

-- The last statement of the transaction that takes place fails.
abbrev failing : Db Tables
failing = record {
  tables = tables;
  id_sequence = 0;
  faults = none ∷ none ∷ none ∷ some (fails (invalid "gone")) ∷ [];
}

stored : (id : String) (r : JobRow) → lookup id tables.jobs ≡ some r → IsSane id r
unfolding lookup
stored id r h = record {
  keyed = ground (arith, eq_iff "j1" id);
  begun = ground (arith, eq_iff "j1" id);
  leased = ground (arith, eq_iff "j1" id);
}

held : Represents tables store
unfolding lookup scan_job
held = record {
  sane = stored;
  agree =
      λ id. elim (Bool-cases (str_eq "j1" id)) [ inl hit ↦ rw hit refl | inr miss ↦ rw miss refl ];
}

abbrev calls : List Call
calls = claim_call "j1" "w1" 200 second 201 ∷ complete_call "j1" "w1" 300 301 ∷ []

moves : MovesAll hash calls db
unfolding MovesAll
moves = (tt, λ reply db1 h. (tt, λ reply db2 h. tt))

abbrev claimed : JobRow
claimed = record row {
  status = running;
  attempts = 1;
  lease_owner = "w1";
  lease_until = some (200 + 10 ^ 9);
  updated_at = 200;
}

abbrev end : Db Tables
end = record db {
  tables = record tables {
    jobs =
        (
          "j1",
          record claimed {
            status = completed;
            lease_owner = "";
            lease_until = none;
            completed_at = some 300;
            updated_at = 300;
          },
        )
        ∷ [];
    history =
        record { job_id = "j1"; status = running; reason = ""; created_at = 201 }
        ∷ record { job_id = "j1"; status = completed; reason = ""; created_at = 301 }
        ∷ [];
  };
}

mysql_run_runs :
    mysql_run hash calls db
    ≡ some (granted (some (seen (claimed_job job "w1" 200 second))) ∷ granted none ∷ [], end)
unfolding mysql_run seen claimed_job scan_job Lease.claim lookup insert Lease.complete
mysql_run_runs = refl

mysql_run-Represents_example :
    ((memory_run hash calls store).0
      ≡ granted (some (seen (claimed_job job "w1" 200 second))) ∷ granted none ∷ [])
    × Represents end.tables (memory_run hash calls store).1
mysql_run-Represents_example =
    mysql_run-Represents hash calls db store _ end held moves mysql_run_runs

-- A Retry of the claimed job whose outbox row is refused.
abbrev retrying : Db Tables
retrying = record failing { tables = record tables { jobs = ("j1", claimed) ∷ [] } }

receive-Atomic_example :
    let call = Receive.receive hash 500 "" "" (record input { delivery_id = "d2" }) in
    ((call failing).1.tables ≡ failing.tables)
    ⊎ (((call failing).1.tables ≡ (call (calm failing)).1.tables)
        × IsStored hash 500
            (traced "" "" (record input { delivery_id = "d2" }))
            failing.tables
            (call failing).1.tables)
receive-Atomic_example = receive-Atomic hash 500 "" "" (record input { delivery_id = "d2" }) failing

recover_expired-Atomic_example :
    let call = recover_expired hash (2 * 10 ^ 9) (pos 10) in
    ((call retrying).1.tables ≡ retrying.tables)
    ⊎ (((call retrying).1.tables ≡ (call (calm retrying)).1.tables)
        × AllRecovered (2 * 10 ^ 9) (pos 10) retrying.tables (call retrying).1.tables)
recover_expired-Atomic_example = recover_expired-Atomic hash (2 * 10 ^ 9) (pos 10) retrying
