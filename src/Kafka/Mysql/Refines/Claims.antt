-- ===== src/Kafka/Mysql/Refines/Claims.antt =====
-- A Claim of internal/kafka/mysql.go in which nothing goes wrong, beside the same call on MemoryStore.
use sql_sentinel.Prelude.{
  ◌∷◌, ◌++◌, [], ℕ, String, true, false, none, some, ◌≡◌, refl, ap, sym, inl, inr, Bool-cases,
}
use sql_sentinel.Prelude.Assoc.{lookup, insert}
use sql_sentinel.Kafka.Model.{not_found, running, Time, Duration, ok, err}
use sql_sentinel.Kafka.Memory.{
  refuses, holds_lease, MemoryStore, claimed_job, finished_job, retried_job, put_job,
}
use sql_sentinel.Kafka.Mysql.Db.{◌>>=◌}
use sql_sentinel.Kafka.Mysql.Rows.{Tables, JobRow, scan_job}
use sql_sentinel.Kafka.Mysql.Lease
use sql_sentinel.Kafka.Memory
use sql_sentinel.Kafka.Mysql.Lease.{
  store_retry, is_leased, is_claimable, is_renewable, finished_row, claimed_row, retried_row,
  renewed_row,
}
use sql_sentinel.Kafka.Mysql.Rows.{update_row, select_by_id}
use sql_sentinel.Kafka.Mysql.Refines.{lookup-insert_same, Represents}
use sql_sentinel.Kafka.Mysql.Refines.Calls.{
  seen-claimed_row, of_claim, put-Represents, granted, denied,
}
use sql_sentinel.Kafka.Mysql.Refines.Steps.{At-claimed, At-refuses, Meets, Represents-At, quiet}

module _ (t : Tables) (n : ℕ) (id owner : String) (now : Time) where
  claim-absent :
      (lease : Duration) (clock : Time)
      → lookup id t.jobs ≡ none
      → Lease.claim id owner now lease clock (quiet t n) ≡ (err not_found, quiet t n)
  unfolding Lease.claim update_row ◌>>=◌ select_by_id Lease.get_by_id
  claim-absent lease clock h =
      rw (Lease.claim, update_row, h) (rw (◌>>=◌, Lease.get_by_id, select_by_id, h) refl)

  claim-found :
      (lease : Duration) (clock : Time) (r : JobRow)
      → lookup id t.jobs ≡ some r
      → is_claimable now r ≡ true
      → let jobs' = insert id (claimed_row owner now lease r) t.jobs in
        Lease.claim id owner now lease clock (quiet t n) ≡ (
          ok (scan_job t (claimed_row owner now lease r), true),
          quiet
              (record t {
                jobs = jobs';
                history =
                    t.history
                    ++ record { job_id = id; status = running; reason = ""; created_at = clock }
                      ∷ [];
              })
              n,
        )
  unfolding Lease.claim update_row ◌>>=◌ select_by_id Lease.get_by_id
  claim-found lease clock r h l =
      rw
        (
          Lease.claim,
          update_row,
          h,
          l,
          lookup-insert_same id (claimed_row owner now lease r) t.jobs,
        )
        (unfold scan_job in refl)

  claim-refused :
      (lease : Duration) (clock : Time) (r : JobRow)
      → lookup id t.jobs ≡ some r
      → is_claimable now r ≡ false
      → Lease.claim id owner now lease clock (quiet t n) ≡ (ok (scan_job t r, false), quiet t n)
  unfolding Lease.claim update_row ◌>>=◌ select_by_id Lease.get_by_id
  claim-refused lease clock r h l =
      rw (Lease.claim, update_row, h, l) (rw (◌>>=◌, Lease.get_by_id, select_by_id, h) refl)

  pub claim-Meets :
      (s : MemoryStore) (lease : Duration) (clock : Time)
      → Represents t s
      → Meets of_claim
          (Lease.claim id owner now lease clock (quiet t n))
          (Memory.claim id owner now lease s)
  unfolding Memory.claim
  claim-Meets s lease clock rep = elim (Represents-At t s id rep) [
    | inl (no_row, no_job) ↦ rw (claim-absent lease clock no_row, Memory.claim, no_job) (refl, rep)
    | inr a ↦ elim (Bool-cases (is_claimable now a.row)) [
      | inr not_yet ↦
          rw
            (
              claim-refused lease clock a.row a.row_at not_yet,
              Memory.claim,
              a.job_at,
              At-refuses t s id a now true not_yet,
            )
            (ap (λ j. denied (some j)) (sym a.same), rep)
      | inl due ↦
          rw
            (
              claim-found lease clock a.row a.row_at due,
              Memory.claim,
              a.job_at,
              At-refuses t s id a now false due,
            )
            (
              ap (λ j. granted (some j))
                  (sym (seen-claimed_row t a.job a.row a.same owner now lease)),
              put-Represents t _ s _ id _ _ rep refl refl refl (At-claimed t s id a owner now lease)
                  (seen-claimed_row t a.job a.row a.same owner now lease),
            )
    ]
  ]
