-- ===== src/Kafka/Mysql/Refines/Renewals.antt =====
-- A Renew of internal/kafka/recovery.go in which nothing goes wrong, beside the same call on MemoryStore.
use sql_sentinel.Prelude.{if◌then◌else◌}
use sql_sentinel.Prelude.{
  ℕ, String, Bool, true, false, none, some, ◌≡◌, refl, ◌∙◌, inl, inr, Bool-cases,
}
use sql_sentinel.Prelude.Assoc.{lookup, insert}
use sql_sentinel.Kafka.Model.{Time, Duration, ok}
use sql_sentinel.Kafka.Memory.{
  refuses, holds_lease, MemoryStore, claimed_job, finished_job, retried_job, put_job,
}
use sql_sentinel.Kafka.Mysql.Rows.{Tables, JobRow}
use sql_sentinel.Kafka.Mysql.Lease
use sql_sentinel.Kafka.Memory
use sql_sentinel.Kafka.Mysql.Lease.{
  store_retry, is_leased, is_claimable, is_renewable, finished_row, claimed_row, retried_row,
  renewed_row,
}
use sql_sentinel.Kafka.Mysql.Rows.{update_row}
use sql_sentinel.Kafka.Mysql.Refines.{Represents}
use sql_sentinel.Kafka.Mysql.Refines.Calls.{seen-renewed_row, put-Represents, of_bool}
use sql_sentinel.Kafka.Mysql.Refines.Steps.{
  At-holds, At-renewed, Meets, Moves, Represents-At, quiet,
}

module _ (t : Tables) (n : ℕ) (id owner : String) (now : Time) where
  renew-absent :
      (lease : Duration)
      → lookup id t.jobs ≡ none
      → Lease.renew id owner now lease (quiet t n) ≡ (ok false, quiet t n)
  unfolding Lease.renew update_row
  renew-absent lease h = rw (Lease.renew, update_row, h) refl

  renew-found :
      (lease : Duration) (r : JobRow) (b : Bool)
      → lookup id t.jobs ≡ some r
      → is_renewable owner now lease r ≡ b
      → Lease.renew id owner now lease (quiet t n) ≡ (
        ok b,
        quiet
            (record t { jobs = if b then insert id (renewed_row now lease r) t.jobs else t.jobs })
            n,
      )
  unfolding Lease.renew update_row
  renew-found lease r true h l = rw (Lease.renew, update_row, h, l) refl
  renew-found lease r false h l = rw (Lease.renew, update_row, h, l) refl

  pub renew-Meets :
      (s : MemoryStore) (lease : Duration)
      → Represents t s
      → Moves t id owner now lease
      → Meets of_bool
          (Lease.renew id owner now lease (quiet t n))
          (Memory.renew id owner now lease s)
  unfolding Memory.renew
  renew-Meets s lease rep m = elim (Represents-At t s id rep) [
    | inl (no_row, no_job) ↦ rw (renew-absent lease no_row, Memory.renew, no_job) (refl, rep)
    | inr a ↦ elim (Bool-cases (is_leased owner now a.row)) [
      | inr free ↦
          rw
            (
              renew-found lease a.row false a.row_at (m a.row a.row_at ∙ free),
              Memory.renew,
              a.job_at,
              At-holds t s id a owner now false free,
            )
            (refl, rep)
      | inl held ↦
          rw
            (
              renew-found lease a.row true a.row_at (m a.row a.row_at ∙ held),
              Memory.renew,
              a.job_at,
              At-holds t s id a owner now true held,
            )
            (
              refl,
              put-Represents t _ s _ id _ _ rep refl refl refl (At-renewed t s id a now lease)
                  (seen-renewed_row t a.job a.row a.same now lease),
            )
    ]
  ]
