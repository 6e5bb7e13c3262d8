-- ===== src/Kafka/Poller.antt =====
-- RunPolling of internal/kafka/poller.go. The context, the function and the observer are there (not
-- nil). A timer's tick only lets the next scan begin.
use sql_sentinel.Prelude.{ℕ, Bool, ◌||◌, Option, ◌⊎◌, inl, inr, List, [], ◌∷◌, if◌then◌else◌}
use sql_sentinel.Prelude.Int.{pos, leb_ℤ}
use sql_sentinel.Kafka.Model.{Err, invalid, Duration}

pub record PollResult : Type 0 where
  pub published : ℕ
  pub error : Option Err

-- One scan: what runOnce returns, and whether the context has ended when it is back, or ends before
-- the next tick.
pub record PollRound : Type 0 where
  pub result : PollResult
  pub ended : Bool
  pub ended_waiting : Bool

-- What the observer sees.
unfoldable pub poll : List PollRound → List PollResult
poll [] = []
poll (r ∷ rounds) =
    let rest = poll rounds in if r.ended || r.ended_waiting then r.result ∷ [] else r.result ∷ rest

unfoldable pub run_polling : Duration → List PollRound → Err ⊎ List PollResult
unfolding poll
run_polling interval rounds =
    if leb_ℤ interval (pos 0)
    then inl (invalid "relay poll interval must be positive")
    else inr (poll rounds)
