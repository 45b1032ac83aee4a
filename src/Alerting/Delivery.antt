-- ===== src/Alerting/Delivery.antt =====
-- internal/alerting/sender.go: `deliver`, `postOnce`, `run` and `Close`. The HTTP client is an
-- argument: what it answers to each attempt.
pub mod Attempts
use inference_fabric_autopil.Prelude.{
  ℕ, zero, suc, ◌+◌, Bool, true, false, ◌||◌, Option, none, some, List, [], ◌∷◌, ltb, leb, ◌==◌,
  not, if◌then◌else◌,
}
use inference_fabric_autopil.Alerting.Payload.{Payload}
use inference_fabric_autopil.Alerting.Sender.{Sender}

abbrev pub delivery_attempts : ℕ
delivery_attempts = 2

-- How an exchange with the endpoint goes: no body or request can be made, no response comes, or a
-- response with a status.
pub data Exchange : Type 0 where
  unsendable : Exchange
  unreachable : Exchange
  answered : ℕ → Exchange

-- `statusError`, `transportError` and any other error.
pub data PostError : Type 0 where
  status_error : ℕ → PostError
  transport_error : PostError
  other_error : PostError

-- `postOnce`; `none` is no error.
unfoldable pub post_once : Exchange → Option PostError
post_once unsendable = some other_error
post_once unreachable = some transport_error
post_once (answered code) = if ltb code 200 || leb 300 code then some (status_error code) else none

unfoldable pub retryable : PostError → Bool
retryable (status_error code) = leb 500 code || (code == 429)
retryable transport_error = true
retryable other_error = false

module _ {A : Type 0} where
  abbrev pub count_sent : Sender A → Sender A
  count_sent s = record s { sent = suc s.sent }

  abbrev pub count_failed : Sender A → Sender A
  count_failed s = record s { failed = suc s.failed }

  -- The loop of `deliver` from an attempt on, with the number of attempts that are left. The
  -- result has the number of posts.
  unfoldable pub attempt_from : ℕ → ℕ → (ℕ → Exchange) → Sender A → ℕ × Sender A
  unfolding post_once retryable
  attempt_from zero attempt net s = (0, count_failed s)
  attempt_from (suc left) attempt net s =
      let (n, later) = attempt_from left (suc attempt) net s in
      elim (post_once (net attempt)) [
        | none ↦ (1, count_sent s)
        | some e ↦ if retryable e then (suc n, later) else (1, count_failed s)
      ]

  -- `deliver`
  unfoldable pub deliver : (ℕ → Exchange) → Sender A → ℕ × Sender A
  unfolding attempt_from
  deliver net s = attempt_from delivery_attempts 1 net s

  -- The receive of `run` and the delivery of what it receives.
  unfoldable pub serve : (Payload A → ℕ → Exchange) → Sender A → List (Payload A) × Sender A
  unfolding deliver
  serve net s = elim s.queue [
    | [] ↦ ([], s)
    | p ∷ ps ↦ (p ∷ [], (deliver (net p) (record s { queue = ps })).1)
  ]

  -- The inner loop of `run` after `Close`: until the queue is empty.
  unfoldable pub drain : (Payload A → ℕ → Exchange) → ℕ → Sender A → Sender A
  unfolding serve
  drain net zero s = s
  drain net (suc fuel) s = drain net fuel (serve net s).1
