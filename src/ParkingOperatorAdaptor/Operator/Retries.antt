-- ===== src/ParkingOperatorAdaptor/Operator/Retries.antt =====
-- What `post_with_retry` does for every way in which the attempts can go.
use parking_fee_service.Prelude.{
  ℕ, zero, suc, ◌+◌, ◌*◌, String, ◌<>◌, ◌≡◌, List, [], ◌∷◌, Result, ok, err, arith, if◌then◌else◌,
  take,
}
use parking_fee_service.Prelude.Retry.{Step, attempt, pause}
use parking_fee_service.ParkingOperatorAdaptor.Operator.{
  Response, OperatorError, request_failed, decode, post_with_retry,
}

-- What an attempt comes to: a response that ends the loop, or the error to retry on.
pub data Verdict (Resp : Type 0) : Type 0 where
  settled : Result Resp String → Verdict Resp
  retry : String → Verdict Resp

abbrev pub judge : {Resp : Type 0} → Result (Response Resp) String → Verdict Resp
judge (ok response) =
    if response.is_success then settled response.json else retry ("HTTP " <> response.status)
judge (err e) = retry e

-- The whole schedule: the pauses double from one second.
abbrev pub schedule : List Step
schedule = attempt 0 ∷ pause 1000 ∷ attempt 1 ∷ pause 2000 ∷ attempt 2 ∷ pause 4000 ∷ attempt 3 ∷ []

-- The first attempt that settles, among the four; else the error of the last.
abbrev pub first_settled :
    {Resp : Type 0} → (ℕ → Verdict Resp) → ℕ → ℕ → Result (ℕ × Result Resp String) String
first_settled verdict zero k = err ""
first_settled verdict (suc zero) k = elim (verdict k) [ settled r ↦ ok (k, r) | retry e ↦ err e ]
first_settled verdict (suc (suc n)) k = elim (verdict k) [
  | settled r ↦ ok (k, r)
  | retry e ↦ first_settled verdict (suc n) (k + 1)
]

-- What the loop returns and does, by the first attempt that settles.
abbrev pub expected :
    {Resp : Type 0} → Result (ℕ × Result Resp String) String → Result Resp OperatorError × List Step
expected (ok (k, r)) = (decode r, take (2 * k + 1) schedule)
expected (err e) = (err (request_failed e), schedule)

-- At most four attempts are made, with pauses of 1, 2 and 4 seconds between them, and they stop at the
-- first with a successful status, whose body is the result or a parse error. If none has one, the
-- error is that of the last attempt.
pub post_with_retry_lem :
    {Resp : Type 0} (send : ℕ → Result (Response Resp) String)
    → post_with_retry send ≡ expected (first_settled (λ k. judge (send k)) 4 0)
unfolding post_with_retry
post_with_retry_lem send = ground arith
