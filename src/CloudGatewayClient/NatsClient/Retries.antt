-- ===== src/CloudGatewayClient/NatsClient/Retries.antt =====
-- What `NatsClient::connect` does for every way in which the attempts can go.
use parking_fee_service.Prelude.{
  ℕ, zero, suc, ◌+◌, ◌*◌, String, ◌≡◌, Option, some, none, List, [], ◌∷◌, Result, ok, err, arith,
  take,
}
use parking_fee_service.Prelude.Retry
use parking_fee_service.Prelude.Retry.{Step, attempt, pause}
use parking_fee_service.CloudGatewayClient.NatsClient.{NatsError, retries_exhausted, connect}

-- The whole schedule: the pauses double from one second.
abbrev pub schedule : List Step
schedule =
    attempt 0
    ∷ pause 1
    ∷ attempt 1
    ∷ pause 2
    ∷ attempt 2
    ∷ pause 4
    ∷ attempt 3
    ∷ pause 8
    ∷ attempt 4
    ∷ []

-- The first of `n` attempts that succeeds, from the k-th on.
abbrev first_ok : {C : Type 0} → (ℕ → Result C String) → ℕ → ℕ → Option (ℕ × C)
first_ok try zero k = none
first_ok try (suc n) k = elim (try k) [ ok c ↦ some (k, c) | err e ↦ first_ok try n (k + 1) ]

abbrev outcome : {C : Type 0} → Option (ℕ × C) → Result C NatsError × List Step
outcome none = (err retries_exhausted, schedule)
outcome (some (k, c)) = (ok c, take (2 * k + 1) schedule)

-- At most five attempts are made, with pauses of 1, 2, 4 and 8 seconds between them; they stop at the
-- first that succeeds, whose client is the result, and no index into the table of pauses is out of
-- range. If all five fail the result is the error for that.
connect_lem : {C : Type 0} (try : ℕ → Result C String) → connect try ≡ outcome (first_ok try 5 0)
unfolding connect Retry.connect Retry.connect_from
connect_lem try = ground arith
