-- ===== src/ParkingOperatorAdaptor/Operator.antt =====
-- rhivos/parking-operator-adaptor/src/operator.rs: the REST client and its retries. The HTTP library
-- is the parameter `send`: its answer to the k-th attempt at a request.
pub mod Retries
use parking_fee_service.Prelude.{
  ℕ, zero, suc, ◌+◌, String, ◌<>◌, Bool, List, [], ◌∷◌, Result, ok, err, get_elem?, if◌then◌else◌,
  ◌++◌,
}
use parking_fee_service.Prelude.Number.{ℤ, as_i64}
use parking_fee_service.Prelude.Retry.{Step, attempt, pause_of}

abbrev pub max_retries : ℕ
max_retries = 3

-- `RETRY_DELAYS_MS` outside of tests
abbrev pub retry_delays_ms : List ℕ
retry_delays_ms = 1000 ∷ 2000 ∷ 4000 ∷ []

pub record StartRequest : Type 0 where
  pub vehicle_id : String
  pub zone_id : String
  pub timestamp : ℤ

pub record RateResponse (F : Type 0) : Type 0 where
  pub rate_type : String
  pub amount : F
  pub currency : String

pub record StartResponse (F : Type 0) : Type 0 where
  pub session_id : String
  pub status : String
  pub rate : RateResponse F

pub record StopRequest : Type 0 where
  pub session_id : String
  pub timestamp : ℤ

pub record StopResponse (F : Type 0) : Type 0 where
  pub session_id : String
  pub status : String
  pub duration_seconds : ℕ
  pub total_amount : F
  pub currency : String

pub data OperatorError : Type 0 where
  request_failed parse_error : String → OperatorError

-- `Display for OperatorError`
unfoldable pub show_error : OperatorError → String
show_error (request_failed msg) = "operator request failed: " <> msg
show_error (parse_error msg) = "operator response parse error: " <> msg

-- What the HTTP library answers: its status, and what decoding the body as `Resp` gives.
pub record Response (Resp : Type 0) : Type 0 where
  pub is_success : Bool
  pub status : String
  pub json : Result Resp String

-- `response.json().await.map_err(…)`
abbrev pub decode : {Resp : Type 0} → Result Resp String → Result Resp OperatorError
decode (ok r) = ok r
decode (err e) = err (parse_error e)

-- The pause before an attempt, none before the first.
unfoldable pub pause_before : ℕ → List Step
pause_before zero = []
pause_before (suc k) = pause_of (get_elem? retry_delays_ms k) ∷ []

module _ {Resp : Type 0} (send : ℕ → Result (Response Resp) String) where
  -- The loop of `post_with_retry` from an attempt on, with the error of the attempt before.
  unfoldable pub post_from : ℕ → ℕ → String → Result Resp OperatorError × List Step
  post_from zero k last_error = (err (request_failed last_error), [])
  post_from (suc rounds) k last_error = elim (send k) [
    | ok response ↦
        let retried = post_from rounds (k + 1) ("HTTP " <> response.status) in
        if response.is_success
        then (decode response.json, pause_before k ++ attempt k ∷ [])
        else (retried.0, pause_before k ++ (attempt k ∷ retried.1))
    | err e ↦
        let retried = post_from rounds (k + 1) e in
        (retried.0, pause_before k ++ (attempt k ∷ retried.1))
  ]

  -- `post_with_retry`
  unfoldable pub post_with_retry : Result Resp OperatorError × List Step
  unfolding post_from pause_before
  post_with_retry = post_from (max_retries + 1) 0 ""

-- `OperatorClient`: `http` answers the k-th attempt at posting a body to a URL, and `secs` is the
-- reading of the clock, which is not before the epoch.
module _ {F : Type 0} (base_url : String) (secs : ℕ)
    (post_start : String → StartRequest → ℕ → Result (Response (StartResponse F)) String)
    (post_stop : String → StopRequest → ℕ → Result (Response (StopResponse F)) String) where
  -- `start_session`
  unfoldable pub start_session :
      String → String → Result (StartResponse F) OperatorError × List Step
  unfolding post_with_retry
  start_session vehicle_id zone_id = post_with_retry (
      post_start (base_url <> "/parking/start")
        (record { vehicle_id = vehicle_id; zone_id = zone_id; timestamp = as_i64 secs }))

  -- `stop_session`
  unfoldable pub stop_session : String → Result (StopResponse F) OperatorError × List Step
  unfolding post_with_retry
  stop_session session_id = post_with_retry (
      post_stop (base_url <> "/parking/stop")
        (record { session_id = session_id; timestamp = as_i64 secs }))
