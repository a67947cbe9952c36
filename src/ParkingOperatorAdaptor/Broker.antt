-- ===== src/ParkingOperatorAdaptor/Broker.antt =====
-- rhivos/parking-operator-adaptor/src/broker.rs: the client of the data broker. The gRPC library is a
-- parameter: what the k-th attempt to connect gives, the stream of a subscription, and the answer to a
-- publication.
use parking_fee_service.Prelude.{
  ℕ, String, ◌<>◌, Bool, Option, some, List, [], ◌∷◌, Result, ok, err, get_elem?, unwrap_or, ◌++◌,
}
use parking_fee_service.Prelude.Signals.{TypedValue, bool_value, Item}
use parking_fee_service.Prelude.Dict
use parking_fee_service.Prelude.Dict.{Dict}
use parking_fee_service.Prelude.Retry
use parking_fee_service.Prelude.Retry.{Step}

abbrev pub connect_max_attempts : ℕ
connect_max_attempts = 5

abbrev pub connect_delays_ms : List ℕ
connect_delays_ms = 1000 ∷ 2000 ∷ 4000 ∷ 8000 ∷ []

pub data BrokerError : Type 0 where
  connection_failed rpc_error : String → BrokerError

-- `Display for BrokerError`
unfoldable pub show_error : BrokerError → String
show_error (connection_failed msg) = "DATA_BROKER connection failed: " <> msg
show_error (rpc_error msg) = "DATA_BROKER RPC error: " <> msg

-- The error that `connect` returns: the text of the last one.
unfoldable pub connection_error : Option String → BrokerError
connection_error last = connection_failed (unwrap_or last "")

-- `BrokerClient::connect`
unfoldable pub connect : {C : Type 0} → (ℕ → Result C String) → Result C BrokerError × List Step
unfolding connection_error
connect try =
    let (r, steps) = Retry.connect connect_max_attempts (get_elem? connect_delays_ms) try in
    (elim r [ ok c ↦ ok c | err last ↦ err (connection_error last) ], steps)

-- What the forwarding task sends on for an item's entry.
abbrev pub bool_of : {F : Type 0} → Option (Option (TypedValue F)) → List Bool
bool_of (some (some (bool_value b))) = b ∷ []
bool_of _ = []

-- The task of `subscribe_bool`: what it forwards, while the receiver is open, until the stream ends or
-- fails.
unfoldable pub forward_bools : {F : Type 0} → String → List (Item F) → List Bool
forward_bools signal_path [] = []
forward_bools signal_path (err e ∷ items) = []
forward_bools signal_path (ok entries ∷ items) =
    bool_of (Dict.lookup signal_path entries) ++ forward_bools signal_path items

-- `subscribe_bool`, with what its task forwards; `subscribe` gives the stream for a path.
unfoldable pub subscribe_bool :
    {F : Type 0}
    → (String → Result (List (Item F)) String)
    → String
    → Result (List Bool) BrokerError
unfolding forward_bools
subscribe_bool subscribe signal = elim (subscribe signal) [
  | ok items ↦ ok (forward_bools signal items)
  | err e ↦ err (rpc_error ("subscribe(" <> signal <> "): " <> e))
]

-- `publish_bool`; `publish` is the answer of `PublishValue` to a path and a value.
unfoldable pub publish_bool :
    {F : Type 0}
    → (String → TypedValue F → Result (Unit {0}) String)
    → String
    → Bool
    → Result (Unit {0}) BrokerError
publish_bool publish signal value = elim (publish signal (bool_value value)) [
  | ok _ ↦ ok tt
  | err e ↦ err (rpc_error ("publish_bool(" <> signal <> "): " <> e))
]

-- `BrokerOps::set_bool`
unfoldable pub set_bool :
    {F : Type 0}
    → (String → TypedValue F → Result (Unit {0}) String)
    → String
    → Bool
    → Result (Unit {0}) String
unfolding publish_bool show_error
set_bool publish signal value = elim (publish_bool publish signal value) [
  | ok _ ↦ ok tt
  | err e ↦ err (show_error e)
]
