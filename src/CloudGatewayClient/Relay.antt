-- ===== src/CloudGatewayClient/Relay.antt =====
-- rhivos/cloud-gateway-client/src/main.rs: the loops for commands and responses. `decode` is
-- `std::str::from_utf8`; what the loops hand to the broker and to NATS is listed in order, and a failing
-- write is logged and skipped.
pub mod Forwarding
use parking_fee_service.Prelude.{
  ℕ, String, Bool, Option, none, some, List, [], ◌∷◌, Result, ok, err, if◌then◌else◌, Act, ◌>>=◌,
  ◌>>◌, pure,
}
use parking_fee_service.Prelude.Signals.{TypedValue, Publication}
use parking_fee_service.CloudGatewayClient.BrokerClient.{write_command}
use parking_fee_service.Prelude.Dict
use parking_fee_service.Prelude.Dict.{Dict}
use parking_fee_service.CloudGatewayClient.CommandValidator.{
  Json, CommandPayload, validate_bearer_token, validate_command_payload,
}

-- A NATS message: its headers, each with its values, and its payload.
pub record Message : Type 0 where
  pub headers : Option (List (String × List String))
  pub payload : List ℕ

-- The loop of `extract_headers`: the first value of each header.
unfoldable pub insert_headers : List (String × List String) → Dict String → Dict String
insert_headers [] d = d
insert_headers ((key, []) ∷ rest) d = insert_headers rest d
insert_headers ((key, value ∷ values) ∷ rest) d = insert_headers rest (Dict.insert key value d)

-- `extract_headers`
unfoldable pub extract_headers : Message → Dict String
unfolding insert_headers
extract_headers msg = elim msg.headers [
  | none ↦ []
  | some nats_headers ↦ insert_headers nats_headers []
]

module _ (json : Json) (typed : List ℕ → Result (CommandPayload json.Extra) String)
    (decode : List ℕ → Option String) (bearer_token : String) where
  -- The body of the command loop: what it writes to the broker for a message, if anything.
  unfoldable pub accept : Message → Option String
  accept msg = elim (validate_bearer_token (extract_headers msg) bearer_token) [
    | err _ ↦ none
    | ok _ ↦ elim (validate_command_payload json typed msg.payload) [
      | err _ ↦ none
      | ok _ ↦ decode msg.payload
    ]
  ]

  -- The command loop: the payloads written, in order.
  unfoldable pub forward_commands : List Message → List String
  unfolding accept
  forward_commands [] = []
  forward_commands (msg ∷ msgs) =
      let rest = forward_commands msgs in
      elim (accept msg) [ none ↦ rest | some text ↦ text ∷ rest ]

  -- The command loop with its writes to the broker, of which `publish` gives the answers.
  module _ {F : Type 0} (publish : String → TypedValue F → Result (Unit {0}) String) where
    -- The end of the loop's body: the write of what was accepted, whose failure is only logged.
    unfoldable pub write_accepted : Option String → Act (List (Publication F)) (Unit {0})
    write_accepted none = pure tt
    write_accepted (some payload_str) = do write_command publish payload_str; pure tt

    unfoldable pub command_loop : List Message → Act (List (Publication F)) (Unit {0})
    unfolding accept write_accepted
    command_loop [] = pure tt
    command_loop (msg ∷ msgs) = do write_accepted (accept msg); command_loop msgs

-- The response loop: the responses published, in order; `is_json` is the test for valid JSON.
unfoldable pub relay_responses : (String → Bool) → List String → List String
relay_responses is_json [] = []
relay_responses is_json (response ∷ responses) =
    let rest = relay_responses is_json responses in
    if is_json response then response ∷ rest else rest
