-- ===== src/LockingService/Service.antt =====
-- rhivos/locking-service/src/main.rs: the handling of a payload, and the service's loop. The JSON
-- library is a parameter: decoding a command, and the fields of an untyped value.
pub mod Safety
pub mod Resubscription
pub mod Payloads
pub mod Writes
use parking_fee_service.Prelude.{
  ℕ, ◌+◌, String, false, Option, none, some, List, [], ◌∷◌, Result, ok, err, Act, ◌>>=◌, ◌>>◌, pure,
  ltb, if◌then◌else◌,
}
use parking_fee_service.Prelude.Text.{is_empty}
use parking_fee_service.LockingService.Command.{
  LockCommand, CommandError, invalid_json, invalid_command, unsupported_door, SerdeError, reason,
  parse_command, validate_command,
}
use parking_fee_service.LockingService.Broker.{BrokerError, signal_is_locked, signal_response}
use parking_fee_service.LockingService.Safety.{Env, World}
use parking_fee_service.LockingService.Process.{fail, set_bool, set_string, process_command}

-- `serde_json`, as the service uses it.
pub record Json : Type 1 where
  pub Value : Type 0
  pub from_str : String → Result LockCommand SerdeError
  pub value_of : String → Option Value
  pub get : Value → String → Option Value
  pub as_str : Value → Option String

module _ (json : Json) where
  -- `.filter(|s| !s.is_empty())`
  abbrev nonempty : Option String → Option String
  nonempty none = none
  nonempty (some s) = if is_empty s then none else some s

  abbrev field_str : Option json.Value → Option String
  field_str none = none
  field_str (some v) = json.as_str v

  abbrev command_id_field : Option json.Value → Option String
  command_id_field none = none
  command_id_field (some v) = nonempty (field_str (json.get v "command_id"))

  -- `extract_command_id`
  unfoldable pub extract_command_id : String → Option String
  extract_command_id payload = command_id_field (json.value_of payload)

module _ {F : Type 0} (json : Json) (env : Env F) where
  -- A failure response for a command, published.
  unfoldable pub publish_failure : String → String → Act (World) (Unit {0})
  publish_failure command_id why = do
    response ← fail env command_id why
    set_string env signal_response response
    pure tt

  -- The `Err(e)` arm of the parse.
  unfoldable pub reject : Option String → CommandError → Act World (Unit {0})
  unfolding publish_failure
  reject none e = pure tt
  reject (some command_id) e = publish_failure command_id (reason e)

  -- After the validation.
  unfoldable pub after_validation :
      LockCommand → Result (Unit {0}) CommandError → Act World (Unit {0})
  unfolding publish_failure
  after_validation cmd (err e) = publish_failure cmd.command_id (reason e)
  after_validation cmd (ok _) = do process_command env cmd; pure tt

  -- After the parse.
  unfoldable pub after_parse : String → Result LockCommand CommandError → Act World (Unit {0})
  unfolding reject after_validation
  after_parse payload (ok cmd) = after_validation cmd (validate_command cmd)
  after_parse payload (err (invalid_json msg)) = pure tt
  after_parse payload (err (invalid_command msg)) =
      reject (extract_command_id json payload) (invalid_command msg)
  after_parse payload (err (unsupported_door msg)) =
      reject (extract_command_id json payload) (unsupported_door msg)

  -- `handle_command_payload`
  unfoldable pub handle_command_payload : String → Act World (Unit {0})
  unfolding after_parse
  handle_command_payload payload = after_parse payload (parse_command json.from_str payload)

-- What the `select!` of the loop takes next: a payload, the end of the subscription with the broker's
-- answer to a new one, or the shutdown signal.
pub data Event : Type 0 where
  payload : String → Event
  stream_ended : Result (Unit {0}) BrokerError → Event
  shutdown : Event

-- How the loop stands after some events.
pub data Status : Type 0 where
  running : ℕ → Status
  shut_down : Status
  subscription_lost : Status
  resubscribe_failed : BrokerError → Status

abbrev pub max_resubscribe_attempts : ℕ
max_resubscribe_attempts = 3

-- The arm for the end of the stream, with the counter already raised.
unfoldable pub resubscribe : ℕ → Result (Unit {0}) BrokerError → Status
resubscribe count answer =
    if ltb max_resubscribe_attempts count
    then subscription_lost
    else elim answer [ ok _ ↦ running count | err e ↦ resubscribe_failed e ]

module _ {F : Type 0} (json : Json) (env : Env F) where
  -- One turn of the loop, from the counter `resubscribe_count`; an ended loop stays ended.
  unfoldable pub turn : Status → Event → Act World Status
  unfolding resubscribe
  turn (running count) (payload p) = do handle_command_payload json env p; pure (running 0)
  turn (running count) (stream_ended answer) = pure (resubscribe (count + 1) answer)
  turn (running count) shutdown = pure shut_down
  turn ended _ = pure ended

  unfoldable pub run_loop : List Event → Status → Act World Status
  unfolding turn
  run_loop [] status w = (status, w)
  run_loop (event ∷ events) status w =
      let (status', w') = turn status event w in run_loop events status' w'

-- `run`, from the answers to the connection and to the first subscription.
unfoldable pub run :
    {F : Type 0}
    → Json
    → Env F
    → Result (Unit {0}) BrokerError
    → Result (Unit {0}) BrokerError
    → List Event
    → Act World (Result Status BrokerError)
unfolding run_loop
run json env (err e) subscribed events w = (err e, w)
run json env (ok _) subscribed events w =
    let (initial, w') = set_bool env signal_is_locked false w in
    elim initial [
      | err e ↦ (err e, w')
      | ok _ ↦ elim subscribed [
        | err e ↦ (err e, w')
        | ok _ ↦
            let (status, w'') =
              run_loop json env events (running 0) (record w' { lock_state = false }) in
            (ok status, w'')
      ]
    ]
