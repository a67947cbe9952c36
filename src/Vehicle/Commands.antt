-- ===== src/Vehicle/Commands.antt =====
-- Commands from the cloud to the locking service, and its responses back.
use mathlib.Core.List.{append-nil, append_assoc}
use parking_fee_service.Prelude.{
  ◌≡◌, refl, String, Bool, true, false, List, [], ◌∷◌, ◌++◌, merge, Result, ok, err, arith, ◌∙◌, ap,
  if◌then◌else◌, ℕ, Option, sym, inl, inr, Option-cases, Result-cases,
}
use parking_fee_service.Prelude.Signals
use parking_fee_service.Prelude.Signals.{
  TypedValue, string_value, bool_value, float_value, double_value, Item, Publication, Delivers,
  values, published, published-append, published-merge_left, published-merge_right, texts,
}
use parking_fee_service.LockingService.Broker
use parking_fee_service.LockingService.Broker.{
  Request, read_float, read_bool, wrote_bool, wrote_string, forward_strings, BrokerError,
}
use parking_fee_service.LockingService.Safety.{Env, World}
use parking_fee_service.LockingService.Service.{Json, Event, run}
use parking_fee_service.LockingService.Service.Writes.{
  IsOwn, publications, published_command, run-IsOwn,
}
use parking_fee_service.CloudGatewayClient.BrokerClient.{
  write_command, forward_responses, signal_response,
}
use parking_fee_service.CloudGatewayClient.CommandValidator
use parking_fee_service.CloudGatewayClient.CommandValidator.{CommandPayload}
use parking_fee_service.CloudGatewayClient.Relay.{
  Message, accept, forward_commands, write_accepted, command_loop,
}
use parking_fee_service.Vehicle.Streams.{forward_strings-values, forward_responses-values}

-- The texts of the service's responses that were written, oldest first.
abbrev pub responses : List Request → List String
responses [] = []
responses (read_float _ ∷ log) = responses log
responses (read_bool _ ∷ log) = responses log
responses (wrote_bool _ _ _ ∷ log) = responses log
responses (wrote_string _ text done ∷ log) = responses log ++ (if done then text ∷ [] else [])

module _ {F : Type 0} where
  texts-append : (vs ws : List (TypedValue F)) → texts (vs ++ ws) ≡ texts vs ++ texts ws
  texts-append [] ws = refl
  texts-append (string_value s ∷ vs) ws = ground (arith, texts-append vs ws)
  texts-append (bool_value _ ∷ vs) ws = texts-append vs ws
  texts-append (float_value _ ∷ vs) ws = texts-append vs ws
  texts-append (double_value _ ∷ vs) ws = texts-append vs ws
  texts-append (Signals.other_value ∷ vs) ws = texts-append vs ws

  abbrev commands : List String → List (Publication F)
  commands [] = []
  commands (text ∷ rest) = (Broker.signal_command, string_value text) ∷ commands rest

  commands_elsewhere : (sent : List String) → published signal_response (commands sent) ≡ []
  commands_elsewhere [] = refl
  commands_elsewhere (text ∷ rest) = commands_elsewhere rest

  module _ (publish : String → TypedValue F → Result (Unit {0}) String) where
    -- The texts that the broker takes as commands.
    abbrev pub taken : List String → List String
    taken [] = []
    taken (text ∷ rest) = elim (publish Broker.signal_command (string_value text)) [
      | ok _ ↦ text ∷ taken rest
      | err _ ↦ taken rest
    ]

    write_command-commands :
        (text : String) (rest : List String) (pubs : List (Publication F))
        → (write_command publish text pubs).1 ++ commands (taken rest)
          ≡ pubs ++ commands (taken (text ∷ rest))
    unfolding write_command
    write_command-commands text rest pubs =
        elim (Result-cases (publish Broker.signal_command (string_value text))) [
          | inl (_, done) ↦
              rw (done, taken)
                (append_assoc pubs ((Broker.signal_command, string_value text) ∷ [])
                  (commands (taken rest)))
          | inr (e, failed) ↦ rw (failed, taken) refl
        ]

    module _ (json : CommandValidator.Json)
        (typed : List ℕ → Result (CommandPayload json.Extra) String)
        (decode : List ℕ → Option String) (bearer_token : String) where
      -- The loop publishes the accepted texts, unchanged, as commands, and nothing else.
      command_loop-commands :
          (messages : List Message) (pubs : List (Publication F))
          → (command_loop json typed decode bearer_token publish messages pubs).1
            ≡ pubs ++ commands (taken (forward_commands json typed decode bearer_token messages))
      unfolding command_loop forward_commands write_accepted
      command_loop-commands [] pubs = sym (append-nil pubs)
      command_loop-commands (msg ∷ messages) pubs =
          elim (Option-cases (accept json typed decode bearer_token msg)) [
            | inl skipped ↦ rw (skipped, forward_commands) (command_loop-commands messages pubs)
            | inr (text, accepted) ↦
                rw (accepted, forward_commands)
                  (command_loop-commands messages (write_command publish text pubs).1
                    ∙ write_command-commands text
                        (forward_commands json typed decode bearer_token messages) pubs)
          ]

-- What one write of the service adds to the responses.
response_of_bool :
    (F : Type 0) (v done : Bool)
    → texts (
        published {F = F} signal_response
          (if done then (Broker.signal_is_locked, bool_value v) ∷ [] else []))
      ≡ []
response_of_bool F v true = refl
response_of_bool F v false = refl

response_of_string :
    (F : Type 0) (s : String) (done : Bool)
    → texts (
        published {F = F} signal_response
          (if done then (signal_response, string_value s) ∷ [] else []))
      ≡ (if done then s ∷ [] else [])
response_of_string F s true = refl
response_of_string F s false = refl

commands-texts :
    (F : Type 0) (sent : List String)
    → texts {F = F} (published Broker.signal_command (commands sent)) ≡ sent
commands-texts F [] = refl
commands-texts F (text ∷ rest) = ap (λ xs. text ∷ xs) (commands-texts F rest)

responses-texts :
    (F : Type 0) (log : List Request)
    → IsOwn log
    → texts {F = F} (published signal_response (publications log)) ≡ responses log
responses-texts F [] o = refl
responses-texts F (read_float _ ∷ log) o = responses-texts F log o
responses-texts F (read_bool _ ∷ log) o = responses-texts F log o
responses-texts F (wrote_bool signal v done ∷ log) o =
    let added : List (Publication F) =
      if done then (Broker.signal_is_locked, bool_value v) ∷ [] else [] in
    rw
      (
        o.0,
        published-append signal_response (publications log) added,
        texts-append (published signal_response (publications log))
            (published signal_response added),
        response_of_bool F v done,
        append-nil (texts (published {F = F} signal_response (publications log))),
      )
      (responses-texts F log o.1)
responses-texts F (wrote_string signal s done ∷ log) o =
    let added : List (Publication F) =
      if done then (signal_response, string_value s) ∷ [] else [] in
    rw
      (
        o.0,
        published-append signal_response (publications log) added,
        texts-append (published signal_response (publications log))
            (published signal_response added),
        response_of_string F s done,
        responses-texts F log o.1,
      )
      refl

-- The gateway's command loop goes over the messages from the cloud, and a locking service that has asked the
-- broker for nothing before goes over its events; the broker answers the gateway's publications by path and value.
-- What the two publish meets in any order in a broker that delivers what is published. Whatever the locking
-- service meets, its subscription gives it exactly the texts of the messages with the bearer token and a valid
-- command, unchanged, each once and in order, less those that the broker has refused; and the gateway's subscription
-- gives exactly the responses that the locking service has written, in order.
pub commands_responses_arrive :
    {F G : Type 0} (publish : String → TypedValue F → Result (Unit {0}) String)
    (gateway : CommandValidator.Json)
    (typed : List ℕ → Result (CommandPayload gateway.Extra) String)
    (decode : List ℕ → Option String) (bearer_token : String) (messages : List Message)
    (json : Json) (env : Env G) (connected subscribed : Result (Unit {0}) BrokerError)
    (events : List Event) (w : World) (order : List Bool)
    (deliver : List (Publication F) → String → List (Item F))
    → w.log ≡ []
    → Delivers deliver
    → let pubs =
        merge order
          (command_loop gateway typed decode bearer_token publish messages []).1
          (publications (run json env connected subscribed events w).1.log) in
      (forward_strings Broker.signal_command (deliver pubs Broker.signal_command)
        ≡ taken publish (forward_commands gateway typed decode bearer_token messages))
      × (forward_responses (deliver pubs signal_response)
          ≡ responses (run json env connected subscribed events w).1.log)
commands_responses_arrive {F = F} publish gateway typed decode bearer_token messages json env
      connected subscribed events w order deliver fresh delivers =
    let w' : World = (run json env connected subscribed events w).1 in
    let own : IsOwn w'.log = run-IsOwn json env connected subscribed events w fresh in
    let sent = taken publish (forward_commands gateway typed decode bearer_token messages) in
    let xs : List (Publication F) = commands sent in
    let ys : List (Publication F) = publications w'.log in
    let pubs : List (Publication F) = merge order xs ys in
    rw (command_loop-commands publish gateway typed decode bearer_token messages []) (
      forward_strings-values Broker.signal_command (deliver pubs Broker.signal_command)
          ∙ (ap texts (
                delivers.at pubs Broker.signal_command
                ∙ published-merge_left order Broker.signal_command xs ys
                    (published_command w'.log own))
              ∙ commands-texts F sent),
      forward_responses-values (deliver pubs signal_response)
          ∙ (ap texts (
                delivers.at pubs signal_response
                ∙ published-merge_right order signal_response xs ys (commands_elsewhere sent))
              ∙ responses-texts F w'.log own),
    )
