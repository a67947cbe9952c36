-- ===== src/CloudGatewayClient/Relay/Forwarding.antt =====
-- What the command loop of cloud-gateway-client/src/main.rs writes to the broker.
use parking_fee_service.Prelude.{
  ℕ, String, ◌<>◌, ◌≡◌, ◌↔◌, Option, some, List, [], ◌∷◌, Result, ok, arith, eq_iff, Result-cases,
  inl, inr, Option-cases,
}
use parking_fee_service.Prelude.Dict
use parking_fee_service.Prelude.Dict.{Dict}
use parking_fee_service.CloudGatewayClient.CommandValidator.{
  Json, CommandPayload, validate_bearer_token, validate_command_payload,
}
use parking_fee_service.CloudGatewayClient.CommandValidator.Accepted.{
  IsCommandPayload, validate_command_payload_iff,
}
use parking_fee_service.CloudGatewayClient.Relay.{
  Message, extract_headers, accept, forward_commands,
}

module _ (json : Json) (typed : List ℕ → Result (CommandPayload json.Extra) String)
    (decode : List ℕ → Option String) (bearer_token : String) where
  -- A message that carries the token, and a command whose text is `text`.
  pub record IsGenuine (msg : Message) (text : String) : Type 0 where
    pub bearer :
        Dict.lookup "Authorization" (extract_headers msg) ≡ some ("Bearer " <> bearer_token)
    pub cmd : (c : CommandPayload json.Extra) × IsCommandPayload json typed msg.payload c
    pub text_of : decode msg.payload ≡ some text

  -- Of a list of messages the texts of the genuine ones, in their order, and nothing else.
  pub data Forwards : List Message → List String → Type 0 where
    end : Forwards [] []
    drop :
        (msg : Message) (msgs : List Message) (texts : List String)
        → ((text : String) → IsGenuine msg text → ⊥)
        → Forwards msgs texts
        → Forwards (msg ∷ msgs) texts
    pass :
        (msg : Message) (text : String) (msgs : List Message) (texts : List String)
        → IsGenuine msg text
        → Forwards msgs texts
        → Forwards (msg ∷ msgs) (text ∷ texts)

  validate_bearer_token_iff :
      (headers : Dict String)
      → (validate_bearer_token headers bearer_token ≡ ok tt)
        ↔ (Dict.lookup "Authorization" headers ≡ some ("Bearer " <> bearer_token))
  unfolding validate_bearer_token
  validate_bearer_token_iff headers = elim (Option-cases (Dict.lookup "Authorization" headers)) [
    | inl n ↦ ground arith
    | inr (v, e) ↦ ground (arith, eq_iff v ("Bearer " <> bearer_token))
  ]

  accept-IsGenuine :
      (msg : Message) (text : String)
      → accept json typed decode bearer_token msg ≡ some text
      → IsGenuine msg text
  unfolding accept
  accept-IsGenuine msg text h =
      elim (Result-cases (validate_command_payload json typed msg.payload)) [
        | inl (c, e) ↦ record {
          bearer = (validate_bearer_token_iff (extract_headers msg)).0 (ground arith);
          cmd = (c, (validate_command_payload_iff json typed msg.payload c).0 e);
          text_of = ground arith;
        }
        | inr (x, e) ↦ absurd (ground arith)
      ]

  IsGenuine-accept :
      (msg : Message) (text : String)
      → IsGenuine msg text
      → accept json typed decode bearer_token msg ≡ some text
  unfolding accept
  IsGenuine-accept msg text h = ground (
    arith,
    (validate_bearer_token_iff (extract_headers msg)).1 h.bearer,
    (validate_command_payload_iff json typed msg.payload h.cmd.0).1 h.cmd.1,
  )

  -- The command loop writes to the broker the texts of the messages that carry the bearer token and a
  -- valid command, in their order, and nothing else.
  pub forward_commands-Forwards :
      (msgs : List Message) → Forwards msgs (forward_commands json typed decode bearer_token msgs)
  unfolding forward_commands
  forward_commands-Forwards [] = end
  forward_commands-Forwards (msg ∷ msgs) =
      elim (Option-cases (accept json typed decode bearer_token msg)) [
        | inl n ↦
            rw (n, forward_commands)
              (drop msg msgs (forward_commands json typed decode bearer_token msgs)
                (λ text g. ground (arith, IsGenuine-accept msg text g))
                (forward_commands-Forwards msgs))
        | inr (text, e) ↦
            rw (e, forward_commands)
              (pass msg text msgs (forward_commands json typed decode bearer_token msgs)
                (accept-IsGenuine msg text e) (forward_commands-Forwards msgs))
      ]
