-- ===== src/Vehicle/Streams.antt =====
-- What the subscriptions of the services forward of a stream: the values of their path, in order.
use parking_fee_service.Prelude.{
  ◌≡◌, refl, String, Option, none, some, List, [], ◌∷◌, ◌++◌, ok, err,
}
use parking_fee_service.Prelude.Dict
use parking_fee_service.Prelude.Signals
use parking_fee_service.Prelude.Signals.{
  TypedValue, bool_value, string_value, float_value, double_value, Item, values, value_of, texts,
  bools,
}
use parking_fee_service.LockingService.Broker
use parking_fee_service.CloudGatewayClient.BrokerClient
use parking_fee_service.LockingService.Broker.{forward_strings}
use parking_fee_service.ParkingOperatorAdaptor.Broker.{forward_bools, bool_of}
use parking_fee_service.CloudGatewayClient.BrokerClient.{forward_responses, signal_response}

module _ {F : Type 0} where
  forward_bools_entry :
      (entry : Option (Option (TypedValue F))) (vs : List (TypedValue F))
      → bool_of entry ++ bools vs ≡ bools (value_of entry ++ vs)
  forward_bools_entry none vs = refl
  forward_bools_entry (some none) vs = refl
  forward_bools_entry (some (some (bool_value b))) vs = refl
  forward_bools_entry (some (some (string_value s))) vs = refl
  forward_bools_entry (some (some (float_value f))) vs = refl
  forward_bools_entry (some (some (double_value f))) vs = refl
  forward_bools_entry (some (some Signals.other_value)) vs = refl

  pub forward_bools-values :
      (path : String) (items : List (Item F)) → forward_bools path items ≡ bools (values path items)
  unfolding forward_bools
  forward_bools-values path [] = refl
  forward_bools-values path (err e ∷ items) = refl
  forward_bools-values path (ok entries ∷ items) =
      rw (forward_bools-values path items)
        (forward_bools_entry (Dict.lookup path entries) (values path items))

  forward_strings_entry :
      (entry : Option (Option (TypedValue F))) (vs : List (TypedValue F))
      → Broker.string_of entry ++ texts vs ≡ texts (value_of entry ++ vs)
  forward_strings_entry none vs = refl
  forward_strings_entry (some none) vs = refl
  forward_strings_entry (some (some (bool_value b))) vs = refl
  forward_strings_entry (some (some (string_value s))) vs = refl
  forward_strings_entry (some (some (float_value f))) vs = refl
  forward_strings_entry (some (some (double_value f))) vs = refl
  forward_strings_entry (some (some Signals.other_value)) vs = refl

  pub forward_strings-values :
      (path : String) (items : List (Item F))
      → forward_strings path items ≡ texts (values path items)
  unfolding forward_strings
  forward_strings-values path [] = refl
  forward_strings-values path (err e ∷ items) = refl
  forward_strings-values path (ok entries ∷ items) =
      rw (forward_strings-values path items)
        (forward_strings_entry (Dict.lookup path entries) (values path items))

  forward_responses_entry :
      (entry : Option (Option (TypedValue F))) (vs : List (TypedValue F))
      → BrokerClient.string_of entry ++ texts vs ≡ texts (value_of entry ++ vs)
  forward_responses_entry none vs = refl
  forward_responses_entry (some none) vs = refl
  forward_responses_entry (some (some (bool_value b))) vs = refl
  forward_responses_entry (some (some (string_value s))) vs = refl
  forward_responses_entry (some (some (float_value f))) vs = refl
  forward_responses_entry (some (some (double_value f))) vs = refl
  forward_responses_entry (some (some Signals.other_value)) vs = refl

  pub forward_responses-values :
      (items : List (Item F)) → forward_responses items ≡ texts (values signal_response items)
  unfolding forward_responses
  forward_responses-values [] = refl
  forward_responses-values (err e ∷ items) = refl
  forward_responses-values (ok entries ∷ items) =
      rw (forward_responses-values items) (
        forward_responses_entry (Dict.lookup signal_response entries)
          (values signal_response items))
