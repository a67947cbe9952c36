-- ===== src/CloudGatewayClient/Telemetry/Shown.antt =====
-- What the subscribers of cloud-gateway-client/src/telemetry.rs are shown.
use parking_fee_service.Prelude.{
  ℕ, String, ◌≡◌, refl, ◌⊎◌, inl, inr, Option, some, none, List, [], ◌∷◌, true, false, Bool, arith,
  if◌then◌else◌, Bool-cases, ◌∙◌,
}
use parking_fee_service.CloudGatewayClient.Telemetry.{
  SignalUpdate, is_locked_update, latitude_update, longitude_update, parking_active_update,
  TelemetryMessage, TelemetryState, new, apply, message_of, update, publish_all, differs,
}

module _ {F : Type 0} (eq : F → F → Bool) where
  -- `eq` says that the values are equal, where they are not the same already.
  abbrev pub Agree : Option F → Option F → Type 0
  Agree a b = (a ≡ b) ⊎ ((u : F) × (v : F) × (a ≡ some u) × (b ≡ some v) × (eq u v ≡ true))

  abbrev pub Transitive : Type 0
  Transitive = (u v w : F) → eq u v ≡ true → eq v w ≡ true → eq u w ≡ true

  -- What the last message says, and nothing while there is none, is what the state holds.
  abbrev pub IsShown : Option (TelemetryMessage F) → TelemetryState F → Type 0
  IsShown none s = s ≡ new F s.vin
  IsShown (some m) s =
      (m.vin ≡ s.vin)
      × (m.is_locked ≡ s.is_locked)
      × (m.parking_active ≡ s.parking_active)
      × Agree m.latitude s.latitude
      × Agree m.longitude s.longitude

  -- The last of the payloads, or the one before them.
  abbrev pub last_of : Option String → List String → Option String
  last_of before [] = before
  last_of before (payload ∷ payloads) = last_of (some payload) payloads

  abbrev pub render : (TelemetryMessage F → String) → Option (TelemetryMessage F) → Option String
  render to_json none = none
  render to_json (some m) = some (to_json m)

  Agree-step :
      Transitive → (a b : Option F) (v : F) → Agree a b → differs eq b v ≡ false → Agree a (some v)
  Agree-step trans a none v same new_value = absurd (ground arith)
  Agree-step trans a (some w) v (inl e) new_value = inr (w, v, e, refl, ground arith)
  Agree-step trans a (some w) v (inr (u, x, e, f, g)) new_value =
      inr (u, v, e, refl, ground (arith, trans u w v))

  module _ (to_json : TelemetryMessage F → String) (trans : Transitive) where
    abbrev shown_by :
        ℕ
        → SignalUpdate F
        → TelemetryState F
        → Option (TelemetryMessage F)
        → Option (TelemetryMessage F)
    unfolding apply message_of
    shown_by secs signal s m =
        let (changed, s') = apply eq signal s in if changed then some (message_of eq secs s') else m

    shown_by-IsShown :
        (secs : ℕ) (signal : SignalUpdate F) (s : TelemetryState F)
        (m : Option (TelemetryMessage F))
        → IsShown m s
        → IsShown (shown_by secs signal s m) (update eq to_json secs signal s).1
    unfolding update apply message_of new
    shown_by-IsShown secs (is_locked_update v) s none h = ground arith
    shown_by-IsShown secs (is_locked_update v) s (some m) h = ground arith
    shown_by-IsShown secs (latitude_update v) s none h = ground arith
    shown_by-IsShown secs (latitude_update v) s (some m) h =
        elim (Bool-cases (differs eq s.latitude v)) [
          | inl new_value ↦ ground arith
          | inr old ↦ ground (arith, Agree-step trans m.latitude s.latitude v h.3 old)
        ]
    shown_by-IsShown secs (longitude_update v) s none h = ground arith
    shown_by-IsShown secs (longitude_update v) s (some m) h =
        elim (Bool-cases (differs eq s.longitude v)) [
          | inl new_value ↦ ground arith
          | inr old ↦ ground (arith, Agree-step trans m.longitude s.longitude v h.4 old)
        ]
    shown_by-IsShown secs (parking_active_update v) s none h = ground arith
    shown_by-IsShown secs (parking_active_update v) s (some m) h = ground arith

    last_of_sent :
        (changed : Bool) (m : Option (TelemetryMessage F)) (n : TelemetryMessage F)
        (payloads : List String)
        → last_of (render to_json m) (elim (if changed then some (to_json n) else none) [
          | none ↦ payloads
          | some payload ↦ payload ∷ payloads
        ])
          ≡ last_of (render to_json (if changed then some n else m)) payloads
    last_of_sent true m n payloads = refl
    last_of_sent false m n payloads = refl

    publish_all-IsShown :
        (updates : List (ℕ × SignalUpdate F)) (s : TelemetryState F)
        (m : Option (TelemetryMessage F))
        → IsShown m s
        → (m' : Option (TelemetryMessage F)) × (last_of
              (render to_json m)
              (publish_all eq to_json updates s).0
            ≡ render to_json m')
          × IsShown m' (publish_all eq to_json updates s).1
    unfolding publish_all
    publish_all-IsShown [] s m h = (m, refl, h)
    publish_all-IsShown ((secs, signal) ∷ rest) s m h =
        let (m', e, i) =
          publish_all-IsShown rest (update eq to_json secs signal s).1 (shown_by secs signal s m)
            (shown_by-IsShown secs signal s m h) in
        (
          m',
          last_of_sent (apply eq signal s).0 m (message_of eq secs (apply eq signal s).1)
                (publish_all eq to_json rest (update eq to_json secs signal s).1).0
              ∙ e,
          i,
        )

  -- For updates that come to a fresh state: if the equality of numbers is transitive, the last payload
  -- that is published, if there is one, renders a message with the values that the state holds in the
  -- end, where two numbers may differ that the equality takes for equal; and if nothing is published,
  -- the state is still fresh.
  pub publish_all_shows :
      (to_json : TelemetryMessage F → String) (vin : String) (updates : List (ℕ × SignalUpdate F))
      → Transitive
      → (m : Option (TelemetryMessage F)) × (last_of none
            (publish_all eq to_json updates (new F vin)).0
          ≡ render to_json m)
        × IsShown m (publish_all eq to_json updates (new F vin)).1
  unfolding new
  publish_all_shows to_json vin updates trans =
      publish_all-IsShown to_json trans updates (new F vin) none refl
