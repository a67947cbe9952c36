-- ===== src/UpdateService/Pool/Attended/Unsettled.antt =====
-- Adapters that are on their way to another state, and what the actions do to that.
use parking_fee_service.Prelude.{
  String, ◌≡◌, Bool, true, false, not, Option, none, some, if◌then◌else◌, arith, ◌==◌, Option-cases,
  inl, inr,
}
use parking_fee_service.UpdateService.Adapter.{AdapterState, AdapterEntry, stopped, error, state_eq}
use parking_fee_service.UpdateService.StateManager.{enter}
use parking_fee_service.UpdateService.World.{Env, World, transition, create_adapter, remove_adapter}
use parking_fee_service.UpdateService.World.Laws.{
  entry, entry-transition, entry-create_adapter, entry-remove_adapter,
}

-- STOPPED and ERROR, the states in which an adapter may rest.
unfoldable pub is_final : AdapterState → Bool
unfolding state_eq
is_final st = if state_eq st stopped then true else state_eq st error

-- The service has an entry under the identifier, in another state.
unfoldable pub unsettled : String → World → Bool
unfolding is_final
unsettled j w = elim (entry j w) [ none ↦ false | some e ↦ not (is_final e.state) ]

module _ (env : Env) (id j : String) (st : AdapterState) (msg : Option String) (w : World) where
  -- A transition to a final state settles its adapter, and no other.
  pub unsettled-transition_final :
      is_final st ≡ true
      → unsettled j (transition env id st msg w).1 ≡ (if id == j then false else unsettled j w)
  unfolding unsettled enter
  unsettled-transition_final f = elim (Option-cases (entry id w)) [
    | inl missing ↦ ground (arith, entry-transition env id j st msg w)
    | inr (e, found) ↦ ground (arith, entry-transition env id j st msg w)
  ]

  -- Any transition is about its adapter only.
  pub unsettled-transition_other :
      (id == j) ≡ false → unsettled j (transition env id st msg w).1 ≡ unsettled j w
  unfolding unsettled
  unsettled-transition_other other = ground (arith, entry-transition env id j st msg w)

pub unsettled-create_adapter_other :
    (fresh : AdapterEntry) (j : String) (w : World)
    → (fresh.adapter_id == j) ≡ false
    → unsettled j (create_adapter fresh w).1 ≡ unsettled j w
unfolding unsettled
unsettled-create_adapter_other fresh j w other = ground (arith, entry-create_adapter fresh j w)

pub unsettled-remove_adapter :
    (id j : String) (w : World)
    → unsettled j (remove_adapter id w).1 ≡ (if id == j then false else unsettled j w)
unfolding unsettled
unsettled-remove_adapter id j w = ground (arith, entry-remove_adapter id j w)
