-- ===== src/UpdateService/World/Laws.antt =====
-- What the tasks' actions do to the entry of every identifier.
use mathlib.Core.Option
use parking_fee_service.Prelude.{
  String, ◌≡◌, Option, none, some, if◌then◌else◌, arith, ◌==◌, eq_iff, false,
}
use parking_fee_service.UpdateService.Adapter.{AdapterState, AdapterEntry}
use parking_fee_service.UpdateService.StateManager.{enter, get_adapter}
use parking_fee_service.UpdateService.StateManager.Laws.{
  get_adapter-transition, get_adapter-create_adapter, get_adapter-remove_adapter,
}
use parking_fee_service.UpdateService.World.{Env, World, transition, create_adapter, remove_adapter}

-- The entry that the service has under an identifier.
abbrev pub entry : String → World → Option AdapterEntry
entry id w = get_adapter id w.mgr

module _ (env : Env) (id j : String) (st : AdapterState) (msg : Option String) (w : World) where
  pub entry-transition :
      entry j (transition env id st msg w).1
      ≡ (if id == j then Option.map (enter (env.clock w.reads) st msg) (entry id w) else entry j w)
  unfolding transition
  entry-transition = get_adapter-transition (env.clock w.reads) id j st msg w.mgr

-- The adapter that a transition is about.
pub entry-transition_self :
    (env : Env) (id : String) (st : AdapterState) (msg : Option String) (w : World)
    (e : AdapterEntry)
    → entry id w ≡ some e
    → entry id (transition env id st msg w).1 ≡ some (enter (env.clock w.reads) st msg e)
entry-transition_self env id st msg w e found =
    ground (arith, entry-transition env id id st msg w, eq_iff id id)

-- Any other adapter.
pub entry-transition_other :
    (env : Env) (id j : String) (st : AdapterState) (msg : Option String) (w : World)
    → (id == j) ≡ false
    → entry j (transition env id st msg w).1 ≡ entry j w
entry-transition_other env id j st msg w other = ground (arith, entry-transition env id j st msg w)

pub entry-create_adapter :
    (fresh : AdapterEntry) (j : String) (w : World)
    → entry j (create_adapter fresh w).1 ≡ (if fresh.adapter_id == j then some fresh else entry j w)
unfolding create_adapter
entry-create_adapter fresh j w = get_adapter-create_adapter fresh j w.mgr

pub entry-remove_adapter :
    (id j : String) (w : World)
    → entry j (remove_adapter id w).1 ≡ (if id == j then none else entry j w)
unfolding remove_adapter
entry-remove_adapter id j w = get_adapter-remove_adapter id j w.mgr

pub entry-remove_adapter_self : (id : String) (w : World) → entry id (remove_adapter id w).1 ≡ none
entry-remove_adapter_self id w = ground (arith, entry-remove_adapter id id w, eq_iff id id)

pub entry-remove_adapter_other :
    (id j : String) (w : World) → (id == j) ≡ false → entry j (remove_adapter id w).1 ≡ entry j w
entry-remove_adapter_other id j w other = ground (arith, entry-remove_adapter id j w)
