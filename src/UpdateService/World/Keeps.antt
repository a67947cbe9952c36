-- ===== src/UpdateService/World/Keeps.antt =====
-- Actions that keep a property of the state manager, one rule for each way to build an action.
use parking_fee_service.Prelude.{
  String, ◌≡◌, Bool, true, false, Option, Act, ◌>>=◌, pure, if◌then◌else◌,
}
use parking_fee_service.UpdateService.Adapter.{AdapterState, unknown, AdapterEntry}
use parking_fee_service.UpdateService.StateManager.{StateManager}
use parking_fee_service.UpdateService.StateManager.Ops.{
  Op, create, move, delete, IsFromProgram, apply,
}
use parking_fee_service.UpdateService.World.{
  Env, World, Spawned, pull, inspect_digest, run, stop, rm, rmi, wait, transition, create_adapter,
  remove_adapter, gets, spawn,
}

pub record Keeps {ℓ} {A : Type ℓ} (P : StateManager → Type 0) (act : Act World A) : Type 0 where
  pub at : (w : World) → P w.mgr → P (act w).1.mgr

-- A property that every operation of the program keeps.
abbrev pub IsStable : (StateManager → Type 0) → Type 0
IsStable P = (op : Op) (m : StateManager) → IsFromProgram op → P m → P (apply op m)

-- An operation that creates nothing.
abbrev pub IsUpdate : Op → Type 0
IsUpdate (create _) = ⊥
IsUpdate (move _ _ _ _) = Unit
IsUpdate (delete _) = Unit

-- A property that every operation keeps but the creation of an entry.
abbrev pub IsSteady : (StateManager → Type 0) → Type 0
IsSteady P = (op : Op) (m : StateManager) → IsUpdate op → P m → P (apply op m)

pub IsStable-IsSteady : {P : StateManager → Type 0} → IsStable P → IsSteady P
IsStable-IsSteady stable (create entry) m never h = absurd never
IsStable-IsSteady stable (move clock id st msg) m _ h = stable (move clock id st msg) m tt h
IsStable-IsSteady stable (delete id) m _ h = stable (delete id) m tt h

module _ {ℓ κ} {A : Type ℓ} {B : Type κ} {P : StateManager → Type 0} where
  pub Keeps-bind :
      (m : Act World A) (f : A → Act World B)
      → Keeps P m
      → ((a : A) → Keeps P (f a))
      → Keeps P (m >>= f)
  Keeps-bind m f km kf = record { at = λ w h. (kf (m w).0).at (m w).1 (km.at w h) }

module _ {ℓ} {A : Type ℓ} {P : StateManager → Type 0} where
  pub Keeps-pure : (a : A) → Keeps {A = A} P (pure a)
  Keeps-pure a = record { at = λ w h. h }

  pub Keeps-gets : (f : StateManager → A) → Keeps P (gets f)
  unfolding gets
  Keeps-gets f = record { at = λ w h. h }

  pub Keeps-if :
      (b : Bool) (m n : Act World A) → Keeps P m → Keeps P n → Keeps P (if b then m else n)
  Keeps-if true m n km kn = km
  Keeps-if false m n km kn = kn

module _ {P : StateManager → Type 0} (env : Env) where
  pub Keeps-pull : (image_ref : String) → Keeps P (pull env image_ref)
  unfolding pull
  Keeps-pull image_ref = record { at = λ w h. h }

  pub Keeps-inspect_digest : (image_ref : String) → Keeps P (inspect_digest env image_ref)
  unfolding inspect_digest
  Keeps-inspect_digest image_ref = record { at = λ w h. h }

  pub Keeps-run : (id image_ref : String) → Keeps P (run env id image_ref)
  unfolding run
  Keeps-run id image_ref = record { at = λ w h. h }

  pub Keeps-stop : (id : String) → Keeps P (stop env id)
  unfolding stop
  Keeps-stop id = record { at = λ w h. h }

  pub Keeps-rm : (id : String) → Keeps P (rm env id)
  unfolding rm
  Keeps-rm id = record { at = λ w h. h }

  pub Keeps-rmi : (image_ref : String) → Keeps P (rmi env image_ref)
  unfolding rmi
  Keeps-rmi image_ref = record { at = λ w h. h }

  pub Keeps-wait : (id : String) → Keeps P (wait env id)
  unfolding wait
  Keeps-wait id = record { at = λ w h. h }

  pub Keeps-transition :
      IsSteady P
      → (id : String) (st : AdapterState) (msg : Option String) → Keeps P (transition env id st msg)
  unfolding transition apply
  Keeps-transition steady id st msg = record {
    at = λ w h. steady (move (env.clock w.reads) id st msg) w.mgr tt h;
  }

module _ {P : StateManager → Type 0} where
  pub Keeps-spawn : (task : Spawned) → Keeps P (spawn task)
  unfolding spawn
  Keeps-spawn task = record { at = λ w h. h }

  pub Keeps-create_adapter :
      IsStable P → (entry : AdapterEntry) → entry.state ≡ unknown → Keeps P (create_adapter entry)
  unfolding create_adapter apply
  Keeps-create_adapter stable entry fresh = record {
    at = λ w h. stable (create entry) w.mgr fresh h;
  }

  pub Keeps-remove_adapter : IsSteady P → (id : String) → Keeps P (remove_adapter id)
  unfolding remove_adapter apply
  Keeps-remove_adapter steady id = record { at = λ w h. steady (delete id) w.mgr tt h }

pub ruleset keeps_rules = (
  Keeps-bind, Keeps-pure, Keeps-gets, Keeps-if, Keeps-pull, Keeps-inspect_digest, Keeps-run,
  Keeps-stop, Keeps-rm, Keeps-rmi, Keeps-wait, Keeps-transition, Keeps-spawn, Keeps-create_adapter,
  Keeps-remove_adapter,
)
