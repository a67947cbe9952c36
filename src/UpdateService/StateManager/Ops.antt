-- ===== src/UpdateService/StateManager/Ops.antt =====
-- The three ways in which the tasks change the state manager, as one type, and runs of them. Since
-- each method holds the mutex, every interleaving of the tasks is such a run.
use parking_fee_service.Prelude.{String, ◌≡◌, Option, List, [], ◌∷◌}
use parking_fee_service.UpdateService.Adapter.{AdapterState, unknown, AdapterEntry}
use parking_fee_service.UpdateService.StateManager.{
  Clock, StateManager, create_adapter, transition, remove_adapter,
}

pub data Op : Type 0 where
  create : AdapterEntry → Op
  move : Clock → String → AdapterState → Option String → Op
  delete : String → Op

unfoldable pub apply : Op → StateManager → StateManager
apply (create entry) m = create_adapter entry m
apply (move clock id st msg) m = (transition clock id st msg m).1
apply (delete id) m = (remove_adapter id m).1

unfoldable pub apply_all : List Op → StateManager → StateManager
unfolding apply
apply_all [] m = m
apply_all (op ∷ ops) m = apply_all ops (apply op m)

-- `install_adapter` is the only caller of `create_adapter`, and creates entries in state UNKNOWN.
abbrev pub IsFromProgram : Op → Type 0
IsFromProgram (create entry) = entry.state ≡ unknown
IsFromProgram (move _ _ _ _) = Unit
IsFromProgram (delete _) = Unit
