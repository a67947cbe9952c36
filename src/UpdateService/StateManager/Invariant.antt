-- ===== src/UpdateService/StateManager/Invariant.antt =====
-- What holds of the state manager between any two of its operations.
use parking_fee_service.Prelude.{
  List, [], ◌∷◌, All, ℕ, String, ◌≡◌, refl, Option, some, Option-cases, Bool-cases, subst, ◌==◌,
  inl, inr, arith, eq_iff,
}
use parking_fee_service.Prelude.Dict.{lookup, Distinct, Distinct-insert, Distinct-remove}
use parking_fee_service.UpdateService.Adapter.{AdapterState, stopped, unknown, AdapterEntry}
use parking_fee_service.UpdateService.StateManager.{
  Clock, StateManager, new, enter, transition, get_adapter, remove_adapter, create_adapter,
}
use parking_fee_service.UpdateService.StateManager.Ops.{
  Op, create, move, delete, apply, apply_all, IsFromProgram,
}
use parking_fee_service.UpdateService.StateManager.Laws.{
  get_adapter-transition, get_adapter-create_adapter, get_adapter-remove_adapter,
}

-- An entry found under a key carries that key, and has a time of stopping if it is stopped.
pub record IsSound (k : String) (entry : AdapterEntry) : Type 0 where
  pub keyed : entry.adapter_id ≡ k
  pub stamped : entry.state ≡ stopped → (t : ℕ) × (entry.stopped_at ≡ some t)

pub record IsValid (m : StateManager) : Type 0 where
  pub distinct : Distinct m.adapters
  pub sound : (k : String) (entry : AdapterEntry) → get_adapter k m ≡ some entry → IsSound k entry

-- A manager is created valid.
pub new-IsValid : IsValid new
unfolding new get_adapter lookup
new-IsValid = record { distinct = tt; sound = λ k entry h. cc }

enter-IsSound :
    (clock : Clock) (st : AdapterState) (msg : Option String) (k : String) (entry : AdapterEntry)
    → IsSound k entry
    → IsSound k (enter clock st msg entry)
unfolding enter
enter-IsSound clock st msg k entry s = record {
  keyed = s.keyed;
  stamped = λ h. (clock.instant, rw h refl);
}

Distinct-transition :
    (clock : Clock) (id : String) (st : AdapterState) (msg : Option String) (m : StateManager)
    → Distinct m.adapters
    → Distinct (transition clock id st msg m).1.adapters
unfolding transition
Distinct-transition clock id st msg m d = elim (Option-cases (lookup id m.adapters)) [
  | inl missing ↦ rw (missing, transition) d
  | inr (entry, found) ↦
      rw (found, transition) (Distinct-insert id (enter clock st msg entry) m.adapters d)
]

Distinct-remove_adapter :
    (id : String) (m : StateManager)
    → Distinct m.adapters
    → Distinct (remove_adapter id m).1.adapters
unfolding remove_adapter
Distinct-remove_adapter id m d = elim (Option-cases (lookup id m.adapters)) [
  | inl missing ↦ rw (missing, remove_adapter) d
  | inr (entry, found) ↦ rw (found, remove_adapter) (Distinct-remove id m.adapters d)
]

IsSound-transition :
    (clock : Clock) (id : String) (st : AdapterState) (msg : Option String) (m : StateManager)
    → IsValid m
    → (j : String) (entry : AdapterEntry)
    → get_adapter j (transition clock id st msg m).1 ≡ some entry
    → IsSound j entry
IsSound-transition clock id st msg m v j entry h = elim (Bool-cases (id == j)) [
  | inr other ↦ v.sound j entry (ground (arith, get_adapter-transition clock id j st msg m))
  | inl same ↦ elim (Option-cases (get_adapter id m)) [
    | inl missing ↦ absurd (ground (arith, get_adapter-transition clock id j st msg m))
    | inr (old, found) ↦
        let same_key : id ≡ j = (eq_iff id j).0 same in
        let moved : enter clock st msg old ≡ entry =
          ground (arith, get_adapter-transition clock id j st msg m) in
        subst (IsSound j) moved (
          enter-IsSound clock st msg j old
            (subst (λ k. IsSound k old) same_key (v.sound id old found)))
  ]
]

IsSound-create_adapter :
    (fresh : AdapterEntry) (m : StateManager)
    → fresh.state ≡ unknown
    → IsValid m
    → (j : String) (entry : AdapterEntry) → get_adapter j (create_adapter fresh m) ≡ some entry
    → IsSound j entry
IsSound-create_adapter fresh m unborn v j entry h = elim (Bool-cases (fresh.adapter_id == j)) [
  | inr other ↦ v.sound j entry (ground (arith, get_adapter-create_adapter fresh j m))
  | inl same ↦
      let created : fresh ≡ entry = ground (arith, get_adapter-create_adapter fresh j m) in
      subst (IsSound j) created
        (record { keyed = (eq_iff fresh.adapter_id j).0 same; stamped = λ stop. cc })
]

IsSound-remove_adapter :
    (id : String) (m : StateManager)
    → IsValid m
    → (j : String) (entry : AdapterEntry) → get_adapter j (remove_adapter id m).1 ≡ some entry
    → IsSound j entry
IsSound-remove_adapter id m v j entry h =
    v.sound j entry (ground (arith, get_adapter-remove_adapter id j m))

pub apply-IsValid :
    (op : Op) (m : StateManager) → IsFromProgram op → IsValid m → IsValid (apply op m)
unfolding apply
apply-IsValid (create fresh) m unborn v = record {
  distinct = unfold create_adapter in Distinct-insert fresh.adapter_id fresh m.adapters v.distinct;
  sound = IsSound-create_adapter fresh m unborn v;
}
apply-IsValid (move clock id st msg) m _ v = record {
  distinct = Distinct-transition clock id st msg m v.distinct;
  sound = IsSound-transition clock id st msg m v;
}
apply-IsValid (delete id) m _ v = record {
  distinct = Distinct-remove_adapter id m v.distinct;
  sound = IsSound-remove_adapter id m v;
}

-- From a valid manager, every run of operations that create adapters in state UNKNOWN only ends in
-- a valid one: no identifier has two entries, every entry stands under its own identifier, and every
-- stopped adapter has a time of stopping.
pub apply_all-IsValid :
    (ops : List Op) (m : StateManager)
    → All IsFromProgram ops
    → IsValid m
    → IsValid (apply_all ops m)
unfolding apply_all
apply_all-IsValid [] m from v = v
apply_all-IsValid (op ∷ ops) m from v =
    apply_all-IsValid ops (apply op m) from.1 (apply-IsValid op m from.0 v)
