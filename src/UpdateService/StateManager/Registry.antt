-- ===== src/UpdateService/StateManager/Registry.antt =====
-- The state manager of rhivos/update-service/src/state.rs against a description by history: an entry is the one
-- that was created last, each of its fields as the last transition that concerns the field left it.
use mathlib.Core.Option
use parking_fee_service.Prelude.{
  ℕ, String, ◌≡◌, refl, sym, Option, none, some, List, [], ◌∷◌, Bool-cases, Option-cases, inl, inr,
  arith, ◌==◌, eq_iff, if◌then◌else◌,
}
use parking_fee_service.UpdateService.Adapter.{
  AdapterState, AdapterEntry, unknown, downloading, installing, running, stopped, error, offloading,
  state_eq,
}
use parking_fee_service.Prelude.Dict.{lookup}
use parking_fee_service.UpdateService.StateManager.{Clock, StateManager, new, get_adapter, enter}
use parking_fee_service.UpdateService.StateManager.Laws.{
  get_adapter-transition, get_adapter-create_adapter, get_adapter-remove_adapter,
}
use parking_fee_service.UpdateService.StateManager.Ops.{Op, create, move, delete, apply, apply_all}

-- The history, latest first, after further operations.
abbrev pub past : List Op → List Op → List Op
past [] earlier = earlier
past (op ∷ ops) earlier = past ops (op ∷ earlier)

module _ (id : String) where
  -- The entry that was created last under the identifier, unless it was deleted since.
  abbrev pub created : List Op → Option AdapterEntry
  created [] = none
  created (create entry ∷ earlier) = if entry.adapter_id == id then some entry else created earlier
  created (move _ _ _ _ ∷ earlier) = created earlier
  created (delete j ∷ earlier) = if j == id then none else created earlier

  -- The state of the last transition since the creation, or that of the creation.
  abbrev pub last_state : AdapterState → List Op → AdapterState
  last_state first [] = first
  last_state first (create entry ∷ earlier) =
      if entry.adapter_id == id then first else last_state first earlier
  last_state first (move _ j st _ ∷ earlier) = if j == id then st else last_state first earlier
  last_state first (delete _ ∷ earlier) = last_state first earlier

  -- The instant of the last transition to STOPPED since the creation.
  abbrev pub last_stop : Option ℕ → List Op → Option ℕ
  last_stop first [] = first
  last_stop first (create entry ∷ earlier) =
      if entry.adapter_id == id then first else last_stop first earlier
  last_stop first (move clock j stopped _ ∷ earlier) =
      if j == id then some clock.instant else last_stop first earlier
  last_stop first (move _ _ _ _ ∷ earlier) = last_stop first earlier
  last_stop first (delete _ ∷ earlier) = last_stop first earlier

  -- The message of the last transition to ERROR since the creation.
  abbrev pub last_message : Option String → List Op → Option String
  last_message first [] = first
  last_message first (create entry ∷ earlier) =
      if entry.adapter_id == id then first else last_message first earlier
  last_message first (move _ j error msg ∷ earlier) =
      if j == id then msg else last_message first earlier
  last_message first (move _ _ _ _ ∷ earlier) = last_message first earlier
  last_message first (delete _ ∷ earlier) = last_message first earlier

  abbrev pub with_past : List Op → AdapterEntry → AdapterEntry
  with_past history entry = record entry {
    state = last_state entry.state history;
    stopped_at = last_stop entry.stopped_at history;
    error_message = last_message entry.error_message history;
  }

  -- What a history says of the identifier.
  abbrev pub told : List Op → Option AdapterEntry
  told history = Option.map (with_past history) (created history)

  -- A transition of the adapter itself, and one of another adapter.
  with_past-move :
      (clock : Clock) (j : String) (st : AdapterState) (msg : Option String) (history : List Op)
      (e : AdapterEntry)
      → with_past (move clock j st msg ∷ history) e
        ≡ (if j == id then enter clock st msg (with_past history e) else with_past history e)
  unfolding enter state_eq
  with_past-move clock j unknown msg history e = ground arith
  with_past-move clock j downloading msg history e = ground arith
  with_past-move clock j installing msg history e = ground arith
  with_past-move clock j running msg history e = ground arith
  with_past-move clock j stopped msg history e = ground arith
  with_past-move clock j error msg history e = ground arith
  with_past-move clock j offloading msg history e = ground arith

  told-create :
      (entry : AdapterEntry) (history : List Op)
      → told (create entry ∷ history)
        ≡ (if entry.adapter_id == id then some entry else told history)
  told-create entry history = elim (Bool-cases (entry.adapter_id == id)) [
    | inl same ↦ ground arith
    | inr other ↦ ground (arith, Option-cases (created history))
  ]

  told-move :
      (clock : Clock) (j : String) (st : AdapterState) (msg : Option String) (history : List Op)
      → told (move clock j st msg ∷ history)
        ≡ (if j == id then Option.map (enter clock st msg) (told history) else told history)
  told-move clock j st msg history = elim (Option-cases (created history)) [
    | inl missing ↦ rw missing (ground arith)
    | inr (e, known) ↦ rw known (ground (arith, with_past-move clock j st msg history e))
  ]

  told-delete :
      (j : String) (history : List Op)
      → told (delete j ∷ history) ≡ (if j == id then none else told history)
  told-delete j history = elim (Bool-cases (j == id)) [
    | inl same ↦ rw same refl
    | inr other ↦ rw other refl
  ]

-- An operation does to the answers what it adds to the history.
apply-told :
    (op : Op) (m : StateManager) (history : List Op)
    → ((id : String) → get_adapter id m ≡ told id history)
    → (id : String) → get_adapter id (apply op m) ≡ told id (op ∷ history)
unfolding apply
apply-told (create entry) m history h id =
    rw (get_adapter-create_adapter entry id m, h id) (sym (told-create id entry history))
apply-told (delete j) m history h id =
    rw (get_adapter-remove_adapter j id m, h id) (sym (told-delete id j history))
apply-told (move clock j st msg) m history h id =
    rw (get_adapter-transition clock j id st msg m, h id, h j, told-move id clock j st msg history)
      (elim (Bool-cases (j == id)) [
        | inl same ↦ rw (same, (eq_iff j id).0 same) refl
        | inr other ↦ rw other refl
      ])

apply_all-told :
    (ops : List Op) (m : StateManager) (history : List Op)
    → ((id : String) → get_adapter id m ≡ told id history)
    → (id : String) → get_adapter id (apply_all ops m) ≡ told id (past ops history)
unfolding apply_all
apply_all-told [] m history h id = h id
apply_all-told (op ∷ ops) m history h id =
    apply_all-told ops (apply op m) (op ∷ history) (apply-told op m history h) id

-- From a new state manager, after any run of creations, transitions and removals, the answer for each identifier is
-- told by the operations alone: there is an entry if one was created and not removed since, and it is the
-- one created last, with the state of its last transition since, the instant of its last transition to
-- STOPPED and the message of its last transition to ERROR, and what it was created with where there
-- was none.
pub apply_all_refines :
    (ops : List Op) (id : String) → get_adapter id (apply_all ops new) ≡ told id (past ops [])
unfolding get_adapter new lookup
apply_all_refines ops id = apply_all-told ops new [] (λ j. refl) id
