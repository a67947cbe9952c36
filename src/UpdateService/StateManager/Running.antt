-- ===== src/UpdateService/StateManager/Running.antt =====
-- Which adapters run: what `get_running_adapter` finds, and when at most one runs.
use parking_fee_service.Prelude.{
  subst, sym, String, ◌≡◌, ◌≢◌, ap, true, none, some, [], ◌∷◌, arith, ◌==◌, eq_iff, Bool-cases, inl,
  inr,
}
use parking_fee_service.Prelude.Dict.{Dict, lookup, values, Distinct}
use parking_fee_service.UpdateService.Adapter.{AdapterState, running, state_eq, AdapterEntry}
use parking_fee_service.UpdateService.StateManager.Invariant.{IsValid}
use parking_fee_service.UpdateService.StateManager.{
  StateManager, find_running, get_running_adapter, get_adapter,
}

-- At most one adapter runs.
abbrev pub IsSingle : StateManager → Type 0
IsSingle m =
    (j k : String) (a b : AdapterEntry)
    → get_adapter j m ≡ some a
    → get_adapter k m ≡ some b
    → a.state ≡ running
    → b.state ≡ running
    → j ≡ k

-- No adapter runs.
abbrev pub IsIdle : StateManager → Type 0
IsIdle m = (j : String) (a : AdapterEntry) → get_adapter j m ≡ some a → a.state ≢ running

pub is_running : (s : AdapterState) → state_eq s running ≡ true → s ≡ running
unfolding state_eq
is_running s h = ground arith

find_running-none :
    (d : Dict AdapterEntry) (j : String) (a : AdapterEntry)
    → find_running (values d) ≡ none
    → lookup j d ≡ some a
    → a.state ≢ running
unfolding find_running values lookup state_eq
find_running-none [] j a h found r = cc
find_running-none ((k, b) ∷ d) j a h found r = ground (arith, find_running-none d j a)

pub key_elsewhere :
    (k k' : String) (d : Dict AdapterEntry) (a b : AdapterEntry)
    → lookup k d ≡ none
    → lookup k' d ≡ some a
    → lookup k' ((k, b) ∷ d) ≡ some a
unfolding lookup
key_elsewhere k k' d a b missing found = elim (Bool-cases (k == k')) [
  | inr other ↦ rw other found
  | inl same ↦ absurd (ground (arith, ap (λ j. lookup j d) ((eq_iff k k').0 same)))
]

find_running-some :
    (d : Dict AdapterEntry) (a : AdapterEntry)
    → Distinct d
    → find_running (values d) ≡ some a
    → (k : String) × (a.state ≡ running) × (lookup k d ≡ some a)
unfolding find_running values lookup state_eq
find_running-some [] a distinct h = cc
find_running-some ((k, b) ∷ d) a distinct h = elim (Bool-cases (state_eq b.state running)) [
  | inl this ↦ (k, ground (arith, is_running b.state this), ground (arith, eq_iff k k))
  | inr other ↦
      let (k', r, found) = find_running-some d a distinct.1 (ground arith) in
      (k', r, key_elsewhere k k' d a b distinct.0 found)
]

pub get_running_adapter-none : (m : StateManager) → get_running_adapter m ≡ none → IsIdle m
unfolding get_running_adapter get_adapter
get_running_adapter-none m h j a = find_running-none m.adapters j a h

pub get_running_adapter-some :
    (m : StateManager) (a : AdapterEntry)
    → IsValid m
    → get_running_adapter m ≡ some a
    → (a.state ≡ running) × (get_adapter a.adapter_id m ≡ some a)
unfolding get_running_adapter get_adapter
get_running_adapter-some m a v h =
    let (k, r, found) = find_running-some m.adapters a v.distinct h in
    (r, subst (λ i. lookup i m.adapters ≡ some a) (sym (v.sound k a found).keyed) found)
