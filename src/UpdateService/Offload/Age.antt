-- ===== src/UpdateService/Offload/Age.antt =====
-- When an adapter is old enough for rhivos/update-service/src/offload.rs.
use parking_fee_service.Prelude.{ℕ, ◌≤◌, ◌-◌, ◌≡◌, true, false, some, arith, Option-cases, inl, inr}
use parking_fee_service.UpdateService.Adapter.{AdapterState, AdapterEntry, stopped, state_eq}
use parking_fee_service.UpdateService.StateManager.{is_expired}

-- The adapter is STOPPED, and was so `timeout` ago.
abbrev pub IsOld : ℕ → ℕ → AdapterEntry → Type 0
IsOld now timeout a = (a.state ≡ stopped) × (t : ℕ) × (a.stopped_at ≡ some t) × (timeout ≤ now - t)

stopped_only : (s : AdapterState) → state_eq s stopped ≡ true → s ≡ stopped
unfolding state_eq
stopped_only s h = ground arith

pub is_expired-IsOld :
    (now timeout : ℕ) (a : AdapterEntry) → is_expired now timeout a ≡ true → IsOld now timeout a
unfolding is_expired
is_expired-IsOld now timeout a h = elim (Option-cases a.stopped_at) [
  | inl never ↦ absurd (ground arith)
  | inr (t, at) ↦ (ground (arith, stopped_only a.state), t, at, ground arith)
]

pub is_expired-not_IsOld :
    (now timeout : ℕ) (a : AdapterEntry) → is_expired now timeout a ≡ false → ¬ IsOld now timeout a
unfolding is_expired state_eq
is_expired-not_IsOld now timeout a h old = ground arith
