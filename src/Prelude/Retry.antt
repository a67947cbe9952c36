-- ===== src/Prelude/Retry.antt =====
-- The connection loop that three of the services write out: up to `rounds` attempts, and a pause after
-- each failed attempt but the last. Each service gives its own number of attempts and its own pauses.
use parking_fee_service.Prelude.Base.{
  ℕ, zero, suc, ◌+◌, ◌-◌, Option, none, some, List, [], ◌∷◌, Result, ok, err, ltb, if◌then◌else◌,
}

-- What the loop does, in order: attempts, pauses, and an index out of range (a panic in Rust).
pub data Step : Type 0 where
  attempt : ℕ → Step
  pause : ℕ → Step
  out_of_range : Step

-- The pause that a table of delays gives.
abbrev pub pause_of : Option ℕ → Step
pause_of none = out_of_range
pause_of (some d) = pause d

-- The result of the loop beside what it did. `last` is the latest error, as a text.
module _ {ℓ κ} {C : Type ℓ} {E : Type κ} (max : ℕ) (delay : ℕ → Option ℕ)
    (try : ℕ → Result C E) where
  unfoldable pub connect_from : ℕ → ℕ → Option E → Result C (Option E) × List Step
  connect_from zero k last = (err last, [])
  connect_from (suc rounds) k last = elim (try k) [
    | ok c ↦ (ok c, attempt k ∷ [])
    | err e ↦
        let (r, steps) = connect_from rounds (k + 1) (some e) in
        (r, attempt k ∷ (if ltb k (max - 1) then pause_of (delay k) ∷ steps else steps))
  ]

  unfoldable pub connect : Result C (Option E) × List Step
  unfolding connect_from
  connect = connect_from max 0 none
