-- ===== src/LockingService/Service/Resubscription.antt =====
-- How often the loop of locking-service/src/main.rs subscribes again.
use parking_fee_service.Prelude.{
  ℕ, zero, suc, ◌+◌, ◌≤◌, String, ◌≡◌, refl, List, [], ◌∷◌, ok, arith, ltb, if◌then◌else◌,
  Bool-cases, inl, inr,
}
use parking_fee_service.LockingService.Safety.{Env, World}
use parking_fee_service.LockingService.Service.{
  Json, Event, payload, stream_ended, Status, running, subscription_lost, resubscribe, turn,
  run_loop, handle_command_payload,
}

-- The stream ends so often without a payload, and each new subscription succeeds.
abbrev pub ends : ℕ → List Event
ends zero = []
ends (suc n) = stream_ended (ok tt) ∷ ends n

abbrev pub after_ends : ℕ → Status
after_ends n = if ltb 3 n then subscription_lost else running n

module _ {F : Type 0} (json : Json) (env : Env F) where
  stays_lost :
      (n : ℕ) (w : World) → run_loop json env (ends n) subscription_lost w ≡ (subscription_lost, w)
  unfolding run_loop turn
  stays_lost zero w = refl
  stays_lost (suc n) w = stays_lost n w

  run_loop-ends :
      (n count : ℕ) (w : World)
      → count ≤ 3
      → run_loop json env (ends n) (running count) w ≡ (after_ends (count + n), w)
  unfolding run_loop turn resubscribe
  run_loop-ends zero count w h = ground arith
  run_loop-ends (suc n) count w h = elim (Bool-cases (ltb 3 (count + 1))) [
    | inl over ↦ ground (arith, stays_lost n w)
    | inr under ↦ ground (arith, run_loop-ends n (count + 1) w (ground arith))
  ]

  -- After a payload the stream may end three times in a row: each time the loop subscribes again and
  -- goes on, and the payload's effects stay. At the fourth end in a row it gives the subscription up,
  -- and stays so.
  pub run_loop_resubscribes :
      (p : String) (n count : ℕ) (w : World)
      → run_loop json env (payload p ∷ ends n) (running count) w
        ≡ (after_ends n, (handle_command_payload json env p w).1)
  unfolding run_loop turn
  run_loop_resubscribes p n count w =
      ground (arith, run_loop-ends n 0 (handle_command_payload json env p w).1 (omega arith))
