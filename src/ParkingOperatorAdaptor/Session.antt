-- ===== src/ParkingOperatorAdaptor/Session.antt =====
-- rhivos/parking-operator-adaptor/src/session.rs. `F` stands for `f64`, which the adaptor only stores
-- and passes on.
use parking_fee_service.Prelude.{String, Bool, true, false, Option, none, some}
use parking_fee_service.Prelude.Number.{ℤ}

pub record Rate (F : Type 0) : Type 0 where
  pub rate_type : String
  pub amount : F
  pub currency : String

pub record SessionState (F : Type 0) : Type 0 where
  pub session_id : String
  pub zone_id : String
  pub start_time : ℤ
  pub rate : Rate F
  pub active : Bool

pub record Session (F : Type 0) : Type 0 where
  pub state : Option (SessionState F)

-- `Session::new`
unfoldable pub new : (F : Type 0) → Session F
new F = record { state = none }

module _ {F : Type 0} where
  -- `is_active`
  unfoldable pub is_active : Session F → Bool
  is_active s = elim s.state [ none ↦ false | some st ↦ st.active ]

  -- `start`
  unfoldable pub start : String → String → ℤ → Rate F → Session F
  start session_id zone_id start_time rate = record {
    state = some (record {
      session_id = session_id;
      zone_id = zone_id;
      start_time = start_time;
      rate = rate;
      active = true;
    });
  }

  -- `self.state.as_ref().filter(|s| s.active).map(|s| s.session_id.clone())`
  unfoldable pub active_id : Option (SessionState F) → Option String
  active_id none = none
  active_id (some st) = elim st.active [ true ↦ some st.session_id | false ↦ none ]

  -- `stop`
  unfoldable pub stop : Session F → Option String × Session F
  unfolding active_id
  stop s = (active_id s.state, record { state = none })

  -- `status`
  unfoldable pub status : Session F → Option (SessionState F)
  status s = s.state

  -- `rate`
  unfoldable pub rate : Session F → Option (Rate F)
  rate s = elim s.state [ none ↦ none | some st ↦ some st.rate ]
