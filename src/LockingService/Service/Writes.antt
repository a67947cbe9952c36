-- ===== src/LockingService/Service/Writes.antt =====
-- Which signals the service writes, and what reaches the broker.
use mathlib.Core.List.{append-nil}
use parking_fee_service.Prelude.Signals
use parking_fee_service.Prelude.{
  unwrap_or, ◌≡◌, refl, String, Bool, true, false, Option, none, some, List, [], ◌∷◌, ◌++◌, arith,
  Result, ok, err, Result-cases, inl, inr, ◌∙◌, if◌then◌else◌,
}
use parking_fee_service.Prelude.Signals.{
  TypedValue, bool_value, string_value, Publication, published, published-append, bools, texts,
  float_value, double_value,
}
use parking_fee_service.LockingService.Command.{
  Action, lock, unlock, LockCommand, CommandError, reason, validate_command, invalid_json,
  parse_command, invalid_command, unsupported_door,
}
use parking_fee_service.LockingService.Broker.{
  Request, read_float, read_bool, wrote_bool, wrote_string, BrokerError, signal_is_locked,
  signal_response, signal_command,
}
use parking_fee_service.LockingService.Safety.{Env, World, check_safety, get_float, get_bool}
use parking_fee_service.LockingService.Process.{
  set_bool, now, set_lock_state, process_action, process_command, fail, set_string,
}
use parking_fee_service.LockingService.Service.{
  shutdown, Json, run, after_parse, after_validation, reject, run_loop, publish_failure, turn,
  handle_command_payload, Event, Status, running, payload, stream_ended, extract_command_id,
}
use parking_fee_service.LockingService.Service.Safety.{last_written}

-- The service writes truth values to the lock's signal, and texts to the signal of the responses.
abbrev pub IsOwn : List Request → Type 0
IsOwn [] = Unit
IsOwn (read_float _ ∷ log) = IsOwn log
IsOwn (read_bool _ ∷ log) = IsOwn log
IsOwn (wrote_bool signal _ _ ∷ log) = (signal ≡ signal_is_locked) × IsOwn log
IsOwn (wrote_string signal _ _ ∷ log) = (signal ≡ signal_response) × IsOwn log

module _ {F : Type 0} (json : Json) (env : Env F) where
  process_action-IsOwn :
      (action : Action) (cmd : LockCommand) (w : World)
      → IsOwn w.log
      → IsOwn (process_action env action cmd w).1.log
  unfolding process_action check_safety set_bool now set_lock_state get_float get_bool
  process_action-IsOwn lock cmd w s = ground arith
  process_action-IsOwn unlock cmd w s = ground arith

  publish_failure-IsOwn :
      (id why : String) (w : World) → IsOwn w.log → IsOwn (publish_failure json env id why w).1.log
  unfolding publish_failure fail set_string now
  publish_failure-IsOwn id why w s = (refl, s)

  process_command-IsOwn :
      (cmd : LockCommand) (w : World) → IsOwn w.log → IsOwn (process_command env cmd w).1.log
  unfolding process_command set_string
  process_command-IsOwn cmd w s = (refl, process_action-IsOwn cmd.action cmd w s)

  reject-IsOwn :
      (id : Option String) (e : CommandError) (w : World)
      → IsOwn w.log
      → IsOwn (reject json env id e w).1.log
  unfolding reject
  reject-IsOwn none e w s = s
  reject-IsOwn (some id) e w s = publish_failure-IsOwn id (reason e) w s

  after_parse-IsOwn :
      (text : String) (r : Result LockCommand CommandError) (w : World)
      → IsOwn w.log
      → IsOwn (after_parse json env text r w).1.log
  unfolding after_parse after_validation
  after_parse-IsOwn text (ok cmd) w s = elim (Result-cases (validate_command cmd)) [
    | inl (_, valid) ↦ rw valid (process_command-IsOwn cmd w s)
    | inr (e, refused) ↦ rw refused (publish_failure-IsOwn cmd.command_id (reason e) w s)
  ]
  after_parse-IsOwn text (err (invalid_json msg)) w s = s
  after_parse-IsOwn text (err (invalid_command msg)) w s =
      reject-IsOwn (extract_command_id json text) (invalid_command msg) w s
  after_parse-IsOwn text (err (unsupported_door msg)) w s =
      reject-IsOwn (extract_command_id json text) (unsupported_door msg) w s

  turn-IsOwn :
      (status : Status) (event : Event) (w : World)
      → IsOwn w.log
      → IsOwn (turn json env status event w).1.log
  unfolding turn handle_command_payload
  turn-IsOwn (running count) (payload p) w s =
      after_parse-IsOwn p (parse_command json.from_str p) w s
  turn-IsOwn (running count) (stream_ended answer) w s = s
  turn-IsOwn (running count) shutdown w s = s
  turn-IsOwn _ event w s = s

  run_loop-IsOwn :
      (events : List Event) (status : Status) (w : World)
      → IsOwn w.log
      → IsOwn (run_loop json env events status w).1.log
  unfolding run_loop
  run_loop-IsOwn [] status w s = s
  run_loop-IsOwn (event ∷ events) status w s =
      let (status', w') = turn json env status event w in
      run_loop-IsOwn events status' w' (turn-IsOwn status event w s)

  pub run-IsOwn :
      (connected subscribed : Result (Unit {0}) BrokerError) (events : List Event) (w : World)
      → w.log ≡ []
      → IsOwn (run json env connected subscribed events w).1.log
  unfolding run set_bool
  run-IsOwn (err e) subscribed events w fresh = rw fresh tt
  run-IsOwn (ok _) (err e) events w fresh = rw fresh (ground arith)
  run-IsOwn (ok _) (ok _) events w fresh =
      elim (Result-cases (env.broker.set_bool w.log signal_is_locked false)) [
        | inr (x, failed) ↦ rw failed (refl, rw fresh tt)
        | inl (_, done) ↦ rw done (
            run_loop-IsOwn events (running 0)
              (record w { lock_state = false; log = (set_bool env signal_is_locked false w).1.log })
              (refl, rw fresh tt))
      ]

module _ {F : Type 0} where
  -- What the broker has got, oldest first: the writes that succeeded.
  abbrev pub publications : List Request → List (Publication F)
  publications [] = []
  publications (read_float _ ∷ log) = publications log
  publications (read_bool _ ∷ log) = publications log
  publications (wrote_bool signal v done ∷ log) =
      publications log ++ (if done then (signal, bool_value v) ∷ [] else [])
  publications (wrote_string signal s done ∷ log) =
      publications log ++ (if done then (signal, string_value s) ∷ [] else [])

  -- The service never writes the signal that it takes commands from.
  pub published_command :
      (log : List Request) → IsOwn log → published signal_command (publications log) ≡ []
  published_command [] o = refl
  published_command (read_float _ ∷ log) o = published_command log o
  published_command (read_bool _ ∷ log) o = published_command log o
  published_command (wrote_bool signal v done ∷ log) o =
      rw
        (
          o.0,
          published-append signal_command (publications log)
              (if done then (signal_is_locked, bool_value v) ∷ [] else []),
        )
        (ground (arith, published_command log o.1))
  published_command (wrote_string signal s done ∷ log) o =
      rw
        (
          o.0,
          published-append signal_command (publications log)
              (if done then (signal_response, string_value s) ∷ [] else []),
        )
        (ground (arith, published_command log o.1))

-- No write of the lock has failed.
abbrev pub IsDone : List Request → Type 0
IsDone [] = Unit
IsDone (read_float _ ∷ log) = IsDone log
IsDone (read_bool _ ∷ log) = IsDone log
IsDone (wrote_bool _ _ done ∷ log) = (done ≡ true) × IsDone log
IsDone (wrote_string _ _ _ ∷ log) = IsDone log

-- The last one of some truth values, from a first one.
abbrev pub latest : Bool → List Bool → Bool
latest b [] = b
latest b (c ∷ cs) = latest c cs

latest-append : (b : Bool) (cs : List Bool) (c : Bool) → latest b (cs ++ c ∷ []) ≡ c
latest-append b [] c = refl
latest-append b (d ∷ cs) c = latest-append d cs c

module _ {F : Type 0} where
  bools-append : (vs ws : List (TypedValue F)) → bools (vs ++ ws) ≡ bools vs ++ bools ws
  bools-append [] ws = refl
  bools-append (bool_value b ∷ vs) ws = ground (arith, bools-append vs ws)
  bools-append (string_value _ ∷ vs) ws = bools-append vs ws
  bools-append (float_value _ ∷ vs) ws = bools-append vs ws
  bools-append (double_value _ ∷ vs) ws = bools-append vs ws
  bools-append (Signals.other_value ∷ vs) ws = bools-append vs ws

  -- A response leaves the publications of the lock as they are.
  published_response :
      (log : List Request) (text : String) (done : Bool)
      → published {F = F} signal_is_locked
          (publications (wrote_string signal_response text done ∷ log))
        ≡ published signal_is_locked (publications log)
  published_response log text true =
      published-append signal_is_locked (publications log)
        ((signal_response, string_value text) ∷ [])
      ∙ append-nil (published signal_is_locked (publications log))
  published_response log text false = rw append-nil refl

-- Where no write of the lock has failed, the broker's last value of the lock is the one written last.
pub published_lock :
    (F : Type 0) (b : Bool) (log : List Request)
    → IsOwn log
    → IsDone log
    → latest b (bools (published {F = F} signal_is_locked (publications log)))
      ≡ unwrap_or (last_written log) b
published_lock F b [] o d = refl
published_lock F b (read_float _ ∷ log) o d = published_lock F b log o d
published_lock F b (read_bool _ ∷ log) o d = published_lock F b log o d
published_lock F b (wrote_bool signal v done ∷ log) o d =
    rw
      (
        o.0,
        d.0,
        published-append {F = F} signal_is_locked (publications log)
            ((signal_is_locked, bool_value v) ∷ []),
        bools-append (published signal_is_locked (publications log)) (bool_value v ∷ []),
      )
      (latest-append b (bools (published signal_is_locked (publications log))) v)
published_lock F b (wrote_string signal s done ∷ log) o d =
    rw (o.0, published_response {F = F} log s done) (published_lock F b log o.1 d)
