-- ===== src/UpdateService/StateManager/Watch.antt =====
-- A watcher who knows an adapter's state and follows the events knows its state from then on.
use mathlib.Core.List.{append_assoc, append-nil}
use parking_fee_service.Prelude.{
  String, ◌≡◌, refl, sym, ap, ◌∙◌, subst, false, Option, some, List, [], ◌∷◌, ◌++◌, All, arith,
  ◌==◌, eq_iff, eq_refl, Option-cases, Bool-cases, inl, inr, if◌then◌else◌,
}
use parking_fee_service.UpdateService.Adapter.{AdapterState, AdapterEntry, AdapterStateEvent}
use parking_fee_service.UpdateService.StateManager.{
  Clock, StateManager, create_adapter, event_of, enter, transition, get_adapter,
}
use parking_fee_service.UpdateService.StateManager.Laws.{
  sent, get_adapter-transition, get_adapter-create_adapter, get_adapter-remove_adapter,
  events-transition, events-remove_adapter,
}
use parking_fee_service.UpdateService.StateManager.Ops.{Op, create, move, delete, apply, apply_all}

-- The state that a watcher of `id` has after an event.
unfoldable pub follow_event : String → AdapterState → AdapterStateEvent → AdapterState
follow_event id st event = if event.adapter_id == id then event.new_state else st

unfoldable pub follow : String → AdapterState → List AdapterStateEvent → AdapterState
unfolding follow_event
follow id st [] = st
follow id st (event ∷ events) = follow id (follow_event id st event) events

-- Each event of `id` starts from the state that the one before it led to.
abbrev pub IsChained : String → AdapterState → List AdapterStateEvent → Type 0
IsChained id st [] = Unit
IsChained id st (event ∷ events) =
    (event.adapter_id ≡ id → event.old_state ≡ st) × IsChained id (follow_event id st event) events

-- Operations that neither create nor remove the adapter `id`.
abbrev pub Spares : String → Op → Type 0
Spares id (create entry) = (entry.adapter_id == id) ≡ false
Spares id (move _ _ _ _) = Unit
Spares id (delete j) = (j == id) ≡ false

-- What the watcher can rely on between a manager and a later one.
pub record IsWatched (id : String) (st : AdapterState) (before after : StateManager) : Type 0 where
  pub news : List AdapterStateEvent
  pub extended : after.events ≡ before.events ++ news
  pub chained : IsChained id st news
  pub entry : AdapterEntry
  pub present : get_adapter id after ≡ some entry
  pub current : entry.state ≡ follow id st news

pub follow-append :
    (id : String) (st : AdapterState) (xs ys : List AdapterStateEvent)
    → follow id st (xs ++ ys) ≡ follow id (follow id st xs) ys
unfolding follow
follow-append id st [] ys = refl
follow-append id st (x ∷ xs) ys = follow-append id (follow_event id st x) xs ys

IsChained-append :
    (id : String) (st : AdapterState) (xs ys : List AdapterStateEvent)
    → IsChained id st xs
    → IsChained id (follow id st xs) ys
    → IsChained id st (xs ++ ys)
unfolding follow
IsChained-append id st [] ys h k = k
IsChained-append id st (x ∷ xs) ys h k =
    (h.0, IsChained-append id (follow_event id st x) xs ys h.1 k)

module _ (id : String) {st : AdapterState} {m n p : StateManager} where
  IsWatched-trans : (w : IsWatched id st m n) → IsWatched id w.entry.state n p → IsWatched id st m p
  IsWatched-trans w v = record {
    news = w.news ++ v.news;
    extended = rw (v.extended, w.extended) (append_assoc m.events w.news v.news);
    chained =
        IsChained-append id st w.news v.news w.chained
          (subst (λ s. IsChained id s v.news) w.current v.chained);
    entry = v.entry;
    present = v.present;
    current =
        v.current
        ∙ ap (λ s. follow id s v.news) w.current
        ∙ sym (follow-append id st w.news v.news);
  }

-- An operation that sends nothing and leaves the adapter's entry alone.
module _ (id : String) (e : AdapterEntry) {m n : StateManager} where
  IsWatched-quiet : n.events ≡ m.events → get_adapter id n ≡ some e → IsWatched id e.state m n
  unfolding follow
  IsWatched-quiet same found = record {
    news = [];
    extended = same ∙ sym (append-nil m.events);
    chained = tt;
    entry = e;
    present = found;
    current = refl;
  }

-- A transition of the adapter itself.
move_self :
    (clock : Clock) (id : String) (st : AdapterState) (msg : Option String) (m : StateManager)
    (e : AdapterEntry)
    → get_adapter id m ≡ some e
    → IsWatched id e.state m (transition clock id st msg m).1
unfolding follow event_of enter sent
move_self clock id st msg m e found = record {
  news = event_of clock id e.state st ∷ [];
  extended = events-transition clock id st msg m ∙ rw found refl;
  chained = (λ _. refl, tt);
  entry = enter clock st msg e;
  present = ground (arith, get_adapter-transition clock id id st msg m, eq_iff id id);
  current = rw (eq_refl id) refl;
}

-- A transition of another adapter.
move_other :
    (clock : Clock) (j id : String) (st : AdapterState) (msg : Option String) (m : StateManager)
    (e : AdapterEntry)
    → (j == id) ≡ false
    → get_adapter id m ≡ some e
    → IsWatched id e.state m (transition clock j st msg m).1
unfolding follow event_of sent
move_other clock j id st msg m e other found = elim (Option-cases (get_adapter j m)) [
  | inl missing ↦
      IsWatched-quiet id e (events-transition clock j st msg m ∙ rw missing (append-nil m.events))
        (ground (arith, get_adapter-transition clock j id st msg m))
  | inr (a, present) ↦ record {
    news = event_of clock j a.state st ∷ [];
    extended = events-transition clock j st msg m ∙ rw present refl;
    chained = (λ same. absurd (ground (arith, eq_iff j id)), tt);
    entry = e;
    present = ground (arith, get_adapter-transition clock j id st msg m);
    current = rw other refl;
  }
]

apply-IsWatched :
    (op : Op) (id : String) (m : StateManager) (e : AdapterEntry)
    → Spares id op
    → get_adapter id m ≡ some e
    → IsWatched id e.state m (apply op m)
unfolding apply
apply-IsWatched (create fresh) id m e other found =
    IsWatched-quiet id e (unfold create_adapter in refl)
      (ground (arith, get_adapter-create_adapter fresh id m))
apply-IsWatched (delete j) id m e other found =
    IsWatched-quiet id e (events-remove_adapter j m)
      (ground (arith, get_adapter-remove_adapter j id m))
apply-IsWatched (move clock j st msg) id m e _ found = elim (Bool-cases (j == id)) [
  | inr other ↦ move_other clock j id st msg m e other found
  | inl same ↦
      subst (λ k. IsWatched id e.state m (transition clock k st msg m).1)
        (sym ((eq_iff j id).0 same)) (move_self clock id st msg m e found)
]

-- Over any run of operations that neither creates nor removes the adapter: it keeps an entry, the
-- events of the run follow on those before it, each event of the adapter starts from the state the
-- one before led to, and the state that a watcher ends with is that of the entry.
pub apply_all-IsWatched :
    (ops : List Op) (id : String) (m : StateManager) (e : AdapterEntry)
    → All (Spares id) ops
    → get_adapter id m ≡ some e
    → IsWatched id e.state m (apply_all ops m)
unfolding apply_all
apply_all-IsWatched [] id m e spares found = IsWatched-quiet id e refl found
apply_all-IsWatched (op ∷ ops) id m e spares found =
    let first = apply-IsWatched op id m e spares.0 found in
    IsWatched-trans id first
      (apply_all-IsWatched ops id (apply op m) first.entry spares.1 first.present)
