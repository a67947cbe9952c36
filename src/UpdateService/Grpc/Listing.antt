-- ===== src/UpdateService/Grpc/Listing.antt =====
-- What the call that lists the adapters answers.
use mathlib.Core.List.{Memᴰ}
use parking_fee_service.Prelude.{
  String, ◌≡◌, refl, sym, ap, ◌∙◌, subst, false, none, some, [], ◌∷◌, map, ok, Bool-cases, inl, inr,
  arith, ◌==◌, eq_refl, ℕ, Option, List, All, get_elem?,
}
use parking_fee_service.Prelude.Dict.{Dict, lookup, values, Distinct}
use parking_fee_service.UpdateService.Adapter.{
  AdapterState, unknown, downloading, installing, running, stopped, error, offloading, AdapterEntry,
}
use parking_fee_service.UpdateService.StateManager.{list_adapters, get_adapter}
use parking_fee_service.UpdateService.StateManager.Candidates.{
  Absent, Separate, Keyed, Keyed-of_lookup,
}
use parking_fee_service.UpdateService.StateManager.Running.{key_elsewhere}
use parking_fee_service.UpdateService.StateManager.Invariant.{IsValid}
use parking_fee_service.UpdateService.World
use parking_fee_service.UpdateService.World.{World}
use parking_fee_service.UpdateService.Grpc.{
  AdapterInfo, list_all, info_of, state_to_proto, get_adapter_status, status_of,
}

values-Absent :
    (j : String) (d : Dict AdapterEntry) → lookup j d ≡ none → Keyed d → Absent j (values d)
unfolding lookup values
values-Absent j [] missing keyed = tt
values-Absent j ((k, b) ∷ d) missing keyed =
    let differs : (k == j) ≡ false = ground arith in
    (subst (λ i. (i == j) ≡ false) (sym keyed.0) differs, values-Absent j d (ground arith) keyed.1)

values-Separate : (d : Dict AdapterEntry) → Distinct d → Keyed d → Separate (values d)
unfolding values
values-Separate [] distinct keyed = tt
values-Separate ((k, b) ∷ d) distinct keyed = (
  values-Absent b.adapter_id d (ap (λ i. lookup i d) keyed.0 ∙ distinct.0) keyed.1,
  values-Separate d distinct.1 keyed.1,
)

-- A listed entry is the one that is found under its identifier.
listed_found :
    (d : Dict AdapterEntry) (a : AdapterEntry)
    → Distinct d
    → Keyed d
    → Memᴰ a (values d)
    → lookup a.adapter_id d ≡ some a
unfolding lookup values
listed_found [] a distinct keyed m = elim m [ ]
listed_found ((k, b) ∷ d) a distinct keyed (Memᴰ.head this) =
    let own : a.adapter_id ≡ k = ap (λ e. e.adapter_id) this ∙ keyed.0 in
    let self : lookup k ((k, b) ∷ d) ≡ some b = rw (eq_refl k) refl in
    ap (λ i. lookup i ((k, b) ∷ d)) own ∙ (self ∙ ap some (sym this))
listed_found ((k, b) ∷ d) a distinct keyed (Memᴰ.tail later) =
    key_elsewhere k a.adapter_id d a b distinct.0 (listed_found d a distinct.1 keyed.1 later)

found_listed :
    (d : Dict AdapterEntry) (j : String) (a : AdapterEntry)
    → lookup j d ≡ some a
    → Memᴰ a (values d)
unfolding lookup values
found_listed [] j a found = absurd cc
found_listed ((k, b) ∷ d) j a found = elim (Bool-cases (k == j)) [
  | inl same ↦ Memᴰ.head (ground arith)
  | inr differs ↦ Memᴰ.tail (found_listed d j a (ground arith))
]

-- The enumeration `AdapterState` of proto/update/update_service.proto, whose numbers count from 0, and the state that
-- a number stands for.
abbrev pub numbered_states : List AdapterState
numbered_states = unknown ∷ downloading ∷ installing ∷ running ∷ stopped ∷ error ∷ offloading ∷ []

abbrev pub read_state : ℕ → Option AdapterState
read_state n = get_elem? numbered_states n

-- The item shows the adapter: its identifier and image, and its state by the state's number.
pub record IsShown (info : AdapterInfo) (adapter : AdapterEntry) : Type 0 where
  pub identifier : info.adapter_id ≡ adapter.adapter_id
  pub image : info.image_ref ≡ adapter.image_ref
  pub state : read_state info.state ≡ some adapter.state

read-state_to_proto : (st : AdapterState) → read_state (state_to_proto st) ≡ some st
unfolding state_to_proto
read-state_to_proto unknown = refl
read-state_to_proto downloading = refl
read-state_to_proto installing = refl
read-state_to_proto running = refl
read-state_to_proto stopped = refl
read-state_to_proto error = refl
read-state_to_proto offloading = refl

info_of-IsShown : (adapter : AdapterEntry) → IsShown (info_of adapter) adapter
unfolding info_of
info_of-IsShown adapter = record {
  identifier = refl;
  image = refl;
  state = read-state_to_proto adapter.state;
}

-- The identifiers of the items, each once.
abbrev pub IsMissing : String → List AdapterInfo → Type 0
IsMissing id infos = All (λ info. (info.adapter_id == id) ≡ false) infos

abbrev pub IsSeparate : List AdapterInfo → Type 0
IsSeparate [] = Unit
IsSeparate (info ∷ infos) = IsMissing info.adapter_id infos × IsSeparate infos

Absent-IsMissing :
    (id : String) (adapters : List AdapterEntry)
    → Absent id adapters
    → IsMissing id (map info_of adapters)
unfolding info_of
Absent-IsMissing id [] absent = tt
Absent-IsMissing id (a ∷ adapters) absent = (absent.0, Absent-IsMissing id adapters absent.1)

Separate-IsSeparate :
    (adapters : List AdapterEntry) → Separate adapters → IsSeparate (map info_of adapters)
unfolding info_of
Separate-IsSeparate [] separate = tt
Separate-IsSeparate (a ∷ adapters) separate =
    (Absent-IsMissing a.adapter_id adapters separate.0, Separate-IsSeparate adapters separate.1)

shown_item :
    (adapters : List AdapterEntry) (a : AdapterEntry)
    → Memᴰ a adapters
    → Memᴰ (info_of a) (map info_of adapters)
shown_item [] a m = elim m [ ]
shown_item (b ∷ adapters) a (Memᴰ.head same) = Memᴰ.head (ap info_of same)
shown_item (b ∷ adapters) a (Memᴰ.tail later) = Memᴰ.tail (shown_item adapters a later)

item_shown :
    (adapters : List AdapterEntry) (info : AdapterInfo)
    → Memᴰ info (map info_of adapters)
    → (a : AdapterEntry) × Memᴰ a adapters × (info ≡ info_of a)
item_shown [] info m = elim m [ ]
item_shown (b ∷ adapters) info (Memᴰ.head same) = (b, Memᴰ.head refl, same)
item_shown (b ∷ adapters) info (Memᴰ.tail later) =
    let (a, m, e) = item_shown adapters info later in (a, Memᴰ.tail m, e)

-- What the listing tells of the adapters that the state manager has.
pub record IsListing (infos : List AdapterInfo) (w : World) : Type 0 where
  pub complete :
      (id : String) (a : AdapterEntry)
      → get_adapter id w.mgr ≡ some a
      → (info : AdapterInfo) × Memᴰ info infos × (info.adapter_id ≡ id) × IsShown info a
  pub sound :
      (info : AdapterInfo)
      → Memᴰ info infos
      → (a : AdapterEntry) × (get_adapter info.adapter_id w.mgr ≡ some a)
        × IsShown info a
        × (get_adapter_status info.adapter_id w ≡ (ok info, w))
  pub separate : IsSeparate infos

module _ (w : World) (valid : IsValid w.mgr) where
  keyed : Keyed w.mgr.adapters
  unfolding get_adapter
  keyed = Keyed-of_lookup w.mgr.adapters valid.distinct (λ k a found. (valid.sound k a found).keyed)

  entry-IsShown :
      (id : String) (a : AdapterEntry)
      → get_adapter id w.mgr ≡ some a
      → (info : AdapterInfo) × Memᴰ info (map info_of (list_adapters w.mgr))
        × (info.adapter_id ≡ id)
        × IsShown info a
  unfolding get_adapter list_adapters info_of
  entry-IsShown id a found = (
    info_of a,
    shown_item (values w.mgr.adapters) a (found_listed w.mgr.adapters id a found),
    (valid.sound id a found).keyed,
    info_of-IsShown a,
  )

  status_answers :
      (id : String) (a : AdapterEntry)
      → get_adapter id w.mgr ≡ some a
      → get_adapter_status id w ≡ (ok (info_of a), w)
  unfolding get_adapter_status World.gets status_of
  status_answers id a found = rw found refl

  item_answered :
      (a : AdapterEntry)
      → Memᴰ a (list_adapters w.mgr)
      → (b : AdapterEntry) × (get_adapter (info_of a).adapter_id w.mgr ≡ some b)
        × IsShown (info_of a) b
        × (get_adapter_status (info_of a).adapter_id w ≡ (ok (info_of a), w))
  unfolding list_adapters info_of
  item_answered a m =
      let found : get_adapter a.adapter_id w.mgr ≡ some a =
        unfold get_adapter in listed_found w.mgr.adapters a valid.distinct keyed m in
      (a, found, info_of-IsShown a, status_answers a.adapter_id a found)

-- In a state manager that is valid, the call that lists the adapters succeeds and changes nothing. Its answer has for
-- every adapter that is found an item with its identifier, its image and the number of its state; each item
-- shows the adapter found under its identifier, for which the status call answers the same item; and no
-- identifier is in two items.
pub list_all_lists :
    (w : World)
    → IsValid w.mgr
    → (infos : List AdapterInfo) × (list_all w ≡ (ok infos, w)) × IsListing infos w
unfolding list_all World.gets list_adapters
list_all_lists w valid = (
  map info_of (list_adapters w.mgr),
  refl,
  record {
    complete = entry-IsShown w valid;
    sound = λ info m.
        let (a, listed, same) = item_shown (list_adapters w.mgr) info m in
        subst
          (λ i.
            (b : AdapterEntry) × (get_adapter i.adapter_id w.mgr ≡ some b)
            × IsShown i b
            × (get_adapter_status i.adapter_id w ≡ (ok i, w)))
          (sym same) (item_answered w valid a listed);
    separate =
        Separate-IsSeparate (list_adapters w.mgr)
          (values-Separate w.mgr.adapters valid.distinct (keyed w valid));
  },
)
