-- ===== src/UpdateService/StateManager/Candidates.antt =====
-- What `get_offload_candidates` selects, by identifier.
use mathlib.Core.List.{Memᴰ}
use parking_fee_service.Prelude.{
  true, ℕ, String, ◌≡◌, refl, sym, ap, ◌∙◌, false, none, some, List, [], ◌∷◌, Bool-cases, inl, inr,
  arith, ◌==◌, eq_iff, eq_refl, All, subst,
}
use parking_fee_service.Prelude.Dict.{Dict, lookup, values, Distinct}
use parking_fee_service.UpdateService.Adapter.{AdapterEntry}
use parking_fee_service.UpdateService.StateManager.{is_expired, filter_expired}
use parking_fee_service.UpdateService.StateManager.Running.{key_elsewhere}

-- No adapter of the list has the identifier.
abbrev pub Absent : String → List AdapterEntry → Type 0
Absent j adapters = All (λ a. (a.adapter_id == j) ≡ false) adapters

-- The identifiers of the list differ.
abbrev pub Separate : List AdapterEntry → Type 0
Separate [] = Unit
Separate (a ∷ rest) = Absent a.adapter_id rest × Separate rest

-- Entries stand under their own identifiers.
abbrev pub Keyed : Dict AdapterEntry → Type 0
Keyed [] = Unit
Keyed ((k, a) ∷ d) = (a.adapter_id ≡ k) × Keyed d

pub Keyed-of_lookup :
    (d : Dict AdapterEntry)
    → Distinct d
    → ((k : String) (a : AdapterEntry) → lookup k d ≡ some a → a.adapter_id ≡ k)
    → Keyed d
unfolding lookup
Keyed-of_lookup [] distinct h = tt
Keyed-of_lookup ((k, b) ∷ d) distinct h = (
  h k b (rw (eq_refl k) refl),
  Keyed-of_lookup d distinct.1 (λ j a found. h j a (key_elsewhere k j d a b distinct.0 found)),
)

module _ (now timeout : ℕ) where
  pub Absent-of_none :
      (j : String) (d : Dict AdapterEntry)
      → lookup j d ≡ none
      → Keyed d
      → Absent j (filter_expired now timeout (values d))
  unfolding lookup values filter_expired
  Absent-of_none j [] missing keyed = tt
  Absent-of_none j ((k, b) ∷ d) missing keyed =
      let differs : (k == j) ≡ false = ground (arith) in
      let rest = Absent-of_none j d (ground arith) keyed.1 in
      elim (Bool-cases (is_expired now timeout b)) [
        | inl old ↦ rw old (subst (λ i. (i == j) ≡ false) (sym keyed.0) differs, rest)
        | inr young ↦ rw young rest
      ]

  pub Absent-of_young :
      (j : String) (a : AdapterEntry) (d : Dict AdapterEntry)
      → lookup j d ≡ some a
      → is_expired now timeout a ≡ false
      → Distinct d
      → Keyed d
      → Absent j (filter_expired now timeout (values d))
  unfolding lookup values filter_expired
  Absent-of_young j a [] found young distinct keyed = cc
  Absent-of_young j a ((k, b) ∷ d) found young distinct keyed = elim (Bool-cases (k == j)) [
    | inl same ↦
        let this : b ≡ a = ground (arith) in
        rw (ap (is_expired now timeout) this ∙ young) (
          Absent-of_none j d (ap (λ i. lookup i d) (sym ((eq_iff k j).0 same)) ∙ distinct.0)
            keyed.1)
    | inr differs ↦
        let rest = Absent-of_young j a d (ground arith) young distinct.1 keyed.1 in
        elim (Bool-cases (is_expired now timeout b)) [
          | inl old ↦ rw old (subst (λ i. (i == j) ≡ false) (sym keyed.0) differs, rest)
          | inr fresh ↦ rw fresh rest
        ]
  ]

  pub Separate-candidates :
      (d : Dict AdapterEntry)
      → Distinct d
      → Keyed d
      → Separate (filter_expired now timeout (values d))
  unfolding values filter_expired
  Separate-candidates [] distinct keyed = tt
  Separate-candidates ((k, b) ∷ d) distinct keyed =
      let rest = Separate-candidates d distinct.1 keyed.1 in
      elim (Bool-cases (is_expired now timeout b)) [
        | inl old ↦ rw old (
          Absent-of_none b.adapter_id d (ap (λ i. lookup i d) keyed.0 ∙ distinct.0) keyed.1,
          rest,
        )
        | inr young ↦ rw young rest
      ]

  -- Every candidate is an entry of the map, and of any map that has all its entries.
  pub Present-candidates :
      (d whole : Dict AdapterEntry)
      → Distinct d
      → Keyed d
      → ((j : String) (a : AdapterEntry) → lookup j d ≡ some a → lookup j whole ≡ some a)
      → All
          (λ a. (b : AdapterEntry) × (lookup a.adapter_id whole ≡ some b))
          (filter_expired now timeout (values d))
  unfolding values filter_expired lookup
  Present-candidates [] whole distinct keyed within = tt
  Present-candidates ((k, b) ∷ d) whole distinct keyed within =
      let rest =
        Present-candidates d whole distinct.1 keyed.1
          (λ j a found. within j a (key_elsewhere k j d a b distinct.0 found)) in
      elim (Bool-cases (is_expired now timeout b)) [
        | inl old ↦
            rw old
              ((b, within b.adapter_id b (ground (arith, keyed.0, eq_iff k b.adapter_id))), rest)
        | inr young ↦ rw young rest
      ]

  -- Every entry whose time is over is a candidate.
  pub Memᴰ-candidates :
      (j : String) (a : AdapterEntry) (d : Dict AdapterEntry)
      → lookup j d ≡ some a
      → is_expired now timeout a ≡ true
      → Memᴰ a (filter_expired now timeout (values d))
  unfolding lookup values filter_expired
  Memᴰ-candidates j a [] found old = cc
  Memᴰ-candidates j a ((k, b) ∷ d) found old = elim (Bool-cases (k == j)) [
    | inl same ↦
        let this : a ≡ b = ground (arith) in
        rw (ap (is_expired now timeout) (sym this) ∙ old) (Memᴰ.head this)
    | inr differs ↦
        let rest = Memᴰ-candidates j a d (ground arith) old in
        elim (Bool-cases (is_expired now timeout b)) [
          | inl also ↦ rw also (Memᴰ.tail rest)
          | inr young ↦ rw young rest
        ]
  ]
