-- ===== src/Prelude/Dict.antt =====
-- `std::collections::HashMap` with string keys, as an association list. The order of the list
-- stands for the iteration order, which Rust leaves unspecified.
use Prim.Native.String.{String}
use mathlib.Core.Path.{◌≡◌, refl}
use mathlib.Core.Option.{Option, none, some}
use mathlib.Core.List.{List, [], ◌∷◌}
use native.Mathlib.Omega.{arith}
use text.Mathlib.Text.{◌==◌}
use text.Mathlib.TextEquality.{eq_iff}
use mathlib.Core.Logic.{inl, inr}
use parking_fee_service.Prelude.Base.{Bool-cases, if◌then◌else◌}

abbrev pub Dict {ℓ} : Type ℓ → Type ℓ
Dict V = List (String × V)

module _ {ℓ} {V : Type ℓ} where
  -- `get`
  unfoldable pub lookup : String → Dict V → Option V
  lookup key [] = none
  lookup key ((name, value) ∷ rest) = if name == key then some value else lookup key rest

  -- `remove`
  unfoldable pub remove : String → Dict V → Dict V
  remove key [] = []
  remove key ((name, value) ∷ rest) =
      let kept = remove key rest in if name == key then kept else (name, value) ∷ kept

  -- `values`
  unfoldable pub values : Dict V → List V
  values [] = []
  values ((name, value) ∷ rest) = value ∷ values rest

  -- `insert`, which keeps the place of a key that is there.
  unfoldable pub insert : String → V → Dict V → Dict V
  insert key new [] = (key, new) ∷ []
  insert key new ((name, old) ∷ rest) =
      let other = insert key new rest in
      if name == key then (name, new) ∷ rest else (name, old) ∷ other

  pub lookup-remove :
      (key asked : String) (d : Dict V)
      → lookup asked (remove key d) ≡ (if key == asked then none else lookup asked d)
  unfolding lookup remove
  lookup-remove key asked [] = ground arith
  lookup-remove key asked ((name, value) ∷ rest) =
      ground
        (arith, lookup-remove key asked rest, eq_iff name asked, eq_iff key asked, eq_iff name key)

  pub lookup-insert :
      (key asked : String) (new : V) (d : Dict V)
      → lookup asked (insert key new d) ≡ (if key == asked then some new else lookup asked d)
  unfolding lookup insert
  lookup-insert key asked new [] = refl
  lookup-insert key asked new ((name, old) ∷ rest) = ground (
    arith,
    lookup-insert key asked new rest,
    eq_iff name asked,
    eq_iff key asked,
    eq_iff name key,
  )

-- No key stands twice.
module _ {ℓ} {V : Type ℓ} where
  abbrev pub Distinct : Dict V → Type ℓ
  Distinct [] = Unit
  Distinct ((k, v) ∷ m) = (lookup k m ≡ none) × Distinct m

  pub Distinct-insert : (k : String) (v : V) (m : Dict V) → Distinct m → Distinct (insert k v m)
  unfolding lookup insert
  Distinct-insert k v [] d = (refl, tt)
  Distinct-insert k v ((j, w) ∷ m) d = elim (Bool-cases (j == k)) [
    | inl same ↦ rw same d
    | inr other ↦
        rw other
          (ground (arith, lookup-insert k j v m, eq_iff k j, eq_iff j k), Distinct-insert k v m d.1)
  ]

  pub Distinct-remove : (k : String) (m : Dict V) → Distinct m → Distinct (remove k m)
  unfolding lookup remove
  Distinct-remove k [] d = tt
  Distinct-remove k ((j, w) ∷ m) d = elim (Bool-cases (j == k)) [
    | inl same ↦ rw same (Distinct-remove k m d.1)
    | inr other ↦
        rw other
          (ground (arith, lookup-remove k j m, eq_iff k j, eq_iff j k), Distinct-remove k m d.1)
  ]
