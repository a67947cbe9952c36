-- ===== src/Prelude/Signals.antt =====
-- What the services and the data broker exchange (kuksa.val.v2): typed values, the items of a
-- subscription's stream, and publications. How the broker delivers publications is a parameter.
use mathlib.Core.Path.{◌≡◌, refl}
use mathlib.Core.Bool.{Bool, true, false}
use mathlib.Core.Option.{Option, none, some}
use mathlib.Core.List.{List, [], ◌∷◌, ◌++◌}
use Prim.Native.String.{String}
use native.Mathlib.Omega.{arith}
use text.Mathlib.Text.{◌==◌}
use parking_fee_service.Prelude.Base.{Result, ok, err, if◌then◌else◌, merge}
use parking_fee_service.Prelude.Dict
use parking_fee_service.Prelude.Dict.{Dict}

-- `TypedValue` of the broker's protocol, as far as the services use it; `F` stands for the floats.
pub data TypedValue (F : Type 0) : Type 0 where
  bool_value : Bool → TypedValue F
  string_value : String → TypedValue F
  float_value double_value : F → TypedValue F
  other_value : TypedValue F

-- One item of a subscription's stream: for each path the value that came, if one did, or an error.
abbrev pub Item : Type 0 → Type 0
Item F = Result (Dict (Option (TypedValue F))) String

-- A value published to a path.
abbrev pub Publication : Type 0 → Type 0
Publication F = String × TypedValue F

module _ {F : Type 0} where
  abbrev pub value_of : Option (Option (TypedValue F)) → List (TypedValue F)
  value_of (some (some v)) = v ∷ []
  value_of (some none) = []
  value_of none = []

  -- The values that a stream brings for a path, until it fails.
  abbrev pub values : String → List (Item F) → List (TypedValue F)
  values path [] = []
  values path (err e ∷ items) = []
  values path (ok entries ∷ items) = value_of (Dict.lookup path entries) ++ values path items

  -- The values published to a path.
  abbrev pub published : String → List (Publication F) → List (TypedValue F)
  published path [] = []
  published path ((p, v) ∷ pubs) =
      let rest = published path pubs in if p == path then v ∷ rest else rest

  abbrev pub texts : List (TypedValue F) → List String
  texts [] = []
  texts (string_value s ∷ vs) = s ∷ texts vs
  texts (_ ∷ vs) = texts vs

  abbrev pub bools : List (TypedValue F) → List Bool
  bools [] = []
  bools (bool_value b ∷ vs) = b ∷ bools vs
  bools (_ ∷ vs) = bools vs

  -- A broker that gives the subscriber of a path the values published to it, each once and in order.
  pub record Delivers (deliver : List (Publication F) → String → List (Item F)) : Type 0 where
    pub at :
        (pubs : List (Publication F)) (path : String)
        → values path (deliver pubs path) ≡ published path pubs

  -- What one sender does not publish to, another one's publications stand alone on.
  pub published-merge_left :
      (order : List Bool) (path : String) (xs ys : List (Publication F))
      → published path ys ≡ []
      → published path (merge order xs ys) ≡ published path xs
  published-merge_left [] path [] ys h = h
  published-merge_left [] path ((p, v) ∷ xs) ys h =
      ground (arith, published-merge_left [] path xs ys h)
  published-merge_left (true ∷ order) path [] ys h = published-merge_left order path [] ys h
  published-merge_left (true ∷ order) path ((p, v) ∷ xs) ys h =
      ground (arith, published-merge_left order path xs ys h)
  published-merge_left (false ∷ order) path xs [] h = published-merge_left order path xs [] h
  published-merge_left (false ∷ order) path xs ((p, v) ∷ ys) h =
      ground (arith, published-merge_left order path xs ys)

  pub published-merge_right :
      (order : List Bool) (path : String) (xs ys : List (Publication F))
      → published path xs ≡ []
      → published path (merge order xs ys) ≡ published path ys
  published-merge_right [] path [] ys h = refl
  published-merge_right [] path ((p, v) ∷ xs) ys h =
      ground (arith, published-merge_right [] path xs ys)
  published-merge_right (true ∷ order) path [] ys h = published-merge_right order path [] ys h
  published-merge_right (true ∷ order) path ((p, v) ∷ xs) ys h =
      ground (arith, published-merge_right order path xs ys)
  published-merge_right (false ∷ order) path xs [] h = published-merge_right order path xs [] h
  published-merge_right (false ∷ order) path xs ((p, v) ∷ ys) h =
      ground (arith, published-merge_right order path xs ys h)

  pub published-append :
      (path : String) (xs ys : List (Publication F))
      → published path (xs ++ ys) ≡ published path xs ++ published path ys
  published-append path [] ys = refl
  published-append path ((p, v) ∷ xs) ys = ground (arith, published-append path xs ys)
