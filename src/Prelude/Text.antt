-- ===== src/Prelude/Text.antt =====
-- What the program uses of Rust's `str`: splitting off the last segment and replacing a character.
use Prim.Native.Char.{Char, code}
use Prim.Native.String.{[], ◌∷◌, String, ◌++◌}
use text.Mathlib.TextLemmas.{cons-append, nil-append}
use mathlib.Core.Path.{◌≡◌, refl}
use mathlib.Core.Bool.{Bool, true, false, ◌||◌, ◌&&◌}
use native.Mathlib.Omega.{arith}
use parking_fee_service.Prelude.Base.{nat_eq, leb, if◌then◌else◌}

abbrev pub char_eq : Char → Char → Bool
char_eq c d = nat_eq (code c) (code d)

-- `s.contains(c)`
unfoldable pub contains : Char → String → Bool
contains c [] = false
contains c (x ∷ s) = char_eq x c || contains c s

-- `s.rsplit(sep).next()`: what follows the last separator, or all of `s`.
unfoldable pub rsplit_next : Char → String → String
unfolding contains
rsplit_next sep [] = []
rsplit_next sep (x ∷ s) =
    let rest = rsplit_next sep s in
    if contains sep s then rest else if char_eq x sep then s else x ∷ s

-- `s.replace(from, to)` at two characters.
unfoldable pub replace : Char → Char → String → String
replace from to [] = []
replace from to (x ∷ s) = (if char_eq x from then to else x) ∷ replace from to s

-- `s.is_empty()`
abbrev pub is_empty : String → Bool
is_empty [] = true
is_empty (x ∷ s) = false

-- `char::is_whitespace`: the characters with the property White_Space.
abbrev pub is_whitespace : Char → Bool
is_whitespace x =
    let c = code x in
    (leb 9 c && leb c 13)
    || nat_eq c 32
    || nat_eq c 0x85
    || nat_eq c 0xa0
    || nat_eq c 0x1680
    || (leb 0x2000 c && leb c 0x200a)
    || nat_eq c 0x2028
    || nat_eq c 0x2029
    || nat_eq c 0x202f
    || nat_eq c 0x205f
    || nat_eq c 0x3000

unfoldable pub trim_start : String → String
trim_start [] = []
trim_start (x ∷ s) = let rest = trim_start s in if is_whitespace x then rest else x ∷ s

-- A blank tail is dropped from its first character on.
unfoldable pub trim_end : String → String
trim_end [] = []
trim_end (x ∷ s) =
    let rest = trim_end s in if is_whitespace x && is_empty rest then [] else x ∷ rest

-- `s.trim()`
unfoldable pub trim : String → String
unfolding trim_start trim_end
trim s = trim_end (trim_start s)

pub contains-rsplit_next : (sep : Char) (s : String) → contains sep (rsplit_next sep s) ≡ false
unfolding contains rsplit_next
contains-rsplit_next sep [] = refl
contains-rsplit_next sep (x ∷ s) = ground (arith, contains-rsplit_next sep s)

pub contains-append :
    (c : Char) (s t : String) → contains c (s ++ t) ≡ (contains c s || contains c t)
unfolding contains
contains-append c [] t = rw nil-append
contains-append c (x ∷ s) t = rw cons-append (ground (arith, contains-append c s t))

-- A text without the separator is its own last segment.
pub rsplit_next_absent : (sep : Char) (s : String) → contains sep s ≡ false → rsplit_next sep s ≡ s
unfolding contains rsplit_next
rsplit_next_absent sep [] h = refl
rsplit_next_absent sep (x ∷ s) h = ground arith

-- What stands before a separator plays no part.
pub rsplit_next-append :
    (sep : Char) (s t : String) → contains sep t ≡ false → rsplit_next sep (s ++ (sep ∷ t)) ≡ t
unfolding contains rsplit_next
rsplit_next-append sep [] t h = rw nil-append (ground arith)
rsplit_next-append sep (x ∷ s) t h =
    rw cons-append (ground (arith, contains-append sep s (sep ∷ t), rsplit_next-append sep s t h))

pub contains-replace_from :
    (from to : Char) (s : String)
    → char_eq to from ≡ false
    → contains from (replace from to s) ≡ false
unfolding contains replace
contains-replace_from from to [] h = refl
contains-replace_from from to (x ∷ s) h = ground (arith, contains-replace_from from to s h)

pub contains-replace :
    (from to c : Char) (s : String)
    → char_eq to c ≡ false
    → contains c s ≡ false
    → contains c (replace from to s) ≡ false
unfolding contains replace
contains-replace from to c [] h k = refl
contains-replace from to c (x ∷ s) h k = ground (arith, contains-replace from to c s h)

pub replace_absent : (from to : Char) (s : String) → contains from s ≡ false → replace from to s ≡ s
unfolding contains replace
replace_absent from to [] h = refl
replace_absent from to (x ∷ s) h = ground (arith, replace_absent from to s)

pub replace-append :
    (from to : Char) (s t : String)
    → replace from to (s ++ t) ≡ replace from to s ++ replace from to t
unfolding replace
replace-append from to [] t = simp nil-append
replace-append from to (x ∷ s) t = simp (cons-append, replace-append from to s t)

pub replace-cons_from :
    (from to : Char) (s : String) → replace from to (from ∷ s) ≡ to ∷ replace from to s
unfolding replace
replace-cons_from from to s = ground arith

trim_test : trim " \n143 \n" ≡ "143"
unfolding trim
trim_test = refl
