-- ===== src/Prelude/Number.antt =====
-- Rust's signed integers, and decimal text: `i32::from_str`, `u16::from_str` and `Display`.
use Prim.Native.Char.{code}
use Prim.Native.String.{[], ◌∷◌, String, ◌++◌}
use Prim.Native.Nat.{ℕ, zero, suc, ◌+◌, ◌-◌, ◌*◌, ◌/◌, ◌%◌, ◌≤◌}
use mathlib.Core.Path.{◌≡◌, refl}
use mathlib.Core.Bool.{Bool, false, ◌&&◌}
use mathlib.Core.Option.{Option, none, some}
use native.Mathlib.Omega.{arith}
use parking_fee_service.Prelude.Base.{leb, ltb, nat_eq, if◌then◌else◌}

-- `negsuc n` is -(n + 1).
pub data ℤ : Type 0 where
  pos : ℕ → ℤ
  negsuc : ℕ → ℤ

-- -n
abbrev pub neg : ℕ → ℤ
neg zero = pos 0
neg (suc n) = negsuc n

abbrev pub is_zero : ℤ → Bool
is_zero (pos n) = nat_eq n 0
is_zero (negsuc n) = false

-- The digits of a text, from the value of those read already.
unfoldable pub parse_digits : ℕ → String → Option ℕ
parse_digits n [] = some n
parse_digits n (c ∷ s) =
    if leb b'0' (code c) && leb (code c) b'9'
    then parse_digits (n * 10 + (code c - b'0')) s
    else none

-- At least one digit.
unfoldable pub parse_nonempty : String → Option ℕ
unfolding parse_digits
parse_nonempty [] = none
parse_nonempty (c ∷ s) = parse_digits 0 (c ∷ s)

-- `Some` only in the range of the type.
abbrev in_range : ℕ → Option ℕ → Option ℕ
in_range limit none = none
in_range limit (some n) = if leb n limit then some n else none

abbrev as_pos : Option ℕ → Option ℤ
as_pos none = none
as_pos (some n) = some (pos n)

abbrev as_neg : Option ℕ → Option ℤ
as_neg none = none
as_neg (some n) = some (neg n)

-- `str::parse::<i32>`
unfoldable pub parse_i32 : String → Option ℤ
unfolding parse_nonempty
parse_i32 [] = none
parse_i32 (c ∷ s) =
    if nat_eq (code c) b'-'
    then as_neg (in_range 2147483648 (parse_nonempty s))
    else if nat_eq (code c) b'+'
    then as_pos (in_range 2147483647 (parse_nonempty s))
    else as_pos (in_range 2147483647 (parse_nonempty (c ∷ s)))

-- `str::parse::<u16>`
unfoldable pub parse_u16 : String → Option ℕ
unfolding parse_nonempty
parse_u16 [] = none
parse_u16 (c ∷ s) =
    if nat_eq (code c) b'+'
    then in_range 65535 (parse_nonempty s)
    else in_range 65535 (parse_nonempty (c ∷ s))

abbrev digit : ℕ → String
digit zero = "0"
digit (suc zero) = "1"
digit (suc (suc zero)) = "2"
digit (suc (suc (suc zero))) = "3"
digit (suc (suc (suc (suc zero)))) = "4"
digit (suc (suc (suc (suc (suc zero))))) = "5"
digit (suc (suc (suc (suc (suc (suc zero)))))) = "6"
digit (suc (suc (suc (suc (suc (suc (suc zero))))))) = "7"
digit (suc (suc (suc (suc (suc (suc (suc (suc zero)))))))) = "8"
digit _ = "9"

-- The decimal digits of `n`; the fuel `n + 1` is enough, since `n / 10 < n` until a digit is left.
show_fuel : ℕ → ℕ → String
show_fuel zero n = []
show_fuel (suc fuel) n =
    let rest = show_fuel fuel (n / 10) in if ltb n 10 then digit n else rest ++ digit (n % 10)

unfoldable pub show_ℕ : ℕ → String
unfolding show_fuel
show_ℕ n = show_fuel (suc n) n

-- `Display` for `i32`
unfoldable pub show_ℤ : ℤ → String
unfolding show_ℕ
show_ℤ (pos n) = show_ℕ n
show_ℤ (negsuc n) = "-" ++ show_ℕ (suc n)

pub parse_u16-le : (s : String) (n : ℕ) → parse_u16 s ≡ some n → n ≤ 65535
unfolding parse_u16
parse_u16-le [] n h = ground arith
parse_u16-le (c ∷ s) n h = ground arith

number_tests :
    (parse_i32 "-143" ≡ some (negsuc 142))
    × (parse_i32 "" ≡ none)
    × (parse_i32 "2147483648" ≡ none)
    × (parse_u16 "50053" ≡ some 50053)
    × (parse_u16 "65536" ≡ none)
    × (show_ℤ (negsuc 142) ≡ "-143")
unfolding parse_i32 parse_u16 show_ℤ
number_tests = (refl, refl, refl, refl, refl, refl)

-- `n as i64`, for a u64.
unfoldable pub as_i64 : ℕ → ℤ
as_i64 n =
    let bits = n % 18446744073709551616 in
    if ltb bits 9223372036854775808 then pos bits else neg (18446744073709551616 - bits)
