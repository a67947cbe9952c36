-- ===== src/LockingService/Testing/Wire.antt =====
-- A text form of the locking service's responses that can be read back: each character of a text and each unit of a number
-- stands after a comma, and a full stop ends it.
use Prim.Native.String.{[], ◌∷◌}
use parking_fee_service.Prelude.{ℕ, zero, suc, String, ◌≡◌, refl, Option, none, some, if◌then◌else◌}
use parking_fee_service.Prelude.Text.{char_eq}
use parking_fee_service.Prelude.Number.{ℤ, pos, negsuc}
use parking_fee_service.LockingService.Response.{CommandResponse}

unfoldable put : String → String → String
put [] rest = "." ∷ rest
put (c ∷ s) rest = "," ∷ (c ∷ put s rest)

unfoldable put_number : ℕ → String → String
put_number zero rest = "." ∷ rest
put_number (suc n) rest = "," ∷ put_number n rest

unfoldable put_reason : Option String → String → String
unfolding put
put_reason none rest = "." ∷ rest
put_reason (some s) rest = "," ∷ put s rest

unfoldable put_integer : ℤ → String
unfolding put_number
put_integer (pos n) = "." ∷ put_number n []
put_integer (negsuc n) = "," ∷ put_number n []

abbrev prefixed : Prim.Native.Char.Char → Option (String × String) → Option (String × String)
prefixed c none = none
prefixed c (some (s, rest)) = some (c ∷ s, rest)

unfoldable take_text : String → Option (String × String)
take_text [] = none
take_text (x ∷ []) = if char_eq x "." then some ([], []) else none
take_text (x ∷ (c ∷ s)) =
    let rest = take_text s in if char_eq x "." then some ([], c ∷ s) else prefixed c rest

abbrev succeeded : Option ℕ → Option ℕ
succeeded none = none
succeeded (some n) = some (suc n)

unfoldable take_number : String → Option ℕ
take_number [] = none
take_number (x ∷ s) = let rest = take_number s in if char_eq x "." then some 0 else succeeded rest

abbrev with_reason : Option (String × String) → Option (Option String × String)
with_reason none = none
with_reason (some (s, rest)) = some (some s, rest)

unfoldable take_reason : String → Option (Option String × String)
unfolding take_text
take_reason [] = none
take_reason (x ∷ s) =
    let given = with_reason (take_text s) in if char_eq x "." then some (none, s) else given

abbrev as_pos : Option ℕ → Option ℤ
as_pos none = none
as_pos (some n) = some (pos n)

abbrev as_negsuc : Option ℕ → Option ℤ
as_negsuc none = none
as_negsuc (some n) = some (negsuc n)

unfoldable take_integer : String → Option ℤ
unfolding take_number
take_integer [] = none
take_integer (x ∷ s) = let n = take_number s in if char_eq x "." then as_pos n else as_negsuc n

take_text-put : (s rest : String) → take_text (put s rest) ≡ some (s, rest)
unfolding take_text put
take_text-put [] [] = refl
take_text-put [] (c ∷ rest) = refl
take_text-put (c ∷ s) rest = rw (take_text-put s rest) refl

take_number-put_number : (n : ℕ) → take_number (put_number n []) ≡ some n
unfolding take_number put_number
take_number-put_number zero = refl
take_number-put_number (suc n) = rw (take_number-put_number n) refl

take_reason-put_reason :
    (o : Option String) (rest : String) → take_reason (put_reason o rest) ≡ some (o, rest)
unfolding take_reason put_reason
take_reason-put_reason none rest = refl
take_reason-put_reason (some s) rest = rw (take_text-put s rest) refl

take_integer-put_integer : (z : ℤ) → take_integer (put_integer z) ≡ some z
unfolding take_integer put_integer
take_integer-put_integer (pos n) = rw (take_number-put_number n) refl
take_integer-put_integer (negsuc n) = rw (take_number-put_number n) refl

-- A response as a text.
pub write : CommandResponse → String
write r = put r.command_id (put r.status (put_reason r.reason (put_integer r.timestamp)))

-- The text as a response.
pub read : String → Option CommandResponse
read text = elim (take_text text) [
  | none ↦ none
  | some (command_id, after_id) ↦ elim (take_text after_id) [
    | none ↦ none
    | some (status, after_status) ↦ elim (take_reason after_status) [
      | none ↦ none
      | some (reason, after_reason) ↦ elim (take_integer after_reason) [
        | none ↦ none
        | some timestamp ↦ some (record {
          command_id = command_id;
          status = status;
          reason = reason;
          timestamp = timestamp;
        })
      ]
    ]
  ]
]

pub read-write : (r : CommandResponse) → read (write r) ≡ some r
unfolding read write
read-write r =
    rw
      (
        take_text-put r.command_id (put r.status (put_reason r.reason (put_integer r.timestamp))),
        take_text-put r.status (put_reason r.reason (put_integer r.timestamp)),
        take_reason-put_reason r.reason (put_integer r.timestamp),
        take_integer-put_integer r.timestamp,
        read,
      )
      refl
