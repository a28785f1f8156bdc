-- ===== src/Hex.antt =====
-- encoding/hex, as far as the program uses it: EncodeToString and DecodeString.
use go_conflux_sdk.Base.{
  ◌==◌, false, ℕ, ◌+◌, ◌-◌, ◌*◌, ◌/◌, ◌%◌, ◌<◌, ◌≡◌, refl, ◌&&◌, Option, none, some, [], ◌∷◌, arith,
  Bytes, Text, All, AllBytes, length, map, lower, leb, ltb, if◌then◌else◌,
}
use go_conflux_sdk.Errors.{Error, message}
use go_conflux_sdk.Result.{Result, ok, err}

-- The digit of a value below 16.
unfoldable pub digit : ℕ → ℕ
digit n = if ltb n 10 then b'0' + n else b'a' + (n - 10)

-- The value of a digit of either case.
unfoldable pub digit_value : ℕ → Option ℕ
digit_value c =
    if leb b'0' c && leb c b'9'
    then some (c - b'0')
    else if leb b'a' c && leb c b'f'
    then some (c - b'a' + 10)
    else if leb b'A' c && leb c b'F'
    then some (c - b'A' + 10)
    else none

unfoldable pub encode_to_string : Bytes → Text
encode_to_string [] = []
encode_to_string (b ∷ bs) = digit (b / 16) ∷ digit (b % 16) ∷ encode_to_string bs

abbrev pub invalid_byte : Error
invalid_byte = message "encoding/hex: invalid byte"

abbrev pub odd_length : Error
odd_length = message "encoding/hex: odd length hex string"

-- The bytes before the first fault, and the fault.
unfoldable pub decode_partial : Text → Bytes × Option Error
decode_partial [] = ([], none)
decode_partial (a ∷ []) = elim (digit_value a) [
  | none ↦ ([], some invalid_byte)
  | some x ↦ ([], some odd_length)
]
decode_partial (a ∷ b ∷ s) =
    let rest = decode_partial s in
    elim (digit_value a) [
      | none ↦ ([], some invalid_byte)
      | some x ↦ elim (digit_value b) [
        | none ↦ ([], some invalid_byte)
        | some y ↦ ((x * 16 + y) ∷ rest.0, rest.1)
      ]
    ]

unless_fault : Bytes × Option Error → Result Bytes
unless_fault (bs, none) = ok bs
unless_fault (bs, some e) = err e

pub decode_string : Text → Result Bytes
unfolding unless_fault
decode_string s = unless_fault (decode_partial s)

pub digit_value-digit : (n : ℕ) → n < 16 → digit_value (digit n) ≡ some n
unfolding digit digit_value
digit_value-digit n h = ground arith

pub decode_partial-encode :
    (bs : Bytes) → AllBytes bs → decode_partial (encode_to_string bs) ≡ (bs, none)
unfolding decode_partial encode_to_string
decode_partial-encode [] _ = refl
decode_partial-encode (b ∷ bs) (hb, h) =
    ground
      (arith, digit_value-digit (b / 16), digit_value-digit (b % 16), decode_partial-encode bs h)

pub decode_string-encode : (bs : Bytes) → AllBytes bs → decode_string (encode_to_string bs) ≡ ok bs
unfolding decode_string
decode_string-encode bs h = rw (decode_partial-encode bs h)

pub length-encode_to_string : (bs : Bytes) → length (encode_to_string bs) ≡ 2 * length bs
unfolding encode_to_string
length-encode_to_string [] = refl
length-encode_to_string (b ∷ bs) = omega (arith, length-encode_to_string bs)

lower-digit : (n : ℕ) → n < 16 → lower (digit n) ≡ digit n
unfolding digit
lower-digit n h = ground arith

-- The digits are in lower case.
pub lower-encode_to_string :
    (bs : Bytes) → AllBytes bs → map lower (encode_to_string bs) ≡ encode_to_string bs
unfolding encode_to_string
lower-encode_to_string [] _ = refl
lower-encode_to_string (b ∷ bs) (hb, h) = rw (
  lower-digit (b / 16) (omega arith),
  lower-digit (b % 16) (omega arith),
  lower-encode_to_string bs h,
)

pub digit-small : (n : ℕ) → n < 16 → digit n < b'g'
unfolding digit
digit-small n h = ground arith

-- No digit comes behind the letter f.
pub encode_to_string-All : (bs : Bytes) → AllBytes bs → All (λ c. c < b'g') (encode_to_string bs)
unfolding encode_to_string
encode_to_string-All [] _ = tt
encode_to_string-All (b ∷ bs) (hb, h) = (
  digit-small (b / 16) (omega arith),
  (digit-small (b % 16) (omega arith), encode_to_string-All bs h),
)

pub digit-not_underscore : (n : ℕ) → n < 16 → (digit n == b'_') ≡ false
unfolding digit
digit-not_underscore n h = ground arith
