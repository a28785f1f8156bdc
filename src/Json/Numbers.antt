-- ===== src/Json/Numbers.antt =====
-- The numbers of the package types in JSON: the decimals of Go's unsigned integers, and the hexutil.Big
-- and hexutil.Uint64 of go-ethereum, whose spellings are parameters.
pub mod Narrow
use go_conflux_sdk.Base.{
  ℕ, zero, suc, ◌+◌, ◌-◌, ◌*◌, ◌/◌, ◌%◌, ◌^◌, ◌<◌, ◌≤◌, ◌≡◌, refl, ◌&&◌, ◌==◌, true, false, ==_iff,
  Option, none, some, [], ◌∷◌, Text, ltb, leb, if◌then◌else◌, arith, Bool-cases, inl, inr, ap, ◌∙◌,
}
use go_conflux_sdk.Base.Int.{ℤ, pos, negsuc}
use go_conflux_sdk.Result.{Result, ok, err}
use go_conflux_sdk.Ethereum.{Ethereum}
use go_conflux_sdk.Json.{Value, null, num, str, type_error}
use go_conflux_sdk.Json.Decimals.{digits, decimal, digits-decimal, IsFilled, decimal-IsFilled}
use go_conflux_sdk.Json.Float64.{in_interface}
use go_conflux_sdk.Json.Float64.Narrow.{float_text-decimal}
use go_conflux_sdk.Json.Codec.{Codec, CodecLaws}

unfoldable below : ℕ → Option ℕ → Result ℕ
below bits none = err type_error
below bits (some n) = if ltb n (2 ^ bits) then ok n else err type_error

-- An unsigned integer of some bits, from the text of a number.
unfoldable uint : ℕ → Text → Result ℕ
unfolding below
uint bits [] = err type_error
uint bits (c ∷ s) = below bits (digits 0 (c ∷ s))

uint_filled : (bits : ℕ) (t : Text) → IsFilled t → uint bits t ≡ below bits (digits 0 t)
unfolding uint
uint_filled bits t (c, s, e) = rw e refl

uint-digits :
    (bits n : ℕ) (t : Text) → digits 0 t ≡ some n → IsFilled t → n < 2 ^ bits → uint bits t ≡ ok n
unfolding below
uint-digits bits n t e filled h = uint_filled bits t filled ∙ rw e (ground (arith, h))

uint-decimal : (bits n : ℕ) → n < 2 ^ bits → uint bits (decimal n) ≡ ok n
uint-decimal bits n h = uint-digits bits n (decimal n) (digits-decimal n) (decimal-IsFilled n) h

unfoldable pub uint_value : ℕ → ℕ → Value → Result ℕ
unfolding uint
uint_value bits old null = ok old
uint_value bits old (num t) = uint bits t
uint_value bits old _ = err type_error

-- A uint8, uint32 or uint64. A float64 holds a number of at most 53 bits as it is.
abbrev pub uint_codec : ℕ → Codec ℕ
uint_codec bits = record {
  zero_value = 0;
  read = uint_value bits;
  write = λ n. num (decimal n);
  is_empty = λ n. n == 0;
  IsWritable = λ n. (n < 2 ^ bits) × (n < 2 ^ 53);
}

pub uint_laws : (bits : ℕ) → CodecLaws (uint_codec bits)
unfolding uint_value in_interface
uint_laws bits = record {
  read_write = λ n h. uint-decimal bits n h.0;
  empty_zero = λ n. (==_iff n 0).0;
  in_interface-write = λ n h. ap num (float_text-decimal n h.1);
}

-- A number that is not negative and has at most 256 bits.
abbrev pub IsQuantity : ℤ → Type 0
IsQuantity (pos n) = n < 2 ^ 256
IsQuantity (negsuc n) = ⊥

-- hexutil.Big and hexutil.Uint64 read what hexutil.EncodeBig writes.
pub record QuantityLaws (E : Ethereum) : Type 0 where
  pub big : (n : ℕ) → n < 2 ^ 256 → E.unmarshal_big (E.encode_big (pos n)) ≡ ok (pos n)
  pub uint64 : (n : ℕ) → n < 2 ^ 64 → E.unmarshal_uint64 (E.encode_big (pos n)) ≡ ok n

module _ (E : Ethereum) where
  unfoldable pub big_value : ℤ → Value → Result ℤ
  big_value old null = ok old
  big_value old (str t) = E.unmarshal_big t
  big_value old _ = err type_error

  -- A hexutil.Big. It has no omitempty but behind a pointer.
  abbrev pub big_codec : Codec ℤ
  big_codec = record {
    zero_value = pos 0;
    read = big_value;
    write = λ n. str (E.encode_big n);
    is_empty = λ n. false;
    IsWritable = IsQuantity;
  }

  big-read : QuantityLaws E → (n : ℤ) → IsQuantity n → E.unmarshal_big (E.encode_big n) ≡ ok n
  big-read laws (pos n) h = laws.big n h
  big-read laws (negsuc n) h = absurd h

  pub big_laws : QuantityLaws E → CodecLaws big_codec
  unfolding big_value in_interface
  big_laws laws = record {
    read_write = big-read laws;
    empty_zero = λ n e. absurd (cc e);
    in_interface-write = λ n h. refl;
  }

  unfoldable pub hex_uint64_value : ℕ → Value → Result ℕ
  hex_uint64_value old null = ok old
  hex_uint64_value old (str t) = E.unmarshal_uint64 t
  hex_uint64_value old _ = err type_error

  -- A hexutil.Uint64.
  abbrev pub hex_uint64_codec : Codec ℕ
  hex_uint64_codec = record {
    zero_value = 0;
    read = hex_uint64_value;
    write = λ n. str (E.encode_big (pos n));
    is_empty = λ n. n == 0;
    IsWritable = λ n. n < 2 ^ 64;
  }

  pub hex_uint64_laws : QuantityLaws E → CodecLaws hex_uint64_codec
  unfolding hex_uint64_value in_interface
  hex_uint64_laws laws = record {
    read_write = laws.uint64;
    empty_zero = λ n. (==_iff n 0).0;
    in_interface-write = λ n h. refl;
  }
