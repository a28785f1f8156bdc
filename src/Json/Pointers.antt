-- ===== src/Json/Pointers.antt =====
-- The pointers to strings, booleans and numbers, which are written and read back.
use go_conflux_sdk.Base.{ℕ}
use go_conflux_sdk.Ethereum.{Ethereum}
use go_conflux_sdk.Json.Codec.{
  CodecLaws, text_codec, text_laws, bool_codec, bool_laws, pointer, pointer_laws,
}
use go_conflux_sdk.Json.Numbers.{
  QuantityLaws, uint_codec, uint_laws, big_codec, big_laws, hex_uint64_codec, hex_uint64_laws,
}

pub optional_text_laws : CodecLaws (pointer text_codec)
optional_text_laws = pointer_laws text_codec text_laws (λ t e. cc e)

pub optional_bool_laws : CodecLaws (pointer bool_codec)
optional_bool_laws = pointer_laws bool_codec bool_laws (λ b e. cc e)

pub optional_uint_laws : (bits : ℕ) → CodecLaws (pointer (uint_codec bits))
optional_uint_laws bits = pointer_laws (uint_codec bits) (uint_laws bits) (λ n e. cc e)

module _ (E : Ethereum) (law : QuantityLaws E) where
  pub optional_big_laws : CodecLaws (pointer (big_codec E))
  optional_big_laws = pointer_laws (big_codec E) (big_laws E law) (λ n e. cc e)

  pub optional_hex_uint64_laws : CodecLaws (pointer (hex_uint64_codec E))
  optional_hex_uint64_laws = pointer_laws (hex_uint64_codec E) (hex_uint64_laws E law) (λ n e. cc e)
