-- ===== src/Json/Requests/RoundTrip.antt =====
-- Call requests and filters are read back from what the struct tags of types/option.go and types/log.go
-- make of them.
use go_conflux_sdk.Base.{◌≡◌, refl, Option, none, some, List, [], ◌∷◌, Text, text_eq}
use go_conflux_sdk.Result.{ok}
use go_conflux_sdk.Ethereum.{Ethereum}
use go_conflux_sdk.Types.Request.{CallRequest, empty_request}
use go_conflux_sdk.Json.{key_eq}
use go_conflux_sdk.Json.Codec.{CodecLaws, text_codec, text_laws, pointer, slice, slice_laws}
use go_conflux_sdk.Json.Numbers.{QuantityLaws, uint_codec, big_codec}
use go_conflux_sdk.Json.Struct.{IsWritableStruct}
use go_conflux_sdk.Json.Pointers.{optional_text_laws, optional_uint_laws, optional_big_laws}
use go_conflux_sdk.Json.Struct.RoundTrip.{
  is_alone, is_distinct, cleared, AreFields, no_field, ◌▸◌, is_field, struct_laws,
}
use go_conflux_sdk.Json.Requests.{
  FilterTexts, filter_table, empty_texts, filter_codec, request_table, request_codec,
}

filter_AreFields : AreFields filter_table
unfolding cleared filter_table
filter_AreFields =
    is_field optional_text_laws (λ a t. refl) (λ a b t. refl) (λ t. refl)
    ▸ is_field optional_text_laws (λ a t. refl) (λ a b t. refl) (λ t. refl)
    ▸ is_field (slice_laws text_codec text_laws) (λ a t. refl) (λ a b t. refl) (λ t. refl)
    ▸ is_field (slice_laws text_codec text_laws) (λ a t. refl) (λ a b t. refl) (λ t. refl)
    ▸ is_field (slice_laws (slice text_codec) (slice_laws text_codec text_laws)) (λ a t. refl)
        (λ a b t. refl) (λ t. refl)
    ▸ is_field (optional_uint_laws 8) (λ a t. refl) (λ a b t. refl) (λ t. refl)
    ▸ no_field

pub filter_laws : CodecLaws filter_codec
unfolding cleared filter_table is_distinct is_alone key_eq text_eq
filter_laws = struct_laws filter_table empty_texts refl filter_AreFields (λ t. refl)

module _ (E : Ethereum) (law : QuantityLaws E) where
  request_AreFields : AreFields (request_table E)
  unfolding cleared request_table
  request_AreFields =
      is_field optional_text_laws (λ a t. refl) (λ a b t. refl) (λ t. refl)
      ▸ is_field optional_text_laws (λ a t. refl) (λ a b t. refl) (λ t. refl)
      ▸ is_field (optional_big_laws E law) (λ a t. refl) (λ a b t. refl) (λ t. refl)
      ▸ is_field (optional_big_laws E law) (λ a t. refl) (λ a b t. refl) (λ t. refl)
      ▸ is_field (optional_big_laws E law) (λ a t. refl) (λ a b t. refl) (λ t. refl)
      ▸ is_field text_laws (λ a t. refl) (λ a b t. refl) (λ t. refl)
      ▸ is_field (optional_big_laws E law) (λ a t. refl) (λ a b t. refl) (λ t. refl)
      ▸ is_field (optional_big_laws E law) (λ a t. refl) (λ a b t. refl) (λ t. refl)
      ▸ no_field

  pub request_laws : CodecLaws (request_codec E)
  unfolding cleared request_table is_distinct is_alone key_eq text_eq
  request_laws = struct_laws (request_table E) empty_request refl request_AreFields (λ t. refl)

-- Texts are written as they are.
optional_text-IsWritable : (p : Option Text) → (pointer text_codec).IsWritable p
optional_text-IsWritable none = tt
optional_text-IsWritable (some t) = tt

texts-IsWritable : (ts : List Text) → (slice text_codec).IsWritable ts
texts-IsWritable [] = tt
texts-IsWritable (t ∷ ts) = (tt, texts-IsWritable ts)

text_lists-IsWritable : (ts : List (List Text)) → (slice (slice text_codec)).IsWritable ts
text_lists-IsWritable [] = tt
text_lists-IsWritable (t ∷ ts) = (texts-IsWritable t, text_lists-IsWritable ts)

-- A filter whose limit, if it has one, is a byte is read back.
pub filter-read :
    (f : FilterTexts)
    → (pointer (uint_codec 8)).IsWritable f.limit
    → filter_codec.read empty_texts (filter_codec.write f) ≡ ok f
filter-read f fits = filter_laws.read_write f (
    unfold IsWritableStruct filter_table in
    (
      optional_text-IsWritable f.from_epoch,
      (
        optional_text-IsWritable f.to_epoch,
        (
          texts-IsWritable f.block_hashes,
          (texts-IsWritable f.address, (text_lists-IsWritable f.topics, (fits, tt))),
        ),
      ),
    ))

-- The numbers of a request that are set are not negative and have at most 256 bits.
pub record Fits (E : Ethereum) (r : CallRequest) : Type 0 where
  pub gas_price : (pointer (big_codec E)).IsWritable r.gas_price
  pub gas : (pointer (big_codec E)).IsWritable r.gas
  pub value : (pointer (big_codec E)).IsWritable r.value
  pub nonce : (pointer (big_codec E)).IsWritable r.nonce
  pub storage_limit : (pointer (big_codec E)).IsWritable r.storage_limit

pub request-read :
    (E : Ethereum)
    → QuantityLaws E
    → (r : CallRequest) → Fits E r
    → (request_codec E).read empty_request ((request_codec E).write r) ≡ ok r
request-read E law r fits = (request_laws E law).read_write r (
    unfold IsWritableStruct request_table in
    (
      optional_text-IsWritable r.from,
      (
        optional_text-IsWritable r.to,
        (fits.gas_price, (fits.gas, (fits.value, (tt, (fits.nonce, (fits.storage_limit, tt)))))),
      ),
    ))
