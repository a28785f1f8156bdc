-- ===== src/Json/Requests.antt =====
-- The struct tags of CallRequest in types/option.go and of LogFilter in types/log.go, which a call of the
-- node carries as arguments.
pub mod RoundTrip
use go_conflux_sdk.Base.{ℕ, Option, none, some, List, [], ◌∷◌, Text}
use go_conflux_sdk.Result.{Result, ok, ◌>>=◌}
use go_conflux_sdk.Ethereum.{Ethereum}
use go_conflux_sdk.Types.Address.{Address, Hash}
use go_conflux_sdk.Types.Epoch.{Epoch, marshal_text}
use go_conflux_sdk.Types.Request.{CallRequest, empty_request}
use go_conflux_sdk.Types.Block.{LogFilter}
use go_conflux_sdk.Json.{Value}
use go_conflux_sdk.Json.Codec.{Codec, text_codec, pointer, slice}
use go_conflux_sdk.Json.Numbers.{uint_codec, big_codec}
use go_conflux_sdk.Json.Struct.{Table, tag_omitempty, struct}

-- A filter as encoding/json sees it: of an epoch it takes the text that MarshalText gives.
pub record FilterTexts : Type 0 where
  pub from_epoch : Option Text
  pub to_epoch : Option Text
  pub block_hashes : List Hash
  pub address : List Address
  pub topics : List (List Hash)
  pub limit : Option ℕ

abbrev pub empty_texts : FilterTexts
empty_texts = record {
  from_epoch = none;
  to_epoch = none;
  block_hashes = [];
  address = [];
  topics = [];
  limit = none;
}

unfoldable pub filter_table : Table FilterTexts
filter_table =
    tag_omitempty "fromEpoch" (pointer text_codec) (λ f. f.from_epoch)
      (λ x f. record f { from_epoch = x })
    ∷ tag_omitempty "toEpoch" (pointer text_codec) (λ f. f.to_epoch)
        (λ x f. record f { to_epoch = x })
    ∷ tag_omitempty "blockHashes" (slice text_codec) (λ f. f.block_hashes)
        (λ x f. record f { block_hashes = x })
    ∷ tag_omitempty "address" (slice text_codec) (λ f. f.address) (λ x f. record f { address = x })
    ∷ tag_omitempty "topics" (slice (slice text_codec)) (λ f. f.topics)
        (λ x f. record f { topics = x })
    ∷ tag_omitempty "limit" (pointer (uint_codec 8)) (λ f. f.limit) (λ x f. record f { limit = x })
    ∷ []

abbrev pub filter_codec : Codec FilterTexts
filter_codec = struct filter_table empty_texts

module _ (E : Ethereum) where
  -- A nil epoch has no text.
  unfoldable pub epoch_texts : Option Epoch → Result (Option Text)
  epoch_texts none = ok none
  epoch_texts (some e) = do t ← marshal_text E e; ok (some t)

  unfoldable pub filter_texts : LogFilter → Result FilterTexts
  filter_texts f = do
    first ← epoch_texts f.from_epoch
    last ← epoch_texts f.to_epoch
    ok (record {
      from_epoch = first;
      to_epoch = last;
      block_hashes = f.block_hashes;
      address = f.address;
      topics = f.topics;
      limit = f.limit;
    })

  unfoldable pub request_table : Table CallRequest
  request_table =
      tag_omitempty "from" (pointer text_codec) (λ r. r.from) (λ x r. record r { from = x })
      ∷ tag_omitempty "to" (pointer text_codec) (λ r. r.to) (λ x r. record r { to = x })
      ∷ tag_omitempty "gasPrice" (pointer (big_codec E)) (λ r. r.gas_price)
          (λ x r. record r { gas_price = x })
      ∷ tag_omitempty "gas" (pointer (big_codec E)) (λ r. r.gas) (λ x r. record r { gas = x })
      ∷ tag_omitempty "value" (pointer (big_codec E)) (λ r. r.value) (λ x r. record r { value = x })
      ∷ tag_omitempty "data" text_codec (λ r. r.call_data) (λ x r. record r { call_data = x })
      ∷ tag_omitempty "nonce" (pointer (big_codec E)) (λ r. r.nonce) (λ x r. record r { nonce = x })
      ∷ tag_omitempty "storageLimit" (pointer (big_codec E)) (λ r. r.storage_limit)
          (λ x r. record r { storage_limit = x })
      ∷ []

  abbrev pub request_codec : Codec CallRequest
  request_codec = struct request_table empty_request
