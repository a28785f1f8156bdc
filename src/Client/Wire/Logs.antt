-- ===== src/Client/Wire/Logs.antt =====
-- GetLogs of client.go on a node that gets the filter, and gives the logs, as JSON.
use go_conflux_sdk.Base.{ℕ, ◌≡◌, refl, ◌∙◌, Option, none, some, Text, List, [], ◌∷◌, String}
use go_conflux_sdk.Result.{ok}
use go_conflux_sdk.Exec.{Exec}
use go_conflux_sdk.Ethereum.{Ethereum}
use go_conflux_sdk.Json.{Value}
use go_conflux_sdk.Json.Codec.{pointer}
use go_conflux_sdk.Json.Numbers.{QuantityLaws, uint_codec}
use go_conflux_sdk.Json.Logs.{logs_codec}
use go_conflux_sdk.Json.Requests.{FilterTexts, empty_texts, filter_codec, filter_texts, epoch_texts}
use go_conflux_sdk.Json.Requests.RoundTrip.{filter-read}
use go_conflux_sdk.Base.Int.{ℤ}
use go_conflux_sdk.Types.Epoch.{Epoch, epoch_text, marshal_text}
use go_conflux_sdk.Types.Block.{Log, LogFilter}
use go_conflux_sdk.Client.Requester.{Requester, filter}
use go_conflux_sdk.Client.Blocks.{get_logs}
use go_conflux_sdk.Client.Blocks.Answers.{get_logs-write}
use go_conflux_sdk.Client.Wire.{marshal_args, marshal, Wire}

-- The text of an epoch: its name, or else its number in hex. A nil epoch has none.
pub data EpochText (E : Ethereum) : Option Epoch → Option Text → Type 0 where
  no_epoch : EpochText E none none
  by_name :
      (c : ℕ) (cs : Text) (n : Option ℤ)
      → EpochText E (some (record { name = c ∷ cs; number = n })) (some (c ∷ cs))
  by_number :
      (n : ℤ) → EpochText E (some (record { name = []; number = some n })) (some (E.encode_big n))

epoch_texts-eq :
    (E : Ethereum) {e : Option Epoch} {t : Option Text} → EpochText E e t → epoch_texts E e ≡ ok t
unfolding epoch_texts marshal_text epoch_text
epoch_texts-eq E no_epoch = refl
epoch_texts-eq E (by_name c cs n) = refl
epoch_texts-eq E (by_number n) = refl

-- A filter with its epochs as texts.
abbrev pub in_texts : LogFilter → Option Text → Option Text → FilterTexts
in_texts f first last = record {
  from_epoch = first;
  to_epoch = last;
  block_hashes = f.block_hashes;
  address = f.address;
  topics = f.topics;
  limit = f.limit;
}

filter_texts-eq :
    (E : Ethereum) (f : LogFilter) {first last : Option Text}
    → EpochText E f.from_epoch first
    → EpochText E f.to_epoch last
    → filter_texts E f ≡ ok (in_texts f first last)
unfolding filter_texts
filter_texts-eq E f h k = rw (epoch_texts-eq E h, epoch_texts-eq E k) refl

module _ {W : Type 0} (E : Ethereum) where
  -- A node that reads the filter by the tags of LogFilter, and writes the logs that it finds for it by
  -- those of Log.
  pub record FindsLogs (serve : String → List Value → Exec W Value) (find : FilterTexts → List Log)
      : Type 0 where
    pub found :
        (v : Value) (f : FilterTexts) (w : W)
        → filter_codec.read empty_texts v ≡ ok f
        → serve "cfx_getLogs" (v ∷ []) w ≡ (ok ((logs_codec E).write (find f)), w)

  module _ (law : QuantityLaws E) (Q : Requester W) (serve : String → List Value → Exec W Value)
      (wire : Wire E Q serve) where
    filter-marshal :
        (f : LogFilter) (t : FilterTexts)
        → filter_texts E f ≡ ok t
        → marshal_args E (filter f ∷ []) ≡ ok (filter_codec.write t ∷ [])
    unfolding marshal_args marshal
    filter-marshal f t texts = rw texts refl

    -- On a node that gets the arguments as encoding/json writes them, reads the filter by its struct tags
    -- and answers the logs that it finds for it as the struct tags write them, GetLogs returns exactly what
    -- the node finds for the filter that was given, its epochs taken as their texts, when these exist, the
    -- limit is a byte and the numbers of the logs are not negative and have at most 256 bits.
    -- hexutil.Big is assumed to read what hexutil.EncodeBig writes.
    pub get_logs_served :
        (find : FilterTexts → List Log) (f : LogFilter) (first last : Option Text) (w : W)
        → FindsLogs serve find
        → EpochText E f.from_epoch first
        → EpochText E f.to_epoch last
        → (pointer (uint_codec 8)).IsWritable f.limit
        → (logs_codec E).IsWritable (find (in_texts f first last))
        → get_logs E Q f w ≡ (ok (find (in_texts f first last)), w)
    get_logs_served find f first last w node is_first is_last fits writable =
        let t = in_texts f first last in
        get_logs-write E law Q f (find t) w w writable (
          wire.sends "cfx_getLogs" (filter f ∷ []) _ w
            (filter-marshal f t (filter_texts-eq E f is_first is_last))
          ∙ node.found _ t w (filter-read t fits))
