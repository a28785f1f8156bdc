-- ===== src/Json/Logs.antt =====
-- The struct tags of types/log.go, and the decoding by them.
pub mod RoundTrip
use go_conflux_sdk.Base.{List, [], ◌∷◌}
use go_conflux_sdk.Result.{Result}
use go_conflux_sdk.Ethereum.{Ethereum}
use go_conflux_sdk.Types.Response.{LogEntry}
use go_conflux_sdk.Types.Block.{Log, empty_log}
use go_conflux_sdk.Json.{Value}
use go_conflux_sdk.Json.Struct.Embedded.{embedded}
use go_conflux_sdk.Base.{◌++◌}
use go_conflux_sdk.Json.Codec.{Codec, text_codec, bool_codec, pointer, slice}
use go_conflux_sdk.Json.Numbers.{big_codec}
use go_conflux_sdk.Json.Struct.{Table, tag, tag_omitempty, struct}

unfoldable pub entry_table : Table LogEntry
entry_table =
    tag "address" text_codec (λ l. l.address) (λ x l. record l { address = x })
    ∷ tag "topics" (slice text_codec) (λ l. l.topics) (λ x l. record l { topics = x })
    ∷ tag "data" text_codec (λ l. l.log_data) (λ x l. record l { log_data = x })
    ∷ []

module _ (E : Ethereum) where
  unfoldable pub own_log_table : Table Log
  own_log_table =
      tag_omitempty "blockHash" (pointer text_codec) (λ l. l.block_hash)
        (λ x l. record l { block_hash = x })
      ∷ tag_omitempty "epochNumber" (pointer (big_codec E)) (λ l. l.epoch_number)
          (λ x l. record l { epoch_number = x })
      ∷ tag_omitempty "transactionHash" (pointer text_codec) (λ l. l.transaction_hash)
          (λ x l. record l { transaction_hash = x })
      ∷ tag_omitempty "transactionIndex" (pointer (big_codec E)) (λ l. l.transaction_index)
          (λ x l. record l { transaction_index = x })
      ∷ tag_omitempty "logIndex" (pointer (big_codec E)) (λ l. l.log_index)
          (λ x l. record l { log_index = x })
      ∷ tag_omitempty "transactionLogIndex" (pointer (big_codec E)) (λ l. l.transaction_log_index)
          (λ x l. record l { transaction_log_index = x })
      ∷ tag "removed" bool_codec (λ l. l.removed) (λ x l. record l { removed = x })
      ∷ []

  unfoldable pub log_table : Table Log
  unfolding entry_table own_log_table
  log_table =
      embedded (λ (l : Log). l.entry) (λ e l. record l { entry = e }) entry_table ++ own_log_table

  abbrev pub logs_codec : Codec (List Log)
  logs_codec = slice (struct log_table empty_log)

  unfoldable pub decode_logs : Value → Result (List Log)
  unfolding log_table
  decode_logs = logs_codec.read []
