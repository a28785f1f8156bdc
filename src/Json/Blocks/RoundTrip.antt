-- ===== src/Json/Blocks/RoundTrip.antt =====
-- Blocks and their summaries are read back from what the struct tags of types/block.go make of them.
use go_conflux_sdk.Ethereum.{Ethereum}
use go_conflux_sdk.Base.{refl, text_eq}
use go_conflux_sdk.Json.{key_eq}
use go_conflux_sdk.Types.Block.{empty_summary, empty_block}
use go_conflux_sdk.Json.Codec.{CodecLaws, text_codec, text_laws, bool_laws, slice_laws}
use go_conflux_sdk.Json.Numbers.{QuantityLaws, uint_laws}
use go_conflux_sdk.Json.Pointers.{optional_bool_laws, optional_big_laws, optional_hex_uint64_laws}
use go_conflux_sdk.Json.Struct.{struct}
use go_conflux_sdk.Json.Struct.RoundTrip.{
  is_alone, is_distinct, cleared, AreFields, no_field, ◌▸◌, is_field, struct_laws,
}
use go_conflux_sdk.Types.Block.{BlockSummary, Block}
use go_conflux_sdk.Json.Struct.Embedded.{embedded-AreFields}
use go_conflux_sdk.Json.Transactions.RoundTrip.{transaction_laws}
use go_conflux_sdk.Json.Blocks.{header_table, summary_table, block_table}

module _ (E : Ethereum) (law : QuantityLaws E) where
  header_AreFields : AreFields (header_table E)
  unfolding cleared header_table
  header_AreFields =
      is_field text_laws (λ a t. refl) (λ a b t. refl) (λ t. refl)
      ▸ is_field text_laws (λ a t. refl) (λ a b t. refl) (λ t. refl)
      ▸ is_field (optional_big_laws E law) (λ a t. refl) (λ a b t. refl) (λ t. refl)
      ▸ is_field text_laws (λ a t. refl) (λ a b t. refl) (λ t. refl)
      ▸ is_field text_laws (λ a t. refl) (λ a b t. refl) (λ t. refl)
      ▸ is_field text_laws (λ a t. refl) (λ a b t. refl) (λ t. refl)
      ▸ is_field text_laws (λ a t. refl) (λ a b t. refl) (λ t. refl)
      ▸ is_field (uint_laws 32) (λ a t. refl) (λ a b t. refl) (λ t. refl)
      ▸ is_field text_laws (λ a t. refl) (λ a b t. refl) (λ t. refl)
      ▸ is_field (optional_big_laws E law) (λ a t. refl) (λ a b t. refl) (λ t. refl)
      ▸ is_field (optional_big_laws E law) (λ a t. refl) (λ a b t. refl) (λ t. refl)
      ▸ is_field (optional_hex_uint64_laws E law) (λ a t. refl) (λ a b t. refl) (λ t. refl)
      ▸ is_field (optional_big_laws E law) (λ a t. refl) (λ a b t. refl) (λ t. refl)
      ▸ is_field (slice_laws text_codec text_laws) (λ a t. refl) (λ a b t. refl) (λ t. refl)
      ▸ is_field optional_bool_laws (λ a t. refl) (λ a b t. refl) (λ t. refl)
      ▸ is_field bool_laws (λ a t. refl) (λ a b t. refl) (λ t. refl)
      ▸ is_field (optional_big_laws E law) (λ a t. refl) (λ a b t. refl) (λ t. refl)
      ▸ is_field (optional_big_laws E law) (λ a t. refl) (λ a b t. refl) (λ t. refl)
      ▸ no_field

  summary_AreFields : AreFields (summary_table E)
  unfolding cleared summary_table header_table
  summary_AreFields =
      is_field (slice_laws text_codec text_laws) (λ a t. refl) (λ a b t. refl) (λ t. refl)
      ▸ embedded-AreFields (λ (b : BlockSummary). b.header) (λ h b. record b { header = h })
          (λ s t. refl) (λ s r t. refl) (λ t. refl) (header_table E) header_AreFields

  pub summary_laws : CodecLaws (struct (summary_table E) empty_summary)
  unfolding cleared summary_table header_table is_distinct is_alone key_eq text_eq
  summary_laws = struct_laws (summary_table E) empty_summary refl summary_AreFields (λ t. refl)

  block_AreFields : AreFields (block_table E)
  unfolding cleared block_table header_table
  block_AreFields =
      is_field (slice_laws _ (transaction_laws E law)) (λ a t. refl) (λ a b t. refl) (λ t. refl)
      ▸ embedded-AreFields (λ (b : Block). b.header) (λ h b. record b { header = h }) (λ s t. refl)
          (λ s r t. refl) (λ t. refl) (header_table E) header_AreFields

  pub block_laws : CodecLaws (struct (block_table E) empty_block)
  unfolding cleared block_table header_table is_distinct is_alone key_eq text_eq
  block_laws = struct_laws (block_table E) empty_block refl block_AreFields (λ t. refl)
