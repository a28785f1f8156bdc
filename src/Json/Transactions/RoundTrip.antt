-- ===== src/Json/Transactions/RoundTrip.antt =====
-- Estimates, transactions and receipts are read back from what their struct tags make of them.
use go_conflux_sdk.Ethereum.{Ethereum}
use go_conflux_sdk.Base.{refl, text_eq}
use go_conflux_sdk.Json.{key_eq}
use go_conflux_sdk.Types.Response.{empty_transaction, empty_estimate}
use go_conflux_sdk.Types.Block.{empty_receipt}
use go_conflux_sdk.Json.Codec.{CodecLaws, text_laws, slice_laws}
use go_conflux_sdk.Json.Numbers.{QuantityLaws, uint_laws}
use go_conflux_sdk.Json.Pointers.{optional_text_laws, optional_big_laws, optional_uint_laws}
use go_conflux_sdk.Json.Struct.{struct}
use go_conflux_sdk.Json.Struct.RoundTrip.{
  is_alone, is_distinct, cleared, AreFields, no_field, ◌▸◌, is_field, struct_laws,
}
use go_conflux_sdk.Json.Transactions.{estimate_table, transaction_table, receipt_table}
use go_conflux_sdk.Json.Logs.RoundTrip.{entry_laws}

module _ (E : Ethereum) (law : QuantityLaws E) where
  estimate_AreFields : AreFields (estimate_table E)
  unfolding cleared estimate_table
  estimate_AreFields =
      is_field (optional_big_laws E law) (λ a t. refl) (λ a b t. refl) (λ t. refl)
      ▸ is_field (optional_big_laws E law) (λ a t. refl) (λ a b t. refl) (λ t. refl)
      ▸ no_field

  pub estimate_laws : CodecLaws (struct (estimate_table E) empty_estimate)
  unfolding cleared estimate_table is_distinct is_alone key_eq text_eq
  estimate_laws = struct_laws (estimate_table E) empty_estimate refl estimate_AreFields (λ t. refl)

  transaction_AreFields : AreFields (transaction_table E)
  unfolding cleared transaction_table
  transaction_AreFields =
      is_field text_laws (λ a t. refl) (λ a b t. refl) (λ t. refl)
      ▸ is_field (optional_big_laws E law) (λ a t. refl) (λ a b t. refl) (λ t. refl)
      ▸ is_field optional_text_laws (λ a t. refl) (λ a b t. refl) (λ t. refl)
      ▸ is_field (optional_big_laws E law) (λ a t. refl) (λ a b t. refl) (λ t. refl)
      ▸ is_field text_laws (λ a t. refl) (λ a b t. refl) (λ t. refl)
      ▸ is_field optional_text_laws (λ a t. refl) (λ a b t. refl) (λ t. refl)
      ▸ is_field (optional_big_laws E law) (λ a t. refl) (λ a b t. refl) (λ t. refl)
      ▸ is_field (optional_big_laws E law) (λ a t. refl) (λ a b t. refl) (λ t. refl)
      ▸ is_field (optional_big_laws E law) (λ a t. refl) (λ a b t. refl) (λ t. refl)
      ▸ is_field optional_text_laws (λ a t. refl) (λ a b t. refl) (λ t. refl)
      ▸ is_field text_laws (λ a t. refl) (λ a b t. refl) (λ t. refl)
      ▸ is_field (optional_big_laws E law) (λ a t. refl) (λ a b t. refl) (λ t. refl)
      ▸ is_field (optional_big_laws E law) (λ a t. refl) (λ a b t. refl) (λ t. refl)
      ▸ is_field (optional_big_laws E law) (λ a t. refl) (λ a b t. refl) (λ t. refl)
      ▸ is_field (optional_big_laws E law) (λ a t. refl) (λ a b t. refl) (λ t. refl)
      ▸ is_field (optional_big_laws E law) (λ a t. refl) (λ a b t. refl) (λ t. refl)
      ▸ is_field (optional_big_laws E law) (λ a t. refl) (λ a b t. refl) (λ t. refl)
      ▸ is_field (optional_big_laws E law) (λ a t. refl) (λ a b t. refl) (λ t. refl)
      ▸ no_field

  pub transaction_laws : CodecLaws (struct (transaction_table E) empty_transaction)
  unfolding cleared transaction_table is_distinct is_alone key_eq text_eq
  transaction_laws =
      struct_laws (transaction_table E) empty_transaction refl transaction_AreFields (λ t. refl)

  receipt_AreFields : AreFields (receipt_table E)
  unfolding cleared receipt_table
  receipt_AreFields =
      is_field text_laws (λ a t. refl) (λ a b t. refl) (λ t. refl)
      ▸ is_field (uint_laws 64) (λ a t. refl) (λ a b t. refl) (λ t. refl)
      ▸ is_field text_laws (λ a t. refl) (λ a b t. refl) (λ t. refl)
      ▸ is_field (optional_uint_laws 64) (λ a t. refl) (λ a b t. refl) (λ t. refl)
      ▸ is_field text_laws (λ a t. refl) (λ a b t. refl) (λ t. refl)
      ▸ is_field optional_text_laws (λ a t. refl) (λ a b t. refl) (λ t. refl)
      ▸ is_field (optional_big_laws E law) (λ a t. refl) (λ a b t. refl) (λ t. refl)
      ▸ is_field optional_text_laws (λ a t. refl) (λ a b t. refl) (λ t. refl)
      ▸ is_field (slice_laws _ entry_laws) (λ a t. refl) (λ a b t. refl) (λ t. refl)
      ▸ is_field text_laws (λ a t. refl) (λ a b t. refl) (λ t. refl)
      ▸ is_field text_laws (λ a t. refl) (λ a b t. refl) (λ t. refl)
      ▸ is_field (uint_laws 8) (λ a t. refl) (λ a b t. refl) (λ t. refl)
      ▸ no_field

  pub receipt_laws : CodecLaws (struct (receipt_table E) empty_receipt)
  unfolding cleared receipt_table is_distinct is_alone key_eq text_eq
  receipt_laws = struct_laws (receipt_table E) empty_receipt refl receipt_AreFields (λ t. refl)
