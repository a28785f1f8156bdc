-- ===== src/Json/Logs/RoundTrip.antt =====
-- Logs are read back from what the struct tags of types/log.go make of them.
use go_conflux_sdk.Ethereum.{Ethereum}
use go_conflux_sdk.Base.{refl, text_eq}
use go_conflux_sdk.Json.{key_eq}
use go_conflux_sdk.Types.Response.{empty_log_entry}
use go_conflux_sdk.Types.Block.{empty_log}
use go_conflux_sdk.Json.Codec.{CodecLaws, text_codec, text_laws, bool_laws, slice_laws}
use go_conflux_sdk.Json.Numbers.{QuantityLaws}
use go_conflux_sdk.Json.Pointers.{optional_text_laws, optional_big_laws}
use go_conflux_sdk.Json.Struct.{struct}
use go_conflux_sdk.Json.Struct.RoundTrip.{
  is_alone, is_distinct, cleared, AreFields, no_field, ◌▸◌, is_field, struct_laws,
}
use go_conflux_sdk.Json.Logs.{entry_table, log_table}

entry_AreFields : AreFields entry_table
unfolding cleared entry_table
entry_AreFields =
    is_field text_laws (λ a t. refl) (λ a b t. refl) (λ t. refl)
    ▸ is_field (slice_laws text_codec text_laws) (λ a t. refl) (λ a b t. refl) (λ t. refl)
    ▸ is_field text_laws (λ a t. refl) (λ a b t. refl) (λ t. refl)
    ▸ no_field

pub entry_laws : CodecLaws (struct entry_table empty_log_entry)
unfolding cleared entry_table is_distinct is_alone key_eq text_eq
entry_laws = struct_laws entry_table empty_log_entry refl entry_AreFields (λ t. refl)

module _ (E : Ethereum) (law : QuantityLaws E) where
  log_AreFields : AreFields (log_table E)
  unfolding cleared log_table
  log_AreFields =
      is_field text_laws (λ a t. refl) (λ a b t. refl) (λ t. refl)
      ▸ is_field (slice_laws text_codec text_laws) (λ a t. refl) (λ a b t. refl) (λ t. refl)
      ▸ is_field text_laws (λ a t. refl) (λ a b t. refl) (λ t. refl)
      ▸ is_field optional_text_laws (λ a t. refl) (λ a b t. refl) (λ t. refl)
      ▸ is_field (optional_big_laws E law) (λ a t. refl) (λ a b t. refl) (λ t. refl)
      ▸ is_field optional_text_laws (λ a t. refl) (λ a b t. refl) (λ t. refl)
      ▸ is_field (optional_big_laws E law) (λ a t. refl) (λ a b t. refl) (λ t. refl)
      ▸ is_field (optional_big_laws E law) (λ a t. refl) (λ a b t. refl) (λ t. refl)
      ▸ is_field (optional_big_laws E law) (λ a t. refl) (λ a b t. refl) (λ t. refl)
      ▸ is_field bool_laws (λ a t. refl) (λ a b t. refl) (λ t. refl)
      ▸ no_field

  pub log_laws : CodecLaws (struct (log_table E) empty_log)
  unfolding cleared log_table is_distinct is_alone key_eq text_eq
  log_laws = struct_laws (log_table E) empty_log refl log_AreFields (λ t. refl)
