-- ===== src/Json/Narrow/Structs.antt =====
-- A struct whose fields are all narrow is, as those of a transaction and of the summary of a block are.
use go_conflux_sdk.Base.{◌≡◌, refl, Text, [], ◌∷◌, arith}
use go_conflux_sdk.Result.{Result, ok, err, panic, ◌>>=◌}
use go_conflux_sdk.Ethereum.{Ethereum}
use go_conflux_sdk.Types.Response.{empty_transaction}
use go_conflux_sdk.Types.Block.{BlockSummary, empty_summary}
use go_conflux_sdk.Json.{Value, null, bool, num, str, arr, obj, Fields, end, field}
use go_conflux_sdk.Json.Float64.{in_interface, in_fields}
use go_conflux_sdk.Json.Codec.{text_codec, bool_codec, pointer, slice}
use go_conflux_sdk.Json.Numbers.{big_codec, hex_uint64_codec}
use go_conflux_sdk.Json.Struct.{Table, set_field, set_fields, read_struct, struct}
use go_conflux_sdk.Json.Struct.Embedded.{embedded}
use go_conflux_sdk.Json.Transactions.{transaction_table, transaction_codec}
use go_conflux_sdk.Json.Blocks.{header_table, summary_table, summary_codec}
use go_conflux_sdk.Json.Narrow.{
  IsNarrow, text-IsNarrow, bool-IsNarrow, uint-IsNarrow, big-IsNarrow, hex_uint64-IsNarrow,
  pointer-IsNarrow, slice-IsNarrow,
}

module _ {T : Type 0} where
  unfoldable AreNarrow : Table T → Type 0
  AreNarrow [] = Unit
  AreNarrow (f ∷ fs) = IsNarrow f.codec × AreNarrow fs

  set_field-in_interface :
      (table : Table T) (key : Text) (v : Value) (t : T)
      → AreNarrow table
      → set_field table key (in_interface v) t ≡ set_field table key v t
  unfolding set_field AreNarrow
  set_field-in_interface [] key v t h = refl
  set_field-in_interface (f ∷ fs) key v t h =
      rw (h.0 (f.get t) v, set_field-in_interface fs key v t h.1) refl

  then_fields :
      (table : Table T) (fs : Fields) (r : Result T)
      → ((u : T) → set_fields table (in_fields fs) u ≡ set_fields table fs u)
      → (r >>= λ u. set_fields table (in_fields fs) u) ≡ (r >>= λ u. set_fields table fs u)
  then_fields table fs (ok u) h = h u
  then_fields table fs (err x) h = refl
  then_fields table fs panic h = refl

  set_fields-in_fields :
      (table : Table T) (fs : Fields) (t : T)
      → AreNarrow table
      → set_fields table (in_fields fs) t ≡ set_fields table fs t
  unfolding set_fields in_fields
  set_fields-in_fields table end t h = refl
  set_fields-in_fields table (field key v fs) t h =
      rw (set_field-in_interface table key v t h)
        (then_fields table fs (set_field table key v t) (λ u. set_fields-in_fields table fs u h))

  struct-IsNarrow : (table : Table T) (empty : T) → AreNarrow table → IsNarrow (struct table empty)
  unfolding read_struct in_interface
  struct-IsNarrow table empty h old null = refl
  struct-IsNarrow table empty h old (bool b) = refl
  struct-IsNarrow table empty h old (num t) = refl
  struct-IsNarrow table empty h old (str t) = refl
  struct-IsNarrow table empty h old (arr vs) = refl
  struct-IsNarrow table empty h old (obj fs) = set_fields-in_fields table fs old h

module _ {S T : Type 0} (inner : T → S) (set_inner : S → T → T) where
  embedded-AreNarrow : (fs : Table S) → AreNarrow fs → AreNarrow (embedded inner set_inner fs)
  unfolding AreNarrow
  embedded-AreNarrow [] h = tt
  embedded-AreNarrow (f ∷ fs) (h, hs) = (h, embedded-AreNarrow fs hs)

module _ (E : Ethereum) where
  optional_text : IsNarrow (pointer text_codec)
  optional_text = pointer-IsNarrow text_codec text-IsNarrow

  optional_bool : IsNarrow (pointer bool_codec)
  optional_bool = pointer-IsNarrow bool_codec bool-IsNarrow

  optional_big : IsNarrow (pointer (big_codec E))
  optional_big = pointer-IsNarrow (big_codec E) (big-IsNarrow E)

  optional_hex : IsNarrow (pointer (hex_uint64_codec E))
  optional_hex = pointer-IsNarrow (hex_uint64_codec E) (hex_uint64-IsNarrow E)

  texts : IsNarrow (slice text_codec)
  texts = slice-IsNarrow text_codec text-IsNarrow

  transaction_AreNarrow : AreNarrow (transaction_table E)
  unfolding AreNarrow transaction_table
  transaction_AreNarrow = (
    text-IsNarrow,
    (
      optional_big,
      (
        optional_text,
        (
          optional_big,
          (
            text-IsNarrow,
            (
              optional_text,
              (
                optional_big,
                (
                  optional_big,
                  (
                    optional_big,
                    (
                      optional_text,
                      (
                        text-IsNarrow,
                        (
                          optional_big,
                          (
                            optional_big,
                            (
                              optional_big,
                              (optional_big, (optional_big, (optional_big, (optional_big, tt)))),
                            ),
                          ),
                        ),
                      ),
                    ),
                  ),
                ),
              ),
            ),
          ),
        ),
      ),
    ),
  )

  pub transaction-IsNarrow : IsNarrow (transaction_codec E)
  transaction-IsNarrow =
      struct-IsNarrow (transaction_table E) empty_transaction transaction_AreNarrow

  header_AreNarrow : AreNarrow (header_table E)
  unfolding AreNarrow header_table
  header_AreNarrow = (
    text-IsNarrow,
    (
      text-IsNarrow,
      (
        optional_big,
        (
          text-IsNarrow,
          (
            text-IsNarrow,
            (
              text-IsNarrow,
              (
                text-IsNarrow,
                (
                  uint-IsNarrow 32 (omega arith),
                  (
                    text-IsNarrow,
                    (
                      optional_big,
                      (
                        optional_big,
                        (
                          optional_hex,
                          (
                            optional_big,
                            (
                              texts,
                              (optional_bool, (bool-IsNarrow, (optional_big, (optional_big, tt)))),
                            ),
                          ),
                        ),
                      ),
                    ),
                  ),
                ),
              ),
            ),
          ),
        ),
      ),
    ),
  )

  summary_AreNarrow : AreNarrow (summary_table E)
  unfolding AreNarrow summary_table
  summary_AreNarrow = (
    texts,
    embedded-AreNarrow (λ (b : BlockSummary). b.header) (λ h b. record b { header = h })
        (header_table E) header_AreNarrow,
  )

  pub summary-IsNarrow : IsNarrow (summary_codec E)
  summary-IsNarrow = struct-IsNarrow (summary_table E) empty_summary summary_AreNarrow
