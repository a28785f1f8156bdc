-- ===== src/Json/Narrow.antt =====
-- A type whose numbers have at most 53 bits is read from an interface{} as it is from JSON itself.
pub mod Structs
use go_conflux_sdk.Base.{◌≡◌, refl, ap, ◌^◌, ◌≤◌, ℕ, Text, some, [], ◌∷◌, arith}
use go_conflux_sdk.Result.{Result, ok, err, panic, ◌>>=◌}
use go_conflux_sdk.Ethereum.{Ethereum}
use go_conflux_sdk.Types.Response.{empty_transaction}
use go_conflux_sdk.Types.Block.{BlockSummary, empty_summary}
use go_conflux_sdk.Json.{
  Value, null, bool, num, str, arr, obj, Items, nil, cons, Fields, end, field,
}
use go_conflux_sdk.Json.Float64.{in_interface, in_items, in_fields}
use go_conflux_sdk.Json.Codec.{
  Codec, text_value, text_codec, bool_value, bool_codec, pointer_value, pointer, read_items,
  slice_value, slice,
}
use go_conflux_sdk.Json.Numbers.{
  uint_value, uint_codec, big_value, big_codec, hex_uint64_value, hex_uint64_codec,
}
use go_conflux_sdk.Json.Numbers.Narrow.{uint-float_text}
use go_conflux_sdk.Json.Struct.{Table, set_field, set_fields, read_struct, struct}
use go_conflux_sdk.Json.Struct.Embedded.{embedded}
use go_conflux_sdk.Json.Transactions.{transaction_table, transaction_codec}
use go_conflux_sdk.Json.Blocks.{header_table, summary_table, summary_codec}

abbrev pub IsNarrow : {A : Type 0} → Codec A → Type 0
IsNarrow c = (old : _) (v : Value) → c.read old (in_interface v) ≡ c.read old v

pub text-IsNarrow : IsNarrow text_codec
unfolding text_value in_interface
text-IsNarrow old null = refl
text-IsNarrow old (bool b) = refl
text-IsNarrow old (num t) = refl
text-IsNarrow old (str t) = refl
text-IsNarrow old (arr vs) = refl
text-IsNarrow old (obj fs) = refl

pub bool-IsNarrow : IsNarrow bool_codec
unfolding bool_value in_interface
bool-IsNarrow old null = refl
bool-IsNarrow old (bool b) = refl
bool-IsNarrow old (num t) = refl
bool-IsNarrow old (str t) = refl
bool-IsNarrow old (arr vs) = refl
bool-IsNarrow old (obj fs) = refl

pub uint-IsNarrow : (bits : ℕ) → 2 ^ bits ≤ 2 ^ 53 → IsNarrow (uint_codec bits)
unfolding uint_value in_interface
uint-IsNarrow bits short old null = refl
uint-IsNarrow bits short old (bool b) = refl
uint-IsNarrow bits short old (num t) = uint-float_text bits short t
uint-IsNarrow bits short old (str t) = refl
uint-IsNarrow bits short old (arr vs) = refl
uint-IsNarrow bits short old (obj fs) = refl

module _ (E : Ethereum) where
  pub big-IsNarrow : IsNarrow (big_codec E)
  unfolding big_value in_interface
  big-IsNarrow old null = refl
  big-IsNarrow old (bool b) = refl
  big-IsNarrow old (num t) = refl
  big-IsNarrow old (str t) = refl
  big-IsNarrow old (arr vs) = refl
  big-IsNarrow old (obj fs) = refl

  pub hex_uint64-IsNarrow : IsNarrow (hex_uint64_codec E)
  unfolding hex_uint64_value in_interface
  hex_uint64-IsNarrow old null = refl
  hex_uint64-IsNarrow old (bool b) = refl
  hex_uint64-IsNarrow old (num t) = refl
  hex_uint64-IsNarrow old (str t) = refl
  hex_uint64-IsNarrow old (arr vs) = refl
  hex_uint64-IsNarrow old (obj fs) = refl

module _ {A : Type 0} (c : Codec A) (narrow : IsNarrow c) where
  -- What pointer_value makes of a value that is not null.
  pointed :
      (v w : Value)
      → c.read c.zero_value w ≡ c.read c.zero_value v
      → (c.read c.zero_value w >>= λ a. ok (some a)) ≡ (c.read c.zero_value v >>= λ a. ok (some a))
  pointed v w = ap (λ r. r >>= λ a. ok (some a))

  pub pointer-IsNarrow : IsNarrow (pointer c)
  unfolding pointer_value in_interface
  pointer-IsNarrow old null = refl
  pointer-IsNarrow old (bool b) = refl
  pointer-IsNarrow old (num t) =
      pointed (num t) (in_interface (num t)) (narrow c.zero_value (num t))
  pointer-IsNarrow old (str t) = refl
  pointer-IsNarrow old (arr vs) =
      pointed (arr vs) (in_interface (arr vs)) (narrow c.zero_value (arr vs))
  pointer-IsNarrow old (obj fs) =
      pointed (obj fs) (in_interface (obj fs)) (narrow c.zero_value (obj fs))

  read_items-in_items : (vs : Items) → read_items c (in_items vs) ≡ read_items c vs
  unfolding read_items in_items
  read_items-in_items nil = refl
  read_items-in_items (cons v vs) = rw (narrow c.zero_value v, read_items-in_items vs) refl

  pub slice-IsNarrow : IsNarrow (slice c)
  unfolding slice_value in_interface
  slice-IsNarrow old null = refl
  slice-IsNarrow old (bool b) = refl
  slice-IsNarrow old (num t) = refl
  slice-IsNarrow old (str t) = refl
  slice-IsNarrow old (arr vs) = read_items-in_items vs
  slice-IsNarrow old (obj fs) = refl
