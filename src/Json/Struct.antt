-- ===== src/Json/Struct.antt =====
-- How encoding/json reads and writes a struct, by a table of its struct tags. The values come out of a
-- Go map, so no key stands twice.
pub mod RoundTrip
pub mod Embedded
use go_conflux_sdk.Base.{◌&&◌, Bool, true, false, List, [], ◌∷◌, String, Text, codes, if◌then◌else◌}
use go_conflux_sdk.Result.{Result, ok, err, ◌>>=◌}
use go_conflux_sdk.Json.{Value, null, obj, Fields, end, field, type_error, key_eq}
use go_conflux_sdk.Json.Codec.{Codec}

-- A field with its tag: `json:"key"` or `json:"key,omitempty"`.
pub record Field (T : Type 0) : Type 1 where
  pub Kind : Type 0
  pub key : String
  pub omitempty : Bool
  pub codec : Codec Kind
  pub get : T → Kind
  pub put : Kind → T → T

abbrev pub Table : Type 0 → Type 1
Table T = List (Field T)

module _ {T A : Type 0} (key : String) (codec : Codec A) (get : T → A) (put : A → T → T) where
  abbrev pub tag : Field T
  tag = record { Kind = A; key = key; omitempty = false; codec = codec; get = get; put = put }

  abbrev pub tag_omitempty : Field T
  tag_omitempty = record {
    Kind = A;
    key = key;
    omitempty = true;
    codec = codec;
    get = get;
    put = put;
  }

module _ {T : Type 0} where
  abbrev pub store : Field T → Value → T → Result T
  store f v t = do a ← f.codec.read (f.get t) v; ok (f.put a t)

  unfoldable pub set_field : Table T → Text → Value → T → Result T
  set_field [] key v t = ok t
  set_field (f ∷ rest) key v t =
      let others = set_field rest key v t in if key_eq key f.key then store f v t else others

  unfoldable pub set_fields : Table T → Fields → T → Result T
  unfolding set_field
  set_fields table end t = ok t
  set_fields table (field key v fs) t = do t' ← set_field table key v t; set_fields table fs t'

  unfoldable pub read_struct : Table T → T → Value → Result T
  unfolding set_fields
  read_struct table t null = ok t
  read_struct table t (obj fs) = set_fields table fs t
  read_struct table t _ = err type_error

  abbrev pub write_field : Field T → T → Fields → Fields
  write_field f t rest =
      if f.omitempty && f.codec.is_empty (f.get t)
      then rest
      else field (codes f.key) (f.codec.write (f.get t)) rest

  unfoldable pub write_fields : Table T → T → Fields
  write_fields [] t = end
  write_fields (f ∷ rest) t = write_field f t (write_fields rest t)

  unfoldable pub IsWritableStruct : Table T → T → Type 0
  IsWritableStruct [] t = Unit
  IsWritableStruct (f ∷ rest) t = f.codec.IsWritable (f.get t) × IsWritableStruct rest t

  -- A struct that holds `empty` before. omitempty never leaves out a struct.
  abbrev pub struct : Table T → T → Codec T
  struct table empty = record {
    zero_value = empty;
    read = read_struct table;
    write = λ t. obj (write_fields table t);
    is_empty = λ t. false;
    IsWritable = IsWritableStruct table;
  }
