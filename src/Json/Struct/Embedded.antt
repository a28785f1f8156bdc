-- ===== src/Json/Struct/Embedded.antt =====
-- The fields of an embedded struct are fields of the struct.
use go_conflux_sdk.Base.{◌≡◌, sym, [], ◌∷◌, map}
use go_conflux_sdk.Json.Struct.{Field, Table, IsWritableStruct}
use go_conflux_sdk.Json.Struct.RoundTrip.{cleared, IsField, AreFields, no_field, ◌▸◌}

module _ {S T : Type 0} (inner : T → S) (set_inner : S → T → T) where
  abbrev embedded_field : Field S → Field T
  embedded_field f = record {
    Kind = f.Kind;
    key = f.key;
    omitempty = f.omitempty;
    codec = f.codec;
    get = λ t. f.get (inner t);
    put = λ a t. set_inner (f.put a (inner t)) t;
  }

  abbrev pub embedded : Table S → Table T
  embedded fs = map embedded_field fs

  module _ (inner_set : (s : S) (t : T) → inner (set_inner s t) ≡ s)
      (set_set : (s s' : S) (t : T) → set_inner s (set_inner s' t) ≡ set_inner s t)
      (set_same : (t : T) → set_inner (inner t) t ≡ t) where
    cleared-embedded :
        (fs : Table S) (t : T) → cleared (embedded fs) t ≡ set_inner (cleared fs (inner t)) t
    unfolding cleared
    cleared-embedded [] t = sym (set_same t)
    cleared-embedded (f ∷ fs) t =
        rw (cleared-embedded fs t, inner_set (cleared fs (inner t)) t)
          (set_set (f.put f.codec.zero_value (cleared fs (inner t))) (cleared fs (inner t)) t)

    embedded-IsField :
        (f : Field S) (fs : Table S) → IsField f fs → IsField (embedded_field f) (embedded fs)
    embedded-IsField f fs field = record {
      laws = field.laws;
      get_put = λ a t. rw (inner_set (f.put a (inner t)) t) (field.get_put a (inner t));
      put_put = λ a b t.
          rw (inner_set (f.put b (inner t)) t, field.put_put a b (inner t))
            (set_set (f.put a (inner t)) (f.put b (inner t)) t);
      put_get = λ t.
          rw (cleared-embedded fs t, inner_set (cleared fs (inner t)) t, field.put_get (inner t))
            (set_set (cleared fs (inner t)) (cleared fs (inner t)) t);
    }

    pub embedded-AreFields : (fs : Table S) → AreFields fs → AreFields (embedded fs)
    embedded-AreFields [] no_field = no_field
    embedded-AreFields (f ∷ fs) (h ▸ hs) = embedded-IsField f fs h ▸ embedded-AreFields fs hs

    pub embedded-IsWritable :
        (fs : Table S) (t : T) → IsWritableStruct fs (inner t) → IsWritableStruct (embedded fs) t
    unfolding IsWritableStruct
    embedded-IsWritable [] t h = tt
    embedded-IsWritable (f ∷ fs) t (h, hs) = (h, embedded-IsWritable fs t hs)
