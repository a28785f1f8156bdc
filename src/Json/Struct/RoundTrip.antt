-- ===== src/Json/Struct/RoundTrip.antt =====
-- A struct that is written by the table of its tags is read back by it.
use go_conflux_sdk.Base.{
  ◌≡◌, refl, sym, ◌∙◌, ap, ◌&&◌, Bool, true, false, [], ◌∷◌, codes, Bool-cases, inl, inr, arith,
  text_eq_refl, map, lower, if◌then◌else◌,
}
use go_conflux_sdk.Result.{ok}
use go_conflux_sdk.Json.{Value, obj, key_eq}
use go_conflux_sdk.Json.Float64.{in_interface, in_fields}
use go_conflux_sdk.Json.Codec.{CodecLaws}
use go_conflux_sdk.Json.Struct.{
  Field, Table, store, set_field, set_fields, read_struct, write_fields, IsWritableStruct, struct,
}

module _ {T : Type 0} where
  -- No field but this one has its key.
  unfoldable pub is_alone : Field T → Table T → Bool
  is_alone f [] = true
  is_alone f (g ∷ rest) = (if key_eq (codes g.key) f.key then false else true) && is_alone f rest

  unfoldable pub is_distinct : Table T → Bool
  unfolding is_alone
  is_distinct [] = true
  is_distinct (f ∷ rest) = is_alone f rest && is_distinct rest

  -- The table finds each of these fields by its key.
  unfoldable pub Found : Table T → Table T → Type 0
  Found table [] = Unit
  Found table (f ∷ rest) =
      ((v : Value) (t : T) → set_field table (codes f.key) v t ≡ store f v t) × Found table rest

  Found-later :
      (g : Field T) (table fs : Table T)
      → is_alone g fs ≡ true
      → Found table fs
      → Found (g ∷ table) fs
  unfolding Found is_alone
  Found-later g table [] alone found = tt
  Found-later g table (f ∷ fs) alone found = (
    λ v t.
        unfold set_field in
        rw (let other : key_eq (codes f.key) g.key ≡ false = ground (arith, alone) in other)
          (found.0 v t),
    Found-later g table fs (ground (arith, alone)) found.1,
  )

  pub is_distinct-Found : (table : Table T) → is_distinct table ≡ true → Found table table
  unfolding Found is_distinct
  is_distinct-Found [] h = tt
  is_distinct-Found (f ∷ fs) h = (
    λ v t. unfold set_field key_eq in rw (text_eq_refl (map lower (codes f.key))) refl,
    Found-later f fs fs (ground (arith, h)) (is_distinct-Found fs (ground (arith, h))),
  )

  -- A struct in which these fields have been reset.
  unfoldable pub cleared : Table T → T → T
  cleared [] t = t
  cleared (f ∷ rest) t = f.put f.codec.zero_value (cleared rest t)

  -- A field is read back as it was put, and stands apart from the later fields.
  pub record IsField (f : Field T) (rest : Table T) : Type 0 where
    pub laws : CodecLaws f.codec
    pub get_put : (a : f.Kind) (t : T) → f.get (f.put a t) ≡ a
    pub put_put : (a b : f.Kind) (t : T) → f.put a (f.put b t) ≡ f.put a t
    pub put_get : (t : T) → f.put (f.get t) (cleared rest t) ≡ cleared rest t

  pub is_field :
      {f : Field T} {rest : Table T}
      → CodecLaws f.codec
      → ((a : f.Kind) (t : T) → f.get (f.put a t) ≡ a)
      → ((a b : f.Kind) (t : T) → f.put a (f.put b t) ≡ f.put a t)
      → ((t : T) → f.put (f.get t) (cleared rest t) ≡ cleared rest t)
      → IsField f rest
  is_field laws get_put put_put put_get = record {
    laws = laws;
    get_put = get_put;
    put_put = put_put;
    put_get = put_get;
  }

  infixr 5 ◌▸◌
  pub data AreFields : Table T → Type 1 where
    no_field : AreFields []
    ◌▸◌ : {f : Field T} {rest : Table T} → IsField f rest → AreFields rest → AreFields (f ∷ rest)

  store-write :
      (f : Field T) (rest : Table T) (t : T)
      → IsField f rest
      → f.codec.IsWritable (f.get t)
      → store f (f.codec.write (f.get t)) (f.put f.codec.zero_value (cleared rest t))
        ≡ ok (cleared rest t)
  store-write f rest t apart h =
      rw (apart.get_put f.codec.zero_value (cleared rest t), apart.laws.read_write (f.get t) h)
        (ap (λ (u : T). ok u)
          (apart.put_put (f.get t) f.codec.zero_value (cleared rest t) ∙ apart.put_get t))

  -- A field that is left out is empty.
  left_out :
      (f : Field T) (rest : Table T) (t : T)
      → IsField f rest
      → (f.omitempty && f.codec.is_empty (f.get t)) ≡ true
      → f.put f.codec.zero_value (cleared rest t) ≡ cleared rest t
  left_out f rest t apart e =
      let zero : f.get t ≡ f.codec.zero_value =
        apart.laws.empty_zero (f.get t) (ground (arith, e)) in
      ap (λ (a : f.Kind). f.put a (cleared rest t)) (sym zero) ∙ apart.put_get t

  set_fields-write :
      (table fs : Table T) (t : T)
      → Found table fs
      → AreFields fs
      → IsWritableStruct fs t
      → set_fields table (write_fields fs t) (cleared fs t) ≡ ok t
  unfolding Found IsWritableStruct write_fields cleared set_fields
  set_fields-write table [] t found no_field h = refl
  set_fields-write table (f ∷ fs) t found (apart ▸ rest_apart) h =
      let rest : set_fields table (write_fields fs t) (cleared fs t) ≡ ok t =
        set_fields-write table fs t found.1 rest_apart h.1 in
      elim (Bool-cases (f.omitempty && f.codec.is_empty (f.get t))) [
        | inl e ↦ rw e (ap (set_fields table (write_fields fs t)) (left_out f fs t apart e) ∙ rest)
        | inr e ↦
            rw
              (
                e,
                found.0 (f.codec.write (f.get t)) (f.put f.codec.zero_value (cleared fs t)),
                store-write f fs t apart h.0,
              )
              rest
      ]

  in_fields-write :
      (fs : Table T) (t : T)
      → AreFields fs
      → IsWritableStruct fs t
      → in_fields (write_fields fs t) ≡ write_fields fs t
  unfolding IsWritableStruct write_fields in_fields
  in_fields-write [] t no_field h = refl
  in_fields-write (f ∷ fs) t (apart ▸ rest_apart) h =
      let rest : in_fields (write_fields fs t) ≡ write_fields fs t =
        in_fields-write fs t rest_apart h.1 in
      elim (Bool-cases (f.omitempty && f.codec.is_empty (f.get t))) [
        | inl e ↦ rw e rest
        | inr e ↦ rw (e, apart.laws.in_interface-write (f.get t) h.0, rest) refl
      ]

  -- A table whose keys are distinct and whose fields stand apart reads back what it writes.
  pub struct_laws :
      (table : Table T) (empty : T)
      → is_distinct table ≡ true
      → AreFields table
      → ((t : T) → cleared table t ≡ empty)
      → CodecLaws (struct table empty)
  unfolding read_struct in_interface
  struct_laws table empty distinct fields all_cleared = record {
    read_write = λ t h.
        ap (set_fields table (write_fields table t)) (sym (all_cleared t))
        ∙ set_fields-write table table t (is_distinct-Found table distinct) fields h;
    empty_zero = λ t e. absurd (cc e);
    in_interface-write = λ t h. ap obj (in_fields-write table t fields h);
  }
